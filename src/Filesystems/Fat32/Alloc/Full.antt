-- ===== src/Filesystems/Fat32/Alloc/Full.antt =====
-- kernel/src/filesystems/fstypes/fat32/alloc.rs: the only failure of `alloc_clusters` on a device that
-- answers.
use bedrock_stack.Base.{
  ℕ, ◌-◌, ◌^◌, ◌≤◌, ◌<◌, ◌≡◌, refl, ap, inl, inr, true, not, some, List, [], ◌∷◌, Bool-cases,
  Option-cases, ◌==◌, length, mem, All, Result, ok, err, arith, subst,
}
use bedrock_stack.Unispace.{VfsError, no_space}
use bedrock_stack.Filesystems.Fat32.{Bpb, in_volume}
use bedrock_stack.Filesystems.Fat32.Geometry.{IsValid, in_volume_bounds}
use bedrock_stack.Filesystems.Fat32.Table.{Volume}
use bedrock_stack.Filesystems.Fat32.Table.Entry.{entry, Works, is_some, has_bitmap, Agrees}
use bedrock_stack.Filesystems.Fat32.Alloc.{Bits, alloc_from_bitmap, alloc_clusters}
use bedrock_stack.Filesystems.Fat32.Alloc.{commit}
use bedrock_stack.Filesystems.Fat32.Alloc.Bitmap.{Took}
use bedrock_stack.Filesystems.Fat32.Alloc.Choose.{IsFull, choose_cases}
use bedrock_stack.Filesystems.Fat32.Alloc.Write.{write_eocs-Works}
use bedrock_stack.Filesystems.Fat32.Alloc.Claim.{entry-bitmap}
use bedrock_stack.Filesystems.Fat32.Alloc.Promise.{
  commit_ok, bitmap_full, bitmap_found, fresh_entries, not_empty,
}
use bedrock_stack.Filesystems.Fat32.Alloc.Correct.{
  alloc_none, alloc_nowhere, alloc_by_bitmap, agreement,
}

-- All the free clusters stand in a list shorter than the count, and the table is as it was.
abbrev pub NoRoom : ℕ → Volume → Volume → Type 0
NoRoom count v w =
    ((free : List ℕ) × (length free < count)
      × ((c : ℕ) → in_volume v.bpb c ≡ true → entry v c ≡ 0 → mem c free ≡ true))
    × ((d : ℕ) → entry w d ≡ entry v d)

abbrev FullOutcome : ℕ → Volume → Result VfsError (List ℕ) × Volume → Type 0
FullOutcome count v r = elim r.0 [ ok cs ↦ Unit | err e ↦ (e ≡ no_space) × NoRoom count v r.1 ]

inside_only :
    (b : Bpb) (f : ℕ → ℕ) (cs : List ℕ)
    → All (λ c. (in_volume b c ≡ true) × (f c ≡ 0)) cs
    → All (λ c. in_volume b c ≡ true) cs
inside_only b f [] h = tt
inside_only b f (c ∷ cs) h = (h.0.0, inside_only b f cs h.1)

module _ (n count : ℕ) (v : Volume) (bits : Bits) (valid : IsValid n v.bpb) (works : Works v)
    (kind : v.alloc_bitmap ≡ some bits)
    (agree : (c : ℕ) → in_volume v.bpb c ≡ true → bits (c - 2) ≡ not (entry v c == 0))
    (small : count < 2 ^ 32) (one : 1 ≤ count) (pos : 1 ≤ v.bpb.total_clus) where
  room_left :
      (cs : List ℕ) (bits' : Bits)
      → Took v.bpb.total_clus cs bits bits'
      → FullOutcome count v (commit cs count (record v { alloc_bitmap = some bits' }))
  room_left cs bits' t =
      let w : Volume = record v { alloc_bitmap = some bits' } in
      let inside =
        inside_only v.bpb (entry v) cs (fresh_entries n count v bits valid kind agree cs t.fresh) in
      rw (commit_ok count w cs (write_eocs-Works n cs w valid works inside)) tt

  no_room :
      (bits' : Bits)
      → IsFull v.bpb.total_clus count bits
      → NoRoom count v (record v { alloc_bitmap = some bits' })
  no_room bits' full = (
    (
      full.free,
      full.few,
      (λ c h e.
          let k = in_volume_bounds v.bpb c h in
          full.all_free c k.0 k.1 (ground (arith, agree c h, e))),
    ),
    entry-bitmap (some bits') v,
  )

  from_bitmap-FullOutcome : FullOutcome count v (alloc_from_bitmap count bits v)
  from_bitmap-FullOutcome = elim (choose_cases v.bpb.total_clus count v.next_alloc_hint bits pos) [
    | inl (cs, bits', e, t, len) ↦
        rw
          (bitmap_found n count v bits valid kind agree small one pos cs bits' e
            (not_empty cs (omega (arith, len))))
          (room_left cs bits' t)
    | inr (bits', e, same, full) ↦
        rw (bitmap_full n count v bits valid kind agree small one pos no_space bits' e)
          (refl, no_room bits' full)
  ]

alloc_clusters-FullOutcome :
    (n count : ℕ) (v : Volume)
    → IsValid n v.bpb
    → Agrees v
    → Works v
    → has_bitmap v ≡ true
    → count < 2 ^ 32
    → FullOutcome count v (alloc_clusters count v)
alloc_clusters-FullOutcome n count v valid a works has small = elim (Bool-cases (count == 0)) [
  | inl z ↦ rw (alloc_none count v (ground (arith, z))) tt
  | inr z ↦ elim (Bool-cases (v.bpb.total_clus == 0)) [
    | inl t ↦ rw (alloc_nowhere count v (ground (arith, z)) (ground (arith, t))) (
      refl,
      (
        ([], ground (arith, z), λ c h e. absurd (ground (arith, in_volume_bounds v.bpb c h, t))),
        λ d. refl,
      ),
    )
    | inr t ↦ elim (Option-cases v.alloc_bitmap) [
      | inl e ↦ absurd (ground (arith, ap is_some e, has))
      | inr (bits, e) ↦
          let one : 1 ≤ count = ground (arith, z) in
          let pos : 1 ≤ v.bpb.total_clus = ground (arith, t) in
          rw (alloc_by_bitmap count v bits one pos e) (
            from_bitmap-FullOutcome n count v bits valid works e (agreement v bits a e) small one
              pos)
    ]
  ]
]

-- Where the device answers and there is a bitmap, `alloc_clusters` fails only for want of space: the
-- clusters with a free entry all stand in a list shorter than the count asked for. The table is then
-- as it was.
pub alloc_clusters-full :
    (n count : ℕ) (v w : Volume) (e : VfsError)
    → IsValid n v.bpb
    → Agrees v
    → Works v
    → has_bitmap v ≡ true
    → count < 2 ^ 32
    → alloc_clusters count v ≡ (err e, w)
    → (e ≡ no_space) × NoRoom count v w
alloc_clusters-full n count v w e valid a works has small h =
    subst (FullOutcome count v) h (alloc_clusters-FullOutcome n count v valid a works has small)
