-- ===== src/Filesystems/Fat32/Alloc/Correct.antt =====
-- kernel/src/filesystems/fstypes/fat32/alloc.rs: `alloc_clusters` on success, on failure, and together
-- with `free_chain`.
use bedrock_stack.Base.{
  ℕ, ◌-◌, ◌%◌, ◌^◌, ◌≤◌, ◌<◌, ◌≡◌, refl, sym, ap, ◌∙◌, inl, inr, Bool, true, false, not, none, some,
  List, [], ◌∷◌, Bool-cases, Option-cases, ◌==◌, length, mem, ok, err, arith, if◌then◌else◌, subst,
}
use bedrock_stack.Unispace.{VfsError, no_space}
use bedrock_stack.Filesystems.Fat32.{in_volume}
use bedrock_stack.Filesystems.Fat32.Geometry.{IsValid}
use bedrock_stack.Filesystems.Fat32.Table.{Volume, eoc_marker}
use bedrock_stack.Filesystems.Fat32.Table.Entry.{entry, Works, bit_of, is_some, is_marked, Agrees}
use bedrock_stack.Filesystems.Fat32.Alloc.{Bits, alloc_from_fat, alloc_from_bitmap, alloc_clusters}
use bedrock_stack.Filesystems.Fat32.Alloc.Claim.{Claimed, Untouched, Outcome, fat-Outcome}
use bedrock_stack.Filesystems.Fat32.Alloc.Promise.{from_bitmap-Outcome}
use bedrock_stack.Filesystems.Fat32.Chain.{free_chain}
use bedrock_stack.Filesystems.Fat32.Chain.Spec.{IsChain}
use bedrock_stack.Filesystems.Fat32.Chain.FreeLoop.{free_chain-Freed}

Claimed-none : (v : Volume) → Claimed [] v v
Claimed-none v = record {
  same_bpb = refl;
  same_kind = refl;
  distinct = tt;
  fresh = tt;
  entries = λ d. refl;
  bits = λ d h. refl;
  count = ap (λ x. x % 2 ^ 32) (omega arith);
}

Untouched-none : (v : Volume) → Untouched v v
Untouched-none v = record {
  same_bpb = refl;
  same_kind = refl;
  same_count = refl;
  entries = λ d. inr refl;
  bits = λ d h. refl;
}

module _ (count : ℕ) (v : Volume) where
  pub alloc_none : count ≡ 0 → alloc_clusters count v ≡ (ok [], v)
  unfolding alloc_clusters
  alloc_none h = ground (arith, h)

  pub alloc_nowhere : 1 ≤ count → v.bpb.total_clus ≡ 0 → alloc_clusters count v ≡ (err no_space, v)
  unfolding alloc_clusters
  alloc_nowhere h k = ground (arith, h, k)

  alloc_by_fat :
      1 ≤ count
      → 1 ≤ v.bpb.total_clus
      → v.alloc_bitmap ≡ none
      → alloc_clusters count v ≡ alloc_from_fat count v
  unfolding alloc_clusters
  alloc_by_fat h k e = ground (arith, h, k, e)

  pub alloc_by_bitmap :
      (bits : Bits)
      → 1 ≤ count
      → 1 ≤ v.bpb.total_clus
      → v.alloc_bitmap ≡ some bits
      → alloc_clusters count v ≡ alloc_from_bitmap count bits v
  unfolding alloc_clusters
  alloc_by_bitmap bits h k e = ground (arith, h, k, e)

pub agreement :
    (v : Volume) (bits : Bits)
    → Agrees v
    → v.alloc_bitmap ≡ some bits
    → (c : ℕ) → in_volume v.bpb c ≡ true
    → bits (c - 2) ≡ not (entry v c == 0)
agreement v bits a e c h = sym (ap (λ o. bit_of o (c - 2)) e) ∙ a (ap is_some e) c h

alloc_clusters-Outcome :
    (n count : ℕ) (v : Volume)
    → IsValid n v.bpb
    → Agrees v
    → count < 2 ^ 32
    → Outcome count v (alloc_clusters count v)
alloc_clusters-Outcome n count v valid a small = elim (Bool-cases (count == 0)) [
  | inl z ↦ rw (alloc_none count v (ground (arith, z))) (Claimed-none v, ground (arith, z))
  | inr z ↦ elim (Bool-cases (v.bpb.total_clus == 0)) [
    | inl t ↦ rw (alloc_nowhere count v (ground (arith, z)) (ground (arith, t))) (Untouched-none v)
    | inr t ↦
        let one : 1 ≤ count = ground (arith, z) in
        let pos : 1 ≤ v.bpb.total_clus = ground (arith, t) in
        elim (Option-cases v.alloc_bitmap) [
          | inl e ↦ rw (alloc_by_fat count v one pos e) (fat-Outcome n count v valid e small)
          | inr (bits, e) ↦
              rw (alloc_by_bitmap count v bits one pos e)
                (from_bitmap-Outcome n count v bits valid e (agreement v bits a e) small one pos)
        ]
  ]
]

-- Clusters that `alloc_clusters` returns are as many as asked for, distinct, of the volume, and had a
-- free entry. Their entries are end markers, their bits are set, and the counter went down by their
-- number; every other entry and bit is as before. This holds with and without a bitmap, where the
-- bitmap agreed with the table.
pub alloc_clusters-Claimed :
    (n count : ℕ) (v w : Volume) (cs : List ℕ)
    → IsValid n v.bpb
    → Agrees v
    → count < 2 ^ 32
    → alloc_clusters count v ≡ (ok cs, w)
    → Claimed cs v w × (length cs ≡ count)
alloc_clusters-Claimed n count v w cs valid a small h =
    subst (Outcome count v) h (alloc_clusters-Outcome n count v valid a small)

-- An `alloc_clusters` that fails, for want of space or on any access to the device, leaves all bits and
-- the counter as they were, and every entry that was not free.
pub alloc_clusters-Untouched :
    (n count : ℕ) (v w : Volume) (e : VfsError)
    → IsValid n v.bpb
    → Agrees v
    → count < 2 ^ 32
    → alloc_clusters count v ≡ (err e, w)
    → Untouched v w
alloc_clusters-Untouched n count v w e valid a small h =
    subst (Outcome count v) h (alloc_clusters-Outcome n count v valid a small)

-- An allocation keeps the bitmap and the table in agreement.
pub Claimed-Agrees : (cs : List ℕ) (v w : Volume) → Claimed cs v w → Agrees v → Agrees w
Claimed-Agrees cs v w c a k d hin =
    let inside = subst (λ b. in_volume b d ≡ true) c.same_bpb hin in
    let has = sym c.same_kind ∙ k in
    ground (arith, c.bits d inside, c.entries d, a has d inside, has)

free_unmarked :
    (v : Volume) (c : ℕ)
    → Agrees v
    → in_volume v.bpb c ≡ true
    → entry v c ≡ 0
    → is_marked v c ≡ false
free_unmarked v c a h e = elim (Option-cases v.alloc_bitmap) [
  | inl k ↦ ap (λ o. bit_of o (c - 2)) k
  | inr (bits, k) ↦ ground (arith, a (ap is_some k) c h, e)
]

same_bit :
    (d c : ℕ) (x w v has : Bool)
    → x ≡ (if mem d (c ∷ []) then false else w)
    → w ≡ (if mem d (c ∷ []) then has else v)
    → (d ≡ c → v ≡ false)
    → x ≡ v
same_bit d c x w v has h k f = ground (arith, h, k, f)

-- A cluster that is allocated and freed again: the table, the bits and the counter are as before.
pub free_chain-alloc_clusters :
    (n : ℕ) (v w : Volume) (c : ℕ)
    → IsValid n v.bpb
    → Agrees v
    → Works w
    → c < eoc_marker
    → alloc_clusters 1 v ≡ (ok (c ∷ []), w)
    → (x : Volume) × (free_chain c w ≡ (ok tt, x))
      × ((d : ℕ) → entry x d ≡ entry v d)
      × ((d : ℕ) → in_volume v.bpb d ≡ true → is_marked x d ≡ is_marked v d)
      × (x.free_clus_count % 2 ^ 32 ≡ v.free_clus_count % 2 ^ 32)
free_chain-alloc_clusters n v w c valid a works small h =
    let (cl, len) = alloc_clusters-Claimed n 1 v w (c ∷ []) valid a (omega arith) h in
    let inside = cl.fresh.0.0 in
    let end : eoc_marker ≤ entry w c = ground (arith, cl.entries c) in
    let chain : IsChain (entry w) w.bpb c (c ∷ []) =
      (refl, subst (λ b. in_volume b c ≡ true) (sym cl.same_bpb) inside, small, end) in
    let (x, e, f) =
      free_chain-Freed n w c (c ∷ []) (subst (IsValid n) (sym cl.same_bpb) valid) works chain in
    (
      x,
      e,
      (λ d. ground (arith, f.entries d, cl.entries d, cl.fresh)),
      (λ d k.
          let inside' = subst (λ b. in_volume b d ≡ true) (sym cl.same_bpb) k in
          same_bit d c _ _ _ _ (f.bits d inside') (cl.bits d k)
            (λ q. free_unmarked v d a k (subst (λ z. entry v z ≡ 0) (sym q) cl.fresh.0.1))),
      f.count ∙ cl.count,
    )
