-- ===== src/Filesystems/Fat32/Table/Entry.antt =====
-- kernel/src/filesystems/fstypes/fat32/fat.rs: the table as a function from clusters to entries, and
-- what a read and a write do to it.
use bedrock_stack.Base.{
  ℕ, ◌+◌, ◌-◌, ◌*◌, ◌/◌, ◌%◌, ◌^◌, ◌≤◌, ◌<◌, ◌≡◌, refl, ap, sym, ◌∙◌, subst, ◌⊎◌, ◌≢◌, inl, inr,
  Bool, true, false, not, Option, none, some, if◌then◌else◌, ◌==◌, Bool-cases, ok, err, arith,
}
use bedrock_stack.Unispace.{VfsError, io_error, invalid_input}
use bedrock_stack.Filesystems.Fat32.{
  Sector, Bpb, le32, in_volume, fat_entry_position, active_fat_idx, fat_sector_lba,
}
use bedrock_stack.Filesystems.Fat32.Geometry.{IsValid, in_volume_bounds}
use bedrock_stack.Filesystems.Fat32.Table.{
  Volume, Action, and_then, tick, with_access, put_le32, put_entry, read_fat_entry, write_fat_entry,
}

-- The sector of an entry.
abbrev pub entry_lba : Bpb → ℕ → ℕ
entry_lba b c = fat_sector_lba b (active_fat_idx b) (c * 4 / 512)

-- The entry that the table has for a cluster.
unfoldable pub entry : Volume → ℕ → ℕ
entry v c = le32 (v.sectors (entry_lba v.bpb c)) (c * 4 % 512) % 2 ^ 28

-- The state after a write.
unfoldable pub put : ℕ → ℕ → Volume → Volume
put c x v = put_entry (entry_lba v.bpb c) (c * 4 % 512) x v

pub position :
    (n : ℕ) (b : Bpb) (c : ℕ)
    → IsValid n b
    → in_volume b c ≡ true
    → fat_entry_position b c ≡ ok (c * 4 / 512, c * 4 % 512)
unfolding fat_entry_position
position n b c v h =
    let k = in_volume_bounds b c h in
    let small : c * 4 / 512 % 2 ^ 32 ≡ c * 4 / 512 = omega (arith, k, v.counts) in
    rw (h, v.sector, small) refl

position-outside :
    (b : Bpb) (c : ℕ) → in_volume b c ≡ false → fat_entry_position b c ≡ err invalid_input
unfolding fat_entry_position
position-outside b c h = rw h refl

module _ (n : ℕ) (v : Volume) (c : ℕ) (valid : IsValid n v.bpb) where
  pub read_ok :
      in_volume v.bpb c ≡ true
      → v.fails v.accesses ≡ false
      → read_fat_entry c v ≡ (ok (entry v c), tick v)
  unfolding read_fat_entry with_access entry
  read_ok h k = rw (position n v.bpb c valid h, k, read_fat_entry, with_access) refl

  pub read_fails :
      in_volume v.bpb c ≡ true
      → v.fails v.accesses ≡ true
      → read_fat_entry c v ≡ (err io_error, tick v)
  unfolding read_fat_entry with_access
  read_fails h k = rw (position n v.bpb c valid h, k, read_fat_entry, with_access) refl

  pub write_ok :
      (x : ℕ)
      → in_volume v.bpb c ≡ true
      → v.fails v.accesses ≡ false
      → write_fat_entry c x v ≡ (ok tt, put c x (tick v))
  unfolding write_fat_entry with_access put
  write_ok x h k = rw (position n v.bpb c valid h, k, write_fat_entry, with_access) refl

  pub write_fails :
      (x : ℕ)
      → in_volume v.bpb c ≡ true
      → v.fails v.accesses ≡ true
      → write_fat_entry c x v ≡ (err io_error, tick v)
  unfolding write_fat_entry with_access
  write_fails x h k = rw (position n v.bpb c valid h, k, write_fat_entry, with_access) refl

module _ (v : Volume) (c : ℕ) (h : in_volume v.bpb c ≡ false) where
  pub read_outside : read_fat_entry c v ≡ (err invalid_input, v)
  unfolding read_fat_entry
  read_outside = rw (position-outside v.bpb c h, read_fat_entry) refl

  pub write_outside : (x : ℕ) → write_fat_entry c x v ≡ (err invalid_input, v)
  unfolding write_fat_entry
  write_outside x = rw (position-outside v.bpb c h, write_fat_entry) refl

le32-put_same : (s : Sector) (o x : ℕ) → x < 2 ^ 28 → le32 (put_le32 o x s) o ≡ x
unfolding put_le32
le32-put_same s o x h = ground (arith, h)

le32-put_other :
    (s : Sector) (o p x : ℕ) → (o + 4 ≤ p) ⊎ (p + 4 ≤ o) → le32 (put_le32 o x s) p ≡ le32 s p
unfolding put_le32
le32-put_other s o p x h = ground (arith, h)

lba-inj : (b : Bpb) (c d : ℕ) → entry_lba b c ≡ entry_lba b d → c * 4 / 512 ≡ d * 4 / 512
unfolding fat_sector_lba
lba-inj b c d h = omega arith

entry-put_is :
    (v : Volume) (c d x : ℕ)
    → entry (put c x v) d
      ≡ le32
          (if entry_lba v.bpb d == entry_lba v.bpb c
            then put_le32 (c * 4 % 512) (x % 2 ^ 28) (v.sectors (entry_lba v.bpb d))
            else v.sectors (entry_lba v.bpb d))
          (d * 4 % 512)
        % 2 ^ 28
unfolding entry put put_entry
entry-put_is v c d x = refl

le32_if :
    (b : Bool) (s t : Sector) (o : ℕ)
    → le32 (if b then s else t) o ≡ (if b then le32 s o else le32 t o)
le32_if true s t o = refl
le32_if false s t o = refl

-- An entry of a cluster that is not the written one.
entry-put_other : (v : Volume) (c d x : ℕ) → d ≢ c → entry (put c x v) d ≡ entry v d
unfolding entry
entry-put_other v c d x ne =
    rw (entry-put_is v c d x, le32_if)
      (elim (Bool-cases (entry_lba v.bpb d == entry_lba v.bpb c)) [
        | inl l ↦
            let i = lba-inj v.bpb d c (ground arith) in
            let apart : (c * 4 % 512 + 4 ≤ d * 4 % 512) ⊎ (d * 4 % 512 + 4 ≤ c * 4 % 512) =
              ground (arith, i, ne) in
            rw
              (
                l,
                le32-put_other (v.sectors (entry_lba v.bpb d)) (c * 4 % 512) (d * 4 % 512)
                    (x % 2 ^ 28) apart,
              )
              refl
        | inr l ↦ rw l refl
      ])

entry-put_same : (v : Volume) (c x : ℕ) → entry (put c x v) c ≡ x % 2 ^ 28
entry-put_same v c x =
    let same : (entry_lba v.bpb c == entry_lba v.bpb c) ≡ true = ground arith in
    rw
      (
        entry-put_is v c c x,
        same,
        le32-put_same (v.sectors (entry_lba v.bpb c)) (c * 4 % 512) (x % 2 ^ 28) (omega arith),
      )
      (omega arith)

-- What is read back after a write: the value, cut to 28 bits, at its cluster, and at every other one
-- what was there.
pub entry-put :
    (v : Volume) (c d x : ℕ) → entry (put c x v) d ≡ (if d == c then x % 2 ^ 28 else entry v d)
entry-put v c d x = elim (Bool-cases (d == c)) [
  | inl e ↦ let eq : d ≡ c = ground arith in rw (e, eq) (entry-put_same v c x)
  | inr e ↦ rw e (entry-put_other v c d x (ground arith))
]

module _ {A B : Type 0} (m : Action A) (k : A → Action B) (v : Volume) where
  pub and_then_ok : (a : A) (w : Volume) → m v ≡ (ok a, w) → and_then m k v ≡ k a w
  and_then_ok a w e = ap (λ (r, u). elim r [ ok a ↦ k a u | err x ↦ (err x, u) ]) e

  pub and_then_err : (x : VfsError) (w : Volume) → m v ≡ (err x, w) → and_then m k v ≡ (err x, w)
  and_then_err x w e = ap (λ (r, u). elim r [ ok a ↦ k a u | err x ↦ (err x, u) ]) e

-- The device fails no access.
abbrev pub Works : Volume → Type 0
Works v = (k : ℕ) → v.fails k ≡ false

-- The same volume after other accesses.
abbrev pub later : ℕ → Volume → Volume
later a v = record v { accesses = a }

pub entry-later : (a : ℕ) (v : Volume) (c : ℕ) → entry (later a v) c ≡ entry v c
unfolding entry
entry-later a v c = refl

pub entry-tick : (v : Volume) (c : ℕ) → entry (tick v) c ≡ entry v c
unfolding entry
entry-tick v c = refl

module _ (n : ℕ) (v : Volume) (c : ℕ) (valid : IsValid n v.bpb) where
  -- A read gives the entry of a cluster of the volume, or an error that changes nothing.
  pub read_cases :
      ((in_volume v.bpb c ≡ true) × (read_fat_entry c v ≡ (ok (entry v c), tick v)))
      ⊎ ((e : VfsError) × (a : ℕ) × (read_fat_entry c v ≡ (err e, later a v)))
  read_cases = elim (Bool-cases (in_volume v.bpb c)) [
    | inl h ↦ elim (Bool-cases (v.fails v.accesses)) [
      | inl k ↦ inr (io_error, v.accesses + 1, read_fails n v c valid h k)
      | inr k ↦ inl (h, read_ok n v c valid h k)
    ]
    | inr h ↦ inr (invalid_input, v.accesses, read_outside v c h)
  ]

  pub write_cases :
      (x : ℕ)
      → ((in_volume v.bpb c ≡ true) × (write_fat_entry c x v ≡ (ok tt, put c x (tick v))))
        ⊎ ((e : VfsError) × (a : ℕ) × (write_fat_entry c x v ≡ (err e, later a v)))
  write_cases x = elim (Bool-cases (in_volume v.bpb c)) [
    | inl h ↦ elim (Bool-cases (v.fails v.accesses)) [
      | inl k ↦ inr (io_error, v.accesses + 1, write_fails n v c valid x h k)
      | inr k ↦ inl (h, write_ok n v c valid x h k)
    ]
    | inr h ↦ inr (invalid_input, v.accesses, write_outside v c h x)
  ]

-- The bit of a cluster; `false` where there is no bitmap.
abbrev pub bit_of : Option (ℕ → Bool) → ℕ → Bool
bit_of none i = false
bit_of (some bits) i = bits i

abbrev pub is_marked : Volume → ℕ → Bool
is_marked v c = bit_of v.alloc_bitmap (c - 2)

abbrev pub is_some : {A : Type 0} → Option A → Bool
is_some none = false
is_some (some a) = true

abbrev pub has_bitmap : Volume → Bool
has_bitmap v = is_some v.alloc_bitmap

-- The bitmap, where there is one, marks the clusters whose entries are not free.
abbrev pub Agrees : Volume → Type 0
Agrees v =
    has_bitmap v ≡ true → (c : ℕ) → in_volume v.bpb c ≡ true → is_marked v c ≡ not (entry v c == 0)

entry-put-tick :
    (v : Volume) (c d x : ℕ)
    → entry (put c x (tick v)) d ≡ (if d == c then x % 2 ^ 28 else entry v d)
entry-put-tick v c d x =
    entry-put (tick v) c d x ∙ ap (λ e. if d == c then x % 2 ^ 28 else e) (entry-tick v d)

put_keeps :
    (n c x : ℕ) (v : Volume)
    → IsValid n v.bpb
    → IsValid n (put c x v).bpb × ((put c x v).bpb ≡ v.bpb) × ((put c x v).fails ≡ v.fails)
unfolding put put_entry
put_keeps n c x v valid = (valid, refl, refl)

-- An entry that is read after a write of an entry, on a device that answers: the value written, cut to 28
-- bits, or what the table had for the cluster before if it is another one.
pub read_fat_entry-write_fat_entry :
    (n : ℕ) (v : Volume) (c d x : ℕ)
    → IsValid n v.bpb
    → Works v
    → in_volume v.bpb c ≡ true
    → in_volume v.bpb d ≡ true
    → (w u : Volume) × (write_fat_entry c x v ≡ (ok tt, w))
      × (read_fat_entry d w ≡ (ok (if d == c then x % 2 ^ 28 else entry v d), u))
read_fat_entry-write_fat_entry n v c d x valid works hc hd =
    let w = put c x (tick v) in
    let (valid', same, device) = put_keeps n c x (tick v) valid in
    let fine = subst (λ f. f w.accesses ≡ false) (sym device) (works w.accesses) in
    (
      w,
      tick w,
      write_ok n v c valid x hc (works v.accesses),
      read_ok n w d valid' (subst (λ b. in_volume b d ≡ true) (sym same) hd) fine
          ∙ ap (λ e. (ok e, tick w)) (entry-put-tick v c d x),
    )
