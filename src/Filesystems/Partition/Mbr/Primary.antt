-- ===== src/Filesystems/Partition/Mbr/Primary.antt =====
-- What the four slots of a master boot record give (kernel/src/filesystems/partition/mbr.rs).
use bedrock_stack.Base.{
  ℕ, zero, suc, ◌+◌, ◌*◌, ◌≤◌, ◌<◌, ◌≡◌, refl, subst, ◌⊎◌, inl, inr, true, Option, none, some, List,
  [], ◌∷◌, ◌++◌, if◌then◌else◌, arith, Bool-cases, Result-cases, ok, All, All-append, Any, length,
  length-append,
}
use bedrock_stack.Filesystems.Partition.{PartitionInfo, Sector}
use bedrock_stack.Filesystems.Partition.Mbr.{
  MbrEntry, Table, entry_at, entry_info, is_ext, is_skipped, add_primary, add_primaries,
}

-- The partition is not empty and ends inside a device of `dev` sectors.
pub record IsInside (dev : ℕ) (p : PartitionInfo) : Type 0 where
  pub not_empty : 0 < p.size_sectors
  pub extent : p.start_lba + p.size_sectors ≡ p.end_lba + 1
  pub fits : p.end_lba < dev

-- The extended partition from `b` to `e`.
abbrev pub IsExtent : ℕ → ℕ → PartitionInfo → Type 0
IsExtent b e q = (q.is_extended ≡ true) × (q.start_lba ≡ b) × (q.start_lba + q.size_sectors ≡ e)

abbrev pub IsPrimary : PartitionInfo → Type 0
IsPrimary p = p.number < 5

-- The partition lies between `b` and `e`.
abbrev pub LiesIn : ℕ → ℕ → PartitionInfo → Type 0
LiesIn b e p = (b ≤ p.start_lba) × (p.start_lba + p.size_sectors ≤ e)

primary_info : ℕ → MbrEntry → PartitionInfo
primary_info i e =
    entry_info (i + 1) e.lba_start (e.lba_start + e.sector_count) e.sector_count e.partition_type
      (is_ext e.partition_type)

add_primary_lem :
    (dev : ℕ) (mbr : Sector) (i : ℕ) (t t' : Table)
    → add_primary dev mbr i t ≡ ok t'
    → (t' ≡ t)
      ⊎ ((e : MbrEntry) × (0 < e.sector_count)
          × (e.lba_start + e.sector_count ≤ dev)
          × (t'.partitions ≡ t.partitions ++ (primary_info i e ∷ []))
          × (t'.ext ≡ (
              if is_ext e.partition_type
              then some (e.lba_start, e.lba_start + e.sector_count)
              else t.ext)))
unfolding add_primary primary_info
add_primary_lem dev mbr i t t' h = elim (Bool-cases (is_skipped (entry_at mbr (446 + i * 16)))) [
  | inl s ↦ inl (ground (arith, h))
  | inr n ↦ inr (
    entry_at mbr (446 + i * 16),
    ground (arith, n),
    ground (arith, h, n),
    ground (arith, h, n),
    ground (arith, h, n),
  )
]

unfoldable pub HasExtent : Option (ℕ × ℕ) → List PartitionInfo → Type 0
HasExtent none ps = Unit
HasExtent (some (b, e)) ps = Any (IsExtent b e) ps

pub record IsTable (dev n : ℕ) (t : Table) : Type 0 where
  pub inside : All (IsInside dev) t.partitions
  pub primary : All IsPrimary t.partitions
  pub extent : HasExtent t.ext t.partitions
  pub bounded : length t.partitions ≤ n

pub Any-append_left :
    (P : PartitionInfo → Type 0) (xs ys : List PartitionInfo) → Any P xs → Any P (xs ++ ys)
Any-append_left P [] ys h = absurd h
Any-append_left P (x ∷ xs) ys (inl h) = inl h
Any-append_left P (x ∷ xs) ys (inr h) = inr (Any-append_left P xs ys h)

Any-append_last :
    (P : PartitionInfo → Type 0) (xs : List PartitionInfo) (y : PartitionInfo)
    → P y
    → Any P (xs ++ (y ∷ []))
Any-append_last P [] y h = inl h
Any-append_last P (x ∷ xs) y h = inr (Any-append_last P xs y h)

HasExtent-append :
    (o : Option (ℕ × ℕ)) (xs ys : List PartitionInfo) → HasExtent o xs → HasExtent o (xs ++ ys)
unfolding HasExtent
HasExtent-append none xs ys h = tt
HasExtent-append (some (b, e)) xs ys h = Any-append_left (IsExtent b e) xs ys h

primary-IsExtent :
    (i : ℕ) (e : MbrEntry)
    → is_ext e.partition_type ≡ true
    → IsExtent e.lba_start (e.lba_start + e.sector_count) (primary_info i e)
unfolding primary_info
primary-IsExtent i e x = (x, refl, refl)

HasExtent-primary :
    (i : ℕ) (e : MbrEntry) (o : Option (ℕ × ℕ)) (ps : List PartitionInfo)
    → HasExtent o ps
    → HasExtent
        (if is_ext e.partition_type then some (e.lba_start, e.lba_start + e.sector_count) else o)
        (ps ++ (primary_info i e ∷ []))
unfolding HasExtent
HasExtent-primary i e o ps h = elim (Bool-cases (is_ext e.partition_type)) [
  | inr n ↦ rw n (HasExtent-append o ps (primary_info i e ∷ []) h)
  | inl x ↦ rw x (
      Any-append_last (IsExtent e.lba_start (e.lba_start + e.sector_count)) ps (primary_info i e)
        (primary-IsExtent i e x))
]

add_primary-IsTable :
    (dev : ℕ) (mbr : Sector) (i n : ℕ) (t t' : Table)
    → i < 4
    → IsTable dev n t
    → add_primary dev mbr i t ≡ ok t'
    → IsTable dev (n + 1) t'
unfolding primary_info
add_primary-IsTable dev mbr i n t t' small v h = elim (add_primary_lem dev mbr i t t' h) [
  | inl e ↦ rw e (record {
    inside = v.inside;
    primary = v.primary;
    extent = v.extent;
    bounded = omega (arith, v.bounded);
  })
  | inr (e, pos, fits, ps, ex) ↦
      let p : PartitionInfo = primary_info i e in
      record {
        inside = rw ps (
            All-append (IsInside dev) t.partitions (p ∷ []) v.inside (
              record {
                not_empty = pos;
                extent = omega (arith, pos);
                fits = omega (arith, pos, fits);
              },
              tt,
            ));
        primary =
            rw ps (All-append IsPrimary t.partitions (p ∷ []) v.primary (omega (arith, small), tt));
        extent = rw (ps, ex) (HasExtent-primary i e t.ext t.partitions v.extent);
        bounded = rw ps (omega (arith, v.bounded, length-append t.partitions (p ∷ [])));
      }
]

pub add_primaries-IsTable :
    (dev : ℕ) (mbr : Sector) (i n m : ℕ) (t t' : Table)
    → i + n ≤ 4
    → IsTable dev m t
    → add_primaries dev mbr i n t ≡ ok t'
    → IsTable dev (m + n) t'
unfolding add_primaries
add_primaries-IsTable dev mbr i zero m t t' small v h =
    let same : t ≡ t' = ground (arith, h) in
    let none_added : m ≡ m + 0 = omega arith in
    subst (λ k. IsTable dev k t') none_added (subst (IsTable dev m) same v)
add_primaries-IsTable dev mbr i (suc n) m t t' small v h =
    elim (Result-cases (add_primary dev mbr i t)) [
      | inr (x, e) ↦ absurd (ground (arith, e, h))
      | inl (a, e) ↦
          let r =
            add_primaries-IsTable dev mbr (i + 1) n (m + 1) a t' (omega (arith, small))
              (add_primary-IsTable dev mbr i m t a (omega (arith, small)) v e)
              (ground (arith, e, h)) in
          let all_added : m + 1 + n ≡ m + suc n = omega arith in
          subst (λ k. IsTable dev k t') all_added r
    ]

unfoldable pub no_table : Table
no_table = record { partitions = []; ext = none }

pub no_table-IsTable : (dev : ℕ) → IsTable dev 0 no_table
unfolding no_table HasExtent
no_table-IsTable dev = record { inside = tt; primary = tt; extent = tt; bounded = omega arith }
