-- ===== src/Filesystems/Partition/Overlap.antt =====
-- The test for partitions that overlap (kernel/src/filesystems/partition/mod.rs).
use bedrock_stack.Base.{
  ◌+◌, ◌≤◌, ◌≡◌, refl, subst, ◌⊎◌, inl, inr, true, false, List, [], ◌∷◌, leb, arith, Bool-cases, ok,
  All,
}
use bedrock_stack.Filesystems.Partition.{
  PartitionInfo, insert_by_start, sort_by_start, check_windows, real_partitions, check_overlaps,
}

-- The sectors of `p` end before those of `q`.
abbrev pub EndsBefore : PartitionInfo → PartitionInfo → Type 0
EndsBefore p q = p.start_lba + p.size_sectors ≤ q.start_lba

abbrev pub IsDisjoint : PartitionInfo → PartitionInfo → Type 0
IsDisjoint p q = EndsBefore p q ⊎ EndsBefore q p

module _ (R : PartitionInfo → PartitionInfo → Type 0) where
  -- Every two elements, in their order.
  abbrev pub Pairwise : List PartitionInfo → Type 0
  Pairwise [] = Unit
  Pairwise (p ∷ ps) = All (R p) ps × Pairwise ps

All-insert :
    (P : PartitionInfo → Type 0) (p : PartitionInfo) (qs : List PartitionInfo)
    → All P (insert_by_start p qs)
    → P p × All P qs
unfolding insert_by_start
All-insert P p [] h = (h.0, tt)
All-insert P p (q ∷ qs) h = elim (Bool-cases (leb p.start_lba q.start_lba)) [
  | inl e ↦ subst (All P) (first e) h
  | inr e ↦
      let moved = subst (All P) (later e) h in
      let (a, b) = All-insert P p qs moved.1 in (a, (moved.0, b))
]
  where
    first : leb p.start_lba q.start_lba ≡ true → insert_by_start p (q ∷ qs) ≡ p ∷ q ∷ qs
    first e = rw e refl

    later :
        leb p.start_lba q.start_lba ≡ false → insert_by_start p (q ∷ qs) ≡ q ∷ insert_by_start p qs
    later e = rw e refl

All-sort :
    (P : PartitionInfo → Type 0) (ps : List PartitionInfo) → All P (sort_by_start ps) → All P ps
unfolding sort_by_start
All-sort P [] h = tt
All-sort P (p ∷ ps) h = let (a, b) = All-insert P p (sort_by_start ps) h in (a, All-sort P ps b)

IsDisjoint-sym : (p q : PartitionInfo) → IsDisjoint p q → IsDisjoint q p
IsDisjoint-sym p q (inl h) = inr h
IsDisjoint-sym p q (inr h) = inl h

-- Inserting an element keeps every pair that was there.
Pairwise-insert :
    (p : PartitionInfo) (qs : List PartitionInfo)
    → Pairwise IsDisjoint (insert_by_start p qs)
    → All (IsDisjoint p) qs × Pairwise IsDisjoint qs
unfolding insert_by_start
Pairwise-insert p [] h = (tt, tt)
Pairwise-insert p (q ∷ qs) h = elim (Bool-cases (leb p.start_lba q.start_lba)) [
  | inl e ↦ subst (Pairwise IsDisjoint) (first e) h
  | inr e ↦
      let moved = subst (Pairwise IsDisjoint) (later e) h in
      let (a, b) = Pairwise-insert p qs moved.1 in
      let (c, d) = All-insert (IsDisjoint q) p qs moved.0 in ((IsDisjoint-sym q p c, a), (d, b))
]
  where
    first : leb p.start_lba q.start_lba ≡ true → insert_by_start p (q ∷ qs) ≡ p ∷ q ∷ qs
    first e = rw e refl

    later :
        leb p.start_lba q.start_lba ≡ false → insert_by_start p (q ∷ qs) ≡ q ∷ insert_by_start p qs
    later e = rw e refl

Pairwise-sort :
    (ps : List PartitionInfo) → Pairwise IsDisjoint (sort_by_start ps) → Pairwise IsDisjoint ps
unfolding sort_by_start
Pairwise-sort [] h = tt
Pairwise-sort (p ∷ ps) h =
    let (a, b) = Pairwise-insert p (sort_by_start ps) h in
    (All-sort (IsDisjoint p) ps a, Pairwise-sort ps b)

check_windows-cons :
    (a b : PartitionInfo) (rest : List PartitionInfo)
    → check_windows (a ∷ b ∷ rest) ≡ ok tt
    → EndsBefore a b × (check_windows (b ∷ rest) ≡ ok tt)
unfolding check_windows
check_windows-cons a b rest h = (ground (arith, h), ground (arith, h))

-- A partition that ends before the first of the windows ends before them all.
before_all :
    (a b : PartitionInfo) (rest : List PartitionInfo)
    → EndsBefore a b
    → check_windows (b ∷ rest) ≡ ok tt
    → All (EndsBefore a) (b ∷ rest)
before_all a b [] h k = (h, tt)
before_all a b (c ∷ rest) h k =
    let (x, y) = check_windows-cons b c rest k in (h, before_all a c rest (omega (arith, h, x)) y)

All-IsDisjoint :
    (a : PartitionInfo) (ps : List PartitionInfo) → All (EndsBefore a) ps → All (IsDisjoint a) ps
All-IsDisjoint a [] h = tt
All-IsDisjoint a (p ∷ ps) h = (inl h.0, All-IsDisjoint a ps h.1)

check_windows-IsDisjoint :
    (ps : List PartitionInfo) → check_windows ps ≡ ok tt → Pairwise IsDisjoint ps
check_windows-IsDisjoint [] h = tt
check_windows-IsDisjoint (a ∷ []) h = (tt, tt)
check_windows-IsDisjoint (a ∷ b ∷ rest) h =
    let (x, y) = check_windows-cons a b rest h in
    (All-IsDisjoint a (b ∷ rest) (before_all a b rest x y), check_windows-IsDisjoint (b ∷ rest) y)

-- Where the test accepts a table, no two partitions that may be mounted share a sector.
pub check_overlaps-IsDisjoint :
    (parts : List PartitionInfo)
    → check_overlaps parts ≡ ok tt
    → Pairwise IsDisjoint (real_partitions parts)
unfolding check_overlaps
check_overlaps-IsDisjoint parts h =
    Pairwise-sort (real_partitions parts)
      (check_windows-IsDisjoint (sort_by_start (real_partitions parts)) h)
