-- ===== src/Filesystems/Fat32/Alloc/Scan.antt =====
-- kernel/src/filesystems/fstypes/fat32/alloc.rs: the allocator of a volume without a bitmap.
use bedrock_stack.Base.{
  ℕ, zero, suc, ◌+◌, ◌-◌, ◌%◌, ◌^◌, ◌≤◌, ◌≡◌, refl, ◌∙◌, ◌⊎◌, inl, inr, true, false, Option, none,
  some, List, [], ◌∷◌, Bool-cases, Option-cases, ◌==◌, length, mem, IsDistinct, All, ok, err, arith,
  subst,
}
use bedrock_stack.Unispace.{VfsError}
use bedrock_stack.Filesystems.Fat32.{in_volume}
use bedrock_stack.Filesystems.Fat32.Geometry.{IsValid}
use bedrock_stack.Filesystems.Fat32.Table.{
  Volume, tick, eoc_marker, read_fat_entry, write_fat_entry,
}
use bedrock_stack.Filesystems.Fat32.Table.Entry.{
  entry, put, entry-put, entry-tick, later, read_cases, write_cases,
}
use bedrock_stack.Filesystems.Fat32.Alloc.{Written, push_written, scan_fat}
use bedrock_stack.Filesystems.Fat32.Alloc.Write.{
  Wrote, Wrote-none, Wrote-later, Wrote-cons, put-IsValid, put-bpb,
}

-- The clusters were free, and are written with the end marker.
pub record Scanned (want : ℕ) (v : Volume) (r : Written) : Type 0 where
  pub distinct : IsDistinct r.0.1
  pub fresh : All (λ c. (in_volume v.bpb c ≡ true) × (entry v c ≡ 0)) r.0.1
  pub wrote : Wrote eoc_marker r.0.1 v r.1
  pub enough : length r.0.1 ≤ want
  pub whole : (r.0.0 ≡ none) ⊎ ((e : VfsError) × (r.0.0 ≡ some e))

Scanned-none : (want a : ℕ) (v : Volume) (e : Option VfsError) → Scanned want v ((e, []), later a v)
Scanned-none want a v e = record {
  distinct = tt;
  fresh = tt;
  wrote = Wrote-none eoc_marker a v;
  enough = omega arith;
  whole = elim (Option-cases e) [ inl h ↦ inl h | inr (x, h) ↦ inr (x, h) ];
}

Scanned-tick : (want : ℕ) (v : Volume) (r : Written) → Scanned want (tick v) r → Scanned want v r
unfolding entry
Scanned-tick want v r s = record {
  distinct = s.distinct;
  fresh = s.fresh;
  wrote = Wrote-later eoc_marker (v.accesses + 1) r.0.1 v r.1 s.wrote;
  enough = s.enough;
  whole = s.whole;
}

-- What is free after a write of the end marker was free before, and is another cluster.
fresh_before :
    (c : ℕ) (cs : List ℕ) (v : Volume)
    → All
        (λ d. (in_volume (put c eoc_marker v).bpb d ≡ true) × (entry (put c eoc_marker v) d ≡ 0))
        cs
    → All (λ d. (in_volume v.bpb d ≡ true) × (entry v d ≡ 0)) cs × (mem c cs ≡ false)
fresh_before c [] v h = (tt, refl)
fresh_before c (d ∷ cs) v h =
    let (rest, m) = fresh_before c cs v h.1 in
    let e = entry-put v c d eoc_marker in
    let inside = subst (λ b. in_volume b d ≡ true) (put-bpb c eoc_marker v) h.0.0 in
    (((inside, ground (arith, e, h.0.1)), rest), ground (arith, e, h.0.1, m))

Scanned-cons :
    (want c : ℕ) (v : Volume) (r : Written)
    → in_volume v.bpb c ≡ true
    → entry v c ≡ 0
    → Scanned want (put c eoc_marker (tick v)) r
    → Scanned (suc want) v (push_written c r)
unfolding entry
Scanned-cons want c v r hin free s =
    let (rest, m) = fresh_before c r.0.1 (tick v) s.fresh in
    record {
      distinct = (m, s.distinct);
      fresh = ((hin, free), rest);
      wrote = Wrote-cons eoc_marker c r.0.1 v r.1 (omega arith) s.wrote;
      enough = omega (arith, s.enough);
      whole = s.whole;
    }

-- The cluster that a round looks at.
abbrev pub scan_cluster : ℕ → ℕ → Volume → ℕ
scan_cluster hint i v = 2 + (hint - 2 + i) % 2 ^ 32 % v.bpb.total_clus

module _ (hint want i n : ℕ) (v : Volume) where
  read_stops :
      (e : VfsError) (w : Volume)
      → read_fat_entry (scan_cluster hint i v) v ≡ (err e, w)
      → scan_fat hint (suc want) i (suc n) v ≡ ((some e, []), w)
  unfolding scan_fat
  read_stops e w h = ground (arith, h)

  in_use :
      (val : ℕ) (w : Volume)
      → read_fat_entry (scan_cluster hint i v) v ≡ (ok val, w)
      → (val == 0) ≡ false
      → scan_fat hint (suc want) i (suc n) v ≡ scan_fat hint (suc want) (i + 1) n w
  unfolding scan_fat
  in_use val w h k = ground (arith, h, k)

  write_stops :
      (val : ℕ) (w x : Volume) (e : VfsError)
      → read_fat_entry (scan_cluster hint i v) v ≡ (ok val, w)
      → (val == 0) ≡ true
      → write_fat_entry (scan_cluster hint i v) eoc_marker w ≡ (err e, x)
      → scan_fat hint (suc want) i (suc n) v ≡ ((some e, []), x)
  unfolding scan_fat
  write_stops val w x e h k l = ground (arith, h, k, l)

  taken :
      (val : ℕ) (w x : Volume)
      → read_fat_entry (scan_cluster hint i v) v ≡ (ok val, w)
      → (val == 0) ≡ true
      → write_fat_entry (scan_cluster hint i v) eoc_marker w ≡ (ok tt, x)
      → scan_fat hint (suc want) i (suc n) v
        ≡ push_written (scan_cluster hint i v) (scan_fat hint want (i + 1) n x)
  unfolding scan_fat
  taken val w x h k l = ground (arith, h, k, l)

pub scan_fat-Scanned :
    (m hint want i n : ℕ) (v : Volume) → IsValid m v.bpb → Scanned want v (scan_fat hint want i n v)
unfolding scan_fat
scan_fat-Scanned m hint want i zero v valid = Scanned-none want v.accesses v none
scan_fat-Scanned m hint zero i (suc n) v valid = Scanned-none zero v.accesses v none
scan_fat-Scanned m hint (suc want) i (suc n) v valid =
    let c = scan_cluster hint i v in
    elim (read_cases m v c valid) [
      | inr (e, a, q) ↦
          rw (read_stops hint want i n v e (later a v) q) (Scanned-none (suc want) a v (some e))
      | inl (hin, q) ↦ elim (Bool-cases (entry v c == 0)) [
        | inr used ↦ rw (in_use hint want i n v (entry v c) (tick v) q used) (
            Scanned-tick (suc want) v _
              (scan_fat-Scanned m hint (suc want) (i + 1) n (tick v) valid))
        | inl free ↦ elim (write_cases m (tick v) c valid eoc_marker) [
          | inr (e, a, r) ↦
              rw (write_stops hint want i n v (entry v c) (tick v) (later a v) e q free r)
                (Scanned-none (suc want) a v (some e))
          | inl (k, r) ↦
              rw
                (taken hint want i n v (entry v c) (tick v) (put c eoc_marker (tick (tick v))) q
                  free r)
                (Scanned-tick (suc want) v _ (
                  Scanned-cons want c (tick v) _ hin (entry-tick v c ∙ ground (arith, free)) (
                    scan_fat-Scanned m hint want (i + 1) n _
                      (put-IsValid m c eoc_marker (tick (tick v)) valid))))
        ]
      ]
    ]
