-- ===== src/Filesystems/Fat32/Alloc/Claim.antt =====
-- kernel/src/filesystems/fstypes/fat32/alloc.rs: what `alloc_clusters` promises when it succeeds.
use bedrock_stack.Base.{
  ℕ, ◌+◌, ◌-◌, ◌%◌, ◌^◌, ◌<◌, ◌≡◌, refl, sym, ap, ◌∙◌, ◌⊎◌, inl, inr, Bool, true, false, Option,
  none, some, List, [], ◌∷◌, Bool-cases, ltb, ◌==◌, length, mem, IsDistinct, All, Result, ok, err,
  arith, if◌then◌else◌, subst,
}
use bedrock_stack.Unispace.{VfsError, no_space}
use bedrock_stack.Filesystems.Fat32.{Bpb, in_volume}
use bedrock_stack.Filesystems.Fat32.Geometry.{IsValid}
use bedrock_stack.Filesystems.Fat32.Table.{Volume, eoc_marker}
use bedrock_stack.Filesystems.Fat32.Table.Entry.{entry, bit_of, is_some, is_marked, has_bitmap}
use bedrock_stack.Filesystems.Fat32.Alloc.{
  Bits, Written, rewrite_free, settle, scan_fat, alloc_from_fat,
}
use bedrock_stack.Filesystems.Fat32.Alloc.Write.{Wrote, rewrite_free-Wrote}
use bedrock_stack.Filesystems.Fat32.Alloc.Scan.{Scanned, scan_fat-Scanned}

-- Free clusters of the volume became chains of one cluster each, and nothing else differs but the hint.
pub record Claimed (cs : List ℕ) (v w : Volume) : Type 0 where
  pub same_bpb : w.bpb ≡ v.bpb
  pub same_kind : has_bitmap w ≡ has_bitmap v
  pub distinct : IsDistinct cs
  pub fresh : All (λ c. (in_volume v.bpb c ≡ true) × (entry v c ≡ 0)) cs
  pub entries : (d : ℕ) → entry w d ≡ (if mem d cs then eoc_marker else entry v d)
  pub bits :
      (d : ℕ)
      → in_volume v.bpb d ≡ true
      → is_marked w d ≡ (if mem d cs then has_bitmap v else is_marked v d)
  pub count : (w.free_clus_count + length cs) % 2 ^ 32 ≡ v.free_clus_count % 2 ^ 32

pub entry-settle :
    (out : List ℕ) (k : ℕ) (v : Volume) (d : ℕ) → entry (settle out k v) d ≡ entry v d
unfolding entry settle
entry-settle out k v d = refl

pub entry-bitmap :
    (o : Option Bits) (v : Volume) (d : ℕ) → entry (record v { alloc_bitmap = o }) d ≡ entry v d
unfolding entry
entry-bitmap o v d = refl

pub wrap_back : (a k : ℕ) → k < 2 ^ 32 → ((a + 2 ^ 32 - k) % 2 ^ 32 + k) % 2 ^ 32 ≡ a % 2 ^ 32
wrap_back a k h = omega arith

-- A failed allocation: no bit differs, and no entry that was in use.
pub record Untouched (v w : Volume) : Type 0 where
  pub same_bpb : w.bpb ≡ v.bpb
  pub same_kind : has_bitmap w ≡ has_bitmap v
  pub same_count : w.free_clus_count ≡ v.free_clus_count
  pub entries : (d : ℕ) → (entry v d ≡ 0) ⊎ (entry w d ≡ entry v d)
  pub bits : (d : ℕ) → in_volume v.bpb d ≡ true → is_marked w d ≡ is_marked v d

abbrev pub Outcome : ℕ → Volume → Result VfsError (List ℕ) × Volume → Type 0
Outcome count v r = elim r.0 [
  | ok cs ↦ Claimed cs v r.1 × (length cs ≡ count)
  | err e ↦ Untouched v r.1
]

pub fresh_entry :
    (b : Bpb) (f : ℕ → ℕ) (cs : List ℕ) (d : ℕ)
    → All (λ c. (in_volume b c ≡ true) × (f c ≡ 0)) cs
    → mem d cs ≡ true
    → f d ≡ 0
fresh_entry b f [] d h m = absurd (ground (arith, m))
fresh_entry b f (c ∷ cs) d h m = elim (Bool-cases (c == d)) [
  | inl e ↦ let eq : c ≡ d = ground (arith, e) in subst (λ z. f z ≡ 0) eq h.0.1
  | inr e ↦ fresh_entry b f cs d h.1 (ground (arith, m, e))
]

-- Entries that are made free again, some or all, were free before they were written.
pub undone :
    (b : Bpb) (v w x : Volume) (out xs : List ℕ) (d : ℕ)
    → All (λ c. (in_volume b c ≡ true) × (entry v c ≡ 0)) out
    → Wrote eoc_marker out v w
    → Wrote 0 xs w x
    → (mem d xs ≡ true → mem d out ≡ true)
    → (entry v d ≡ 0) ⊎ (entry x d ≡ entry v d)
undone b v w x out xs d fresh h k sub = elim (Bool-cases (mem d out)) [
  | inl m ↦ inl (fresh_entry b (entry v) out d fresh m)
  | inr m ↦ inr (ground (arith, h.entries d, k.entries d, sub, m))
]

bits_none :
    (o p : Option Bits) (b : Bool) (i : ℕ)
    → o ≡ p
    → p ≡ none
    → bit_of o i ≡ (if b then is_some p else bit_of p i)
bits_none o p true i e k = rw (e, k) refl
bits_none o p false i e k = rw (e, k) refl

module _ (count : ℕ) (v : Volume) where
  scan : Written
  scan = scan_fat v.next_alloc_hint count 0 v.bpb.total_clus v

  fat_ok :
      scan.0.0 ≡ none
      → ltb (length scan.0.1) count ≡ false
      → alloc_from_fat count v ≡ (ok scan.0.1, settle scan.0.1 count scan.1)
  unfolding alloc_from_fat scan
  fat_ok e h = ground (arith, e, h)

  fat_few :
      scan.0.0 ≡ none
      → ltb (length scan.0.1) count ≡ true
      → alloc_from_fat count v ≡ (err no_space, rewrite_free scan.0.1 scan.1)
  unfolding alloc_from_fat scan
  fat_few e h = ground (arith, e, h)

  fat_err :
      (x : VfsError)
      → scan.0.0 ≡ some x
      → alloc_from_fat count v ≡ (err x, rewrite_free scan.0.1 scan.1)
  unfolding alloc_from_fat scan
  fat_err x e = ground (arith, e)

module _ (n count : ℕ) (v : Volume) (valid : IsValid n v.bpb) (kind : v.alloc_bitmap ≡ none) where
  scanned : Scanned count v (scan count v)
  unfolding scan
  scanned = scan_fat-Scanned n v.next_alloc_hint count 0 v.bpb.total_clus v valid

  fat-Untouched : Untouched v (rewrite_free (scan count v).0.1 (scan count v).1)
  fat-Untouched =
      let s = scanned in
      let (xs, h, sub) =
        rewrite_free-Wrote n (scan count v).0.1 (scan count v).1
          (subst (IsValid n) (sym s.wrote.same_bpb) valid) in
      record {
        same_bpb = h.same_bpb ∙ s.wrote.same_bpb;
        same_kind = ap is_some (h.same_bitmap ∙ s.wrote.same_bitmap);
        same_count = h.same_count ∙ s.wrote.same_count;
        entries = λ d.
            undone v.bpb v (scan count v).1 _ (scan count v).0.1 xs d s.fresh s.wrote h (sub d);
        bits = λ d k. ap (λ o. bit_of o (d - 2)) (h.same_bitmap ∙ s.wrote.same_bitmap);
      }

  fat-Claimed :
      count < 2 ^ 32
      → length (scan count v).0.1 ≡ count
      → Claimed (scan count v).0.1 v (settle (scan count v).0.1 count (scan count v).1)
  unfolding settle
  fat-Claimed small len =
      let s = scanned in
      record {
        same_bpb = s.wrote.same_bpb;
        same_kind = ap is_some s.wrote.same_bitmap;
        distinct = s.distinct;
        fresh = s.fresh;
        entries = λ d. entry-settle (scan count v).0.1 count (scan count v).1 d ∙ s.wrote.entries d;
        bits = λ d k.
            bits_none _ v.alloc_bitmap (mem d (scan count v).0.1) (d - 2) s.wrote.same_bitmap kind;
        count = rw (len, s.wrote.same_count) (wrap_back v.free_clus_count count small);
      }

  pub fat-Outcome : count < 2 ^ 32 → Outcome count v (alloc_from_fat count v)
  fat-Outcome small =
      let s = scanned in
      elim s.whole [
        | inr (x, e) ↦ rw (fat_err count v x e) fat-Untouched
        | inl e ↦ elim (Bool-cases (ltb (length (scan count v).0.1) count)) [
          | inl few ↦ rw (fat_few count v e few) fat-Untouched
          | inr enough ↦
              let len : length (scan count v).0.1 ≡ count = ground (arith, enough, s.enough) in
              rw (fat_ok count v e enough) (fat-Claimed small len, len)
        ]
      ]
