-- ===== src/Filesystems/Fat32/Alloc/Promise.antt =====
-- kernel/src/filesystems/fstypes/fat32/alloc.rs: what `alloc_clusters` promises, with and without a
-- bitmap, on success and on failure.
use bedrock_stack.Base.{
  ℕ, ◌+◌, ◌-◌, ◌^◌, ◌≤◌, ◌<◌, ◌≡◌, refl, sym, ap, ◌∙◌, inl, inr, true, false, not, none, some, List,
  [], ◌∷◌, Bool-cases, ◌==◌, length, is_empty, mem, All, ok, err, arith, if◌then◌else◌, subst,
}
use bedrock_stack.Unispace.{VfsError, no_space}
use bedrock_stack.Filesystems.Fat32.{in_volume}
use bedrock_stack.Filesystems.Fat32.Geometry.{IsValid, in_volume_bounds}
use bedrock_stack.Filesystems.Fat32.Table.{Volume, eoc_marker, map_bits, with_bits}
use bedrock_stack.Filesystems.Fat32.Table.Entry.{entry, bit_of, is_some, is_marked, has_bitmap}
use bedrock_stack.Filesystems.Fat32.Alloc.{
  Bits, write_eocs, rewrite_free, settle, commit, alloc_from_bitmap, choose, clear_all,
}
use bedrock_stack.Filesystems.Fat32.Alloc.Bitmap.{Took}
use bedrock_stack.Filesystems.Fat32.Alloc.Choose.{clear_all-Took, choose_cases}
use bedrock_stack.Filesystems.Fat32.Alloc.Write.{
  WroteSome, write_eocs-WroteSome, rewrite_free-Wrote,
}
use bedrock_stack.Filesystems.Fat32.Alloc.Claim.{
  Claimed, Untouched, Outcome, entry-settle, entry-bitmap, wrap_back, fresh_entry,
}

pub not_empty : (cs : List ℕ) → 1 ≤ length cs → is_empty cs ≡ false
not_empty [] h = absurd (omega arith)
not_empty (c ∷ cs) h = refl

module _ (count : ℕ) (v : Volume) (cs : List ℕ) where
  pub commit_ok :
      (write_eocs cs v).0.0 ≡ none
      → commit cs count v
        ≡ (ok (write_eocs cs v).0.1, settle (write_eocs cs v).0.1 count (write_eocs cs v).1)
  unfolding commit
  commit_ok e = ground (arith, e)

  commit_err :
      (x : VfsError)
      → (write_eocs cs v).0.0 ≡ some x
      → commit cs count v
        ≡ (err x, rewrite_free (write_eocs cs v).0.1 (with_bits (clear_all cs) (write_eocs cs v).1))
  unfolding commit
  commit_err x e = ground (arith, e)

module _ (n count : ℕ) (v : Volume) (bits : Bits) (valid : IsValid n v.bpb)
    (kind : v.alloc_bitmap ≡ some bits)
    (agree : (c : ℕ) → in_volume v.bpb c ≡ true → bits (c - 2) ≡ not (entry v c == 0)) where
  marked : (c : ℕ) → is_marked v c ≡ bits (c - 2)
  marked c = ap (λ o. bit_of o (c - 2)) kind

  pub fresh_entries :
      (cs : List ℕ)
      → All (λ c. (2 ≤ c) × (c < 2 + v.bpb.total_clus) × (bits (c - 2) ≡ false)) cs
      → All (λ c. (in_volume v.bpb c ≡ true) × (entry v c ≡ 0)) cs
  fresh_entries [] h = tt
  fresh_entries (c ∷ cs) h =
      let inside : in_volume v.bpb c ≡ true = ground (arith, h.0) in
      ((inside, ground (arith, agree c inside, h.0.2)), fresh_entries cs h.1)

  module _ (cs : List ℕ) (bits' : Bits) (t : Took v.bpb.total_clus cs bits bits') where
    reserved : Volume
    reserved = record v { alloc_bitmap = some bits' }

    written : WroteSome cs reserved (write_eocs cs reserved)
    unfolding reserved
    written = write_eocs-WroteSome n cs reserved valid

    has : has_bitmap v ≡ true
    has = ap is_some kind

    bitmap_after : (write_eocs cs reserved).1.alloc_bitmap ≡ some bits'
    unfolding reserved
    bitmap_after = written.wrote.same_bitmap

    taken_bit :
        (d : ℕ)
        → in_volume v.bpb d ≡ true
        → bits' (d - 2) ≡ (if mem d cs then has_bitmap v else is_marked v d)
    taken_bit d k =
        let two : 2 + (d - 2) ≡ d = omega (arith, in_volume_bounds v.bpb d k) in
        let e =
          subst (λ z. bits' (d - 2) ≡ (if mem z cs then true else bits (d - 2))) two
            (t.marks (d - 2)) in
        ground (arith, e, has, marked d)

    commit-Claimed :
        count < 2 ^ 32
        → length cs ≡ count
        → (write_eocs cs reserved).0.1 ≡ cs
        → Claimed cs v (settle cs count (write_eocs cs reserved).1)
    unfolding settle reserved
    commit-Claimed small len all =
        let w = (write_eocs cs reserved).1 in
        let h = written.wrote in
        record {
          same_bpb = h.same_bpb;
          same_kind = ap is_some bitmap_after ∙ sym has;
          distinct = t.distinct;
          fresh = fresh_entries cs t.fresh;
          entries = λ d.
              entry-settle cs count w d
              ∙ (subst (λ l. entry w d ≡ (if mem d l then eoc_marker else entry reserved d)) all
                    (h.entries d)
                  ∙ ap (λ e. if mem d cs then eoc_marker else e) (entry-bitmap (some bits') v d));
          bits = λ d k. ap (λ o. bit_of o (d - 2)) bitmap_after ∙ taken_bit d k;
          count = rw (len, h.same_count) (wrap_back v.free_clus_count count small);
        }

    commit-Untouched : Untouched v (
        rewrite_free
          (write_eocs cs reserved).0.1
          (with_bits (clear_all cs) (write_eocs cs reserved).1))
    unfolding reserved
    commit-Untouched =
        let w = (write_eocs cs reserved).1 in
        let out = (write_eocs cs reserved).0.1 in
        let h = written.wrote in
        let (xs, k, sub) =
          rewrite_free-Wrote n out (with_bits (clear_all cs) w)
            (subst (IsValid n) (sym h.same_bpb) valid) in
        let back = k.same_bitmap ∙ ap (map_bits (clear_all cs)) bitmap_after in
        record {
          same_bpb = k.same_bpb ∙ h.same_bpb;
          same_kind = ap is_some back ∙ sym has;
          same_count = k.same_count ∙ h.same_count;
          entries = λ d. elim (Bool-cases (mem d out)) [
            | inl m ↦
                inl
                  (fresh_entry v.bpb (entry v) cs d (fresh_entries cs t.fresh) (written.among d m))
            | inr m ↦ inr (
                ground (
                  arith,
                  k.entries d,
                  entry-bitmap (map_bits (clear_all cs) w.alloc_bitmap) w d,
                  h.entries d,
                  entry-bitmap (some bits') v d,
                  sub d,
                  m,
                ))
          ];
          bits = λ d q.
              ap (λ o. bit_of o (d - 2)) back
              ∙ (clear_all-Took v.bpb.total_clus cs bits bits' (d - 2) t ∙ sym (marked d));
        }

  module _ (small : count < 2 ^ 32) (one : 1 ≤ count) (pos : 1 ≤ v.bpb.total_clus) where
    commit-Outcome :
        (cs : List ℕ) (bits' : Bits)
        → Took v.bpb.total_clus cs bits bits'
        → length cs ≡ count
        → Outcome count v (commit cs count (record v { alloc_bitmap = some bits' }))
    unfolding reserved
    commit-Outcome cs bits' t len =
        let s = written cs bits' t in
        elim s.whole [
          | inl e ↦
              let all = s.all_of_them e in
              rw (commit_ok count (reserved cs bits' t) cs e, all)
                (commit-Claimed cs bits' t small len all, len)
          | inr (x, e) ↦
              rw (commit_err count (reserved cs bits' t) cs x e) (commit-Untouched cs bits' t)
        ]

    pub bitmap_full :
        (e : VfsError) (bits' : Bits)
        → choose v.bpb.total_clus count v.next_alloc_hint bits ≡ (err e, bits')
        → alloc_from_bitmap count bits v ≡ (err e, record v { alloc_bitmap = some bits' })
    unfolding alloc_from_bitmap
    bitmap_full e bits' h = ground (arith, h)

    pub bitmap_found :
        (cs : List ℕ) (bits' : Bits)
        → choose v.bpb.total_clus count v.next_alloc_hint bits ≡ (ok cs, bits')
        → is_empty cs ≡ false
        → alloc_from_bitmap count bits v ≡ commit cs count (record v { alloc_bitmap = some bits' })
    unfolding alloc_from_bitmap
    bitmap_found cs bits' h k = ground (arith, h, k)

    full-Untouched :
        (bits' : Bits)
        → ((i : ℕ) → bits' i ≡ bits i)
        → Untouched v (record v { alloc_bitmap = some bits' })
    full-Untouched bits' same = record {
      same_bpb = refl;
      same_kind = sym (ap is_some kind);
      same_count = refl;
      entries = λ d. inr (entry-bitmap (some bits') v d);
      bits = λ d h. same (d - 2) ∙ sym (marked d);
    }

    pub from_bitmap-Outcome : Outcome count v (alloc_from_bitmap count bits v)
    from_bitmap-Outcome = elim (choose_cases v.bpb.total_clus count v.next_alloc_hint bits pos) [
      | inl (cs, bits', e, t, len) ↦
          rw (bitmap_found cs bits' e (not_empty cs (omega (arith, len))))
            (commit-Outcome cs bits' t len)
      | inr (bits', e, same, full) ↦ rw (bitmap_full no_space bits' e) (full-Untouched bits' same)
    ]
