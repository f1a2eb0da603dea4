-- ===== src/Filesystems/Fat32/Chain/FreeLoop.antt =====
-- kernel/src/filesystems/fstypes/fat32/alloc.rs: the loop of `free_chain` on a chain.
use bedrock_stack.Base.{
  ℕ, zero, suc, ◌+◌, ◌≤◌, ◌<◌, ◌≡◌, refl, sym, ap, ◌∙◌, ◌⊎◌, inl, inr, true, false, List, [], ◌∷◌,
  ◌++◌, ltb, leb, length, mem, All, Result, Result-cases, ok, err, arith, subst,
}
use mathlib.Core.List.{append-nil}
use bedrock_stack.Unispace.{VfsError}
use bedrock_stack.Filesystems.Fat32.Geometry.{IsValid, in_volume_bounds}
use bedrock_stack.Filesystems.Fat32.Table.{Volume, eoc_marker}
use bedrock_stack.Filesystems.Fat32.Table.Entry.{entry, Works, later}
use bedrock_stack.Filesystems.Fat32.Chain.{free_one, free_loop, free_chain}
use bedrock_stack.Filesystems.Fat32.Chain.Spec.{
  IsChain, IsChain-ext, IsChain-IsDistinct, length-IsChain,
}
use bedrock_stack.Filesystems.Fat32.Chain.Free.{
  Freed, Freed-none, freed_one, free_one_ok, free_one_cases, entry-freed_one, Freed-cons,
  freed_one-bpb, freed_one-fails,
}

-- What the loop leaves of a chain: a first part of it is freed, and all of it where the loop succeeds.
pub record FreedSome (xs : List ℕ) (v : Volume) (out : Result VfsError (Unit {0}) × Volume)
    : Type 0 where
  pub done : List ℕ
  pub left : List ℕ
  pub split : xs ≡ done ++ left
  pub freed : Freed done v out.1
  pub complete : out.0 ≡ ok tt → left ≡ []
  pub works : Works v → out.0 ≡ ok tt

untouched :
    (v : Volume) (c : ℕ) (xs : List ℕ)
    → mem c xs ≡ false
    → All (λ y. entry v y ≡ entry (freed_one c v) y) xs
untouched v c [] h = tt
untouched v c (x ∷ xs) h =
    (ground (arith, entry-freed_one v c x, h), untouched v c xs (ground (arith, h)))

-- A chain keeps its rest when its first cluster is freed.
IsChain-freed_one :
    (v : Volume) (c x : ℕ) (xs : List ℕ)
    → IsChain (entry v) v.bpb c (x ∷ xs)
    → IsChain (entry (freed_one c v)) (freed_one c v).bpb (entry v c) xs
IsChain-freed_one v c x xs h =
    let fresh = (IsChain-IsDistinct (entry v) v.bpb c (x ∷ xs) h).0 in
    subst (λ b. IsChain (entry (freed_one c v)) b (entry v c) xs) (sym (freed_one-bpb c v))
      (IsChain-ext (entry v) (entry (freed_one c v)) v.bpb (entry v c) xs
        (untouched v c xs (subst (λ z. mem z xs ≡ false) h.0 fresh)) h.3)

loop_stops :
    (m c : ℕ) (v : Volume) (e : VfsError) (a : ℕ)
    → ltb c eoc_marker ≡ true
    → leb 2 c ≡ true
    → free_one c v ≡ (err e, later a v)
    → free_loop (suc m) c v ≡ (err e, later a v)
unfolding free_loop
loop_stops m c v e a h k q = ground (arith, h, k, q)

loop_goes_on :
    (m c : ℕ) (v : Volume)
    → ltb c eoc_marker ≡ true
    → leb 2 c ≡ true
    → free_one c v ≡ (ok (entry v c), freed_one c v)
    → free_loop (suc m) c v ≡ free_loop m (entry v c) (freed_one c v)
unfolding free_loop
loop_goes_on m c v h k q = ground (arith, h, k, q)

loop_ends :
    (m c : ℕ) (v : Volume) → eoc_marker ≤ c → free_loop (suc m) c v ≡ (ok tt, later v.accesses v)
unfolding free_loop
loop_ends m c v h = ground (arith, h)

FreedSome-none :
    (xs : List ℕ) (v : Volume) (a : ℕ) (e : VfsError)
    → (Works v → ⊥)
    → FreedSome xs v (err e, later a v)
FreedSome-none xs v a e fails = record {
  done = [];
  left = xs;
  split = refl;
  freed = Freed-none a v;
  complete = λ h. absurd (ground (arith, h));
  works = λ h. absurd (fails h);
}

free_loop-FreedSome :
    (n : ℕ) (v : Volume) (c m : ℕ) (xs : List ℕ)
    → IsValid n v.bpb
    → IsChain (entry v) v.bpb c xs
    → length xs < m
    → FreedSome xs v (free_loop m c v)
free_loop-FreedSome n v c zero xs valid h lt = absurd (omega arith)
free_loop-FreedSome n v c (suc m) [] valid h lt = rw (loop_ends m c v h) (record {
  done = [];
  left = [];
  split = refl;
  freed = Freed-none v.accesses v;
  complete = λ k. refl;
  works = λ k. refl;
})
free_loop-FreedSome n v c (suc m) (x ∷ xs) valid h lt =
    let small : ltb c eoc_marker ≡ true = ground (arith, h.2) in
    let big : leb 2 c ≡ true = ground (arith, in_volume_bounds v.bpb c h.1) in
    elim (free_one_cases n v c valid) [
      | inr (e, a, q) ↦ rw (loop_stops m c v e a small big q) (
          FreedSome-none (x ∷ xs) v a e (λ w.
            ground (arith, q, free_one_ok n v c valid h.1 (w v.accesses) (w (v.accesses + 1)))))
      | inl (k, q) ↦
          let valid' = subst (IsValid n) (sym (freed_one-bpb c v)) valid in
          let r =
            free_loop-FreedSome n (freed_one c v) (entry v c) m xs valid'
              (IsChain-freed_one v c x xs h) (omega arith) in
          rw (loop_goes_on m c v small big q) (record {
            done = x ∷ r.done;
            left = r.left;
            split = ap (λ ys. x ∷ ys) r.split;
            freed =
                subst (λ z. Freed (z ∷ r.done) v (free_loop m (entry v c) (freed_one c v)).1)
                  (sym h.0)
                  (Freed-cons v (free_loop m (entry v c) (freed_one c v)).1 c r.done h.1 r.freed);
            complete = r.complete;
            works = λ w. r.works (subst (λ f. (k : ℕ) → f k ≡ false) (sym (freed_one-fails c v)) w);
          })
    ]

-- `free_chain` on a chain, with a device that answers, succeeds and frees the clusters of the chain: in
-- the table and the bitmap, and it counts them; no other entry or bit changes.
pub free_chain-Freed :
    (n : ℕ) (v : Volume) (c : ℕ) (xs : List ℕ)
    → IsValid n v.bpb
    → Works v
    → IsChain (entry v) v.bpb c xs
    → (w : Volume) × (free_chain c v ≡ (ok tt, w)) × Freed xs v w
unfolding free_chain
free_chain-Freed n v c xs valid works h =
    let s =
      free_loop-FreedSome n v c (v.bpb.total_clus + 3) xs valid h
        (omega (arith, length-IsChain (entry v) v.bpb c xs h)) in
    let all : xs ≡ s.done =
      s.split ∙ (ap (λ l. s.done ++ l) (s.complete (s.works works)) ∙ append-nil s.done) in
    let out = free_loop (v.bpb.total_clus + 3) c v in
    (out.1, ap (λ r. (r, out.1)) (s.works works), subst (λ l. Freed l v out.1) (sym all) s.freed)

-- Whatever accesses fail, `free_chain` on a chain has freed a first part of it, in order, and nothing
-- else, and the part is the whole chain unless it returns an error.
pub free_chain_prefix :
    (n : ℕ) (v w : Volume) (c : ℕ) (xs : List ℕ) (r : Result VfsError (Unit {0}))
    → IsValid n v.bpb
    → IsChain (entry v) v.bpb c xs
    → free_chain c v ≡ (r, w)
    → (done left : List ℕ) × (xs ≡ done ++ left)
      × Freed done v w
      × ((left ≡ []) ⊎ ((e : VfsError) × (r ≡ err e)))
unfolding free_chain
free_chain_prefix n v w c xs r valid h q =
    let s = subst (FreedSome xs v) q (
      free_loop-FreedSome n v c (v.bpb.total_clus + 3) xs valid h
        (omega (arith, length-IsChain (entry v) v.bpb c xs h))) in
    (
      s.done,
      s.left,
      s.split,
      s.freed,
      elim (Result-cases r) [ inl (u, e) ↦ inl (s.complete e) | inr (x, e) ↦ inr (x, e) ],
    )
