-- ===== src/Task/Lineage/Collect.antt =====
-- `lineage_gc` of kernel/src/task/mod.rs keeps what live tasks need.

use bedrock_stack.Base.{
  ℕ, zero, suc, ◌≡◌, inl, inr, refl, ap, ◌∙◌, sym, subst, Bool, true, false, ◌||◌, some, List, [],
  ◌∷◌, ◌++◌, All, filter, ◌==◌, arith, Bool-cases, Option-cases,
}
use bedrock_stack.Task.Lineage.{
  Lineage, get, has, chain_loop, listing, rounds, lineage_chain, needed, lineage_gc,
}
use bedrock_stack.Task.Lineage.Walk.{rounds_suffice}

-- The entries that stay are found as before.
get-filter :
    (p : ℕ → Bool) (pid : ℕ) (m : Lineage)
    → p pid ≡ true
    → get pid (filter (λ (e : ℕ × ℕ). p e.0) m) ≡ get pid m
unfolding get
get-filter p pid [] h = refl
get-filter p pid ((k, v) ∷ m) h = elim (Bool-cases (k == pid)) [
  | inl e ↦ let same : k ≡ pid = ground arith in rw (e, ap p same ∙ h) (rw e)
  | inr e ↦ ground (arith, get-filter p pid m h)
]

-- A walk that goes on continues as the walk from the parent.
chain_step :
    (m : Lineage) (fuel : ℕ) (seen : List ℕ) (pid x : ℕ) (l : List ℕ)
    → has pid seen ≡ false
    → get pid m ≡ some x
    → (x == 0) ≡ false
    → chain_loop m (suc fuel) seen pid ≡ some l
    → (r : List ℕ) × (chain_loop m fuel (pid ∷ seen) x ≡ some r) × (l ≡ x ∷ r)
unfolding chain_loop
chain_step m fuel seen pid x l new q nz e = elim (Option-cases (chain_loop m fuel (pid ∷ seen) x)) [
  | inl n ↦ absurd (ground arith)
  | inr (r, g) ↦ (r, g, ground arith)
]

-- Two walks that keep to the pids that stay are one.
chain-filter :
    (p : ℕ → Bool) (m : Lineage) (fuel fuel' : ℕ) (seen : List ℕ) (pid : ℕ) (l l' : List ℕ)
    → p pid ≡ true
    → chain_loop m fuel seen pid ≡ some l
    → chain_loop (filter (λ (e : ℕ × ℕ). p e.0) m) fuel' seen pid ≡ some l'
    → All (λ x. p x ≡ true) l
    → l' ≡ l
unfolding chain_loop
chain-filter p m zero fuel' seen pid l l' h e e' a = cc
chain-filter p m (suc fuel) zero seen pid l l' h e e' a = cc
chain-filter p m (suc fuel) (suc fuel') seen pid l l' h e e' a =
    let same = get-filter p pid m h in
    elim (Bool-cases (has pid seen)) [
      | inl old ↦ ground arith
      | inr new ↦ elim (Option-cases (get pid m)) [
        | inl q ↦ ground arith
        | inr (x, q) ↦ elim (Bool-cases (x == 0)) [
          | inl z ↦ ground arith
          | inr nz ↦
              let (r, g, s) = chain_step m fuel seen pid x l new q nz e in
              let (r', g', s') = chain_step _ fuel' seen pid x l' new (same ∙ q) nz e' in
              let (px, pr) = subst (All (λ y. p y ≡ true)) s a in
              s'
              ∙ ap (λ t. x ∷ t) (chain-filter p m fuel fuel' (pid ∷ seen) x r r' px g g' pr)
              ∙ sym s
        ]
      ]
    ]

has-append_left : (x : ℕ) (s t : List ℕ) → has x s ≡ true → has x (s ++ t) ≡ true
unfolding has
has-append_left x [] t h = cc
has-append_left x (y ∷ s) t h = ground (arith, has-append_left x s t)

has-append_right : (x : ℕ) (s t : List ℕ) → has x t ≡ true → has x (s ++ t) ≡ true
unfolding has
has-append_right x [] t h = h
has-append_right x (y ∷ s) t h = ground (arith, has-append_right x s t h)

has-needed :
    (m : Lineage) (d x : ℕ) (live : List ℕ)
    → has d live ≡ true
    → has x (lineage_chain m d) ≡ true
    → has x (needed m live) ≡ true
unfolding needed
has-needed m d x [] h k = unfold has in cc
has-needed m d x (y ∷ live) h k = elim (Bool-cases (y == d)) [
  | inl e ↦
      let same : d ≡ y = ground arith in
      has-append_left x (lineage_chain m y) _ (subst (λ t. has x (lineage_chain m t) ≡ true) same k)
  | inr e ↦
      has-append_right x (lineage_chain m y) _
        (has-needed m d x live (unfold has in ground arith) k)
]

All-has :
    (p : ℕ → Bool) (l s : List ℕ)
    → ((x : ℕ) → has x s ≡ true → p x ≡ true)
    → ((x : ℕ) → has x l ≡ true → has x s ≡ true)
    → All (λ x. p x ≡ true) l
All-has p [] s h k = tt
All-has p (x ∷ l) s h k = (
  h x (k x (unfold has in ground arith)),
  All-has p l s h (λ y hy. k y (unfold has in ground arith)),
)

-- After a collection every live task has the ancestors that it had before.
pub gc_keeps_chain :
    (m : Lineage) (live : List ℕ) (d : ℕ)
    → has d live ≡ true
    → lineage_chain (lineage_gc m live) d ≡ lineage_chain m d
unfolding lineage_gc lineage_chain
gc_keeps_chain m live d h =
    let keep = λ (x : ℕ). has x live || has x (needed m live) in
    let m' = filter (λ (e : ℕ × ℕ). keep e.0) m in
    let (l, e) = (rounds_suffice m 0 d).1 in
    let (l', e') = (rounds_suffice m' 0 d).1 in
    let c : l ≡ lineage_chain m d = sym (ap listing e) in
    let all : All (λ x. keep x ≡ true) l =
      All-has keep l (needed m live) (λ x k. ground arith)
        (λ x k. has-needed m d x live h (subst (λ t. has x t ≡ true) c k)) in
    ap listing e' ∙ chain-filter keep m (rounds m) (rounds m') [] d l l' (ground arith) e e' all ∙ c
