-- ===== src/Task/Sched/Fair.antt =====
-- kernel/src/task/mod.rs: the weighted choice between the classes.
use bedrock_stack.Base.{
  ℕ, ◌-◌, ◌≤◌, ◌<◌, ◌≡◌, inl, inr, refl, ◌⊎◌, Bool, true, false, not, ◌&&◌, Option, none, some,
  List, [], ◌∷◌, ltb, ◌==◌, arith, Bool-cases, length,
}
use bedrock_stack.Task.Sched.{weight_interactive}
use bedrock_stack.Task.Sched.Handover.{choose}

-- The choices of a CPU that finds, each time, a first Interactive task or none and the first Batch task
-- `j`, as long as it does not choose `j`.
unfoldable pub passes_over : ℕ → List (Option ℕ × ℕ) → Bool
unfolding choose
passes_over credit [] = true
passes_over credit ((i, j) ∷ rest) = elim (choose credit i (some j)) [
  | none ↦ false
  | some (p, left) ↦ not (p == j) && passes_over left rest
]

credit_bounds :
    (offers : List (Option ℕ × ℕ)) (credit : ℕ)
    → passes_over credit offers ≡ true
    → length offers ≤ credit
unfolding passes_over choose
credit_bounds [] credit h = omega arith
credit_bounds ((none, j) ∷ rest) credit h = ground (arith, h)
credit_bounds ((some i, j) ∷ rest) credit h = elim (Bool-cases (ltb 0 credit)) [
  | inl t ↦ let r = credit_bounds rest (credit - 1) (ground (arith, h, t)) in ground (arith, r, t)
  | inr t ↦ ground (arith, h, t)
]

choose-left :
    (credit : ℕ) (a b : Option ℕ) (p left : ℕ)
    → credit ≤ weight_interactive
    → choose credit a b ≡ some (p, left)
    → left ≤ weight_interactive
unfolding choose
choose-left credit none none p left n e = ground (arith, e)
choose-left credit none (some j) p left n e = ground (arith, e)
choose-left credit (some i) none p left n e = ground (arith, e, n)
choose-left credit (some i) (some j) p left n e = ground (arith, e, n)

choose_full : (left k : ℕ) (c : Option ℕ) → 0 < left → choose left (some k) c ≡ some (k, left - 1)
unfolding choose
choose_full left k none h = refl
choose_full left k (some j) h = ground (arith, h)

choose_next :
    (credit i left p : ℕ) (a b : Option ℕ)
    → choose credit a b ≡ some (p, left)
    → a ≡ some i
    → (p ≡ i) ⊎ ((c : Option ℕ) (k : ℕ) → choose left (some k) c ≡ some (k, left - 1))
unfolding choose
choose_next credit i left p none b e h = ground (arith, h)
choose_next credit i left p (some x) none e h = inl (ground (arith, e, h))
choose_next credit i left p (some x) (some j) e h = elim (Bool-cases (ltb 0 credit)) [
  | inl t ↦ inl (ground (arith, e, h, t))
  | inr t ↦
      let full : left ≡ 3 = ground (arith, e, t) in
      inr (λ c k. choose_full left k c (omega (arith, full)))
]

-- Weighted round robin: with the credit that every choice of a CPU leaves, the first Batch task that
-- can run is passed over at most three times in a row; and where an Interactive task can run, it is
-- chosen, or the next choice takes the first one that can run then.
pub weighted_rounds :
    (credit i left p : ℕ) (a b : Option ℕ) (offers : List (Option ℕ × ℕ))
    → credit ≤ weight_interactive
    → choose credit a b ≡ some (p, left)
    → passes_over left offers ≡ true
    → (left ≤ weight_interactive)
      × (length offers ≤ weight_interactive)
      × ((a ≡ some i)
          → (p ≡ i) ⊎ ((c : Option ℕ) (k : ℕ) → choose left (some k) c ≡ some (k, left - 1)))
unfolding choose
weighted_rounds credit i left p a b offers n e h =
    let r = credit_bounds offers left h in
    let l : left ≤ weight_interactive = choose-left credit a b p left n e in
    (l, omega (arith, r, l), choose_next credit i left p a b e)
