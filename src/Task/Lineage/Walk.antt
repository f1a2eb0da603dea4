-- ===== src/Task/Lineage/Walk.antt =====
-- The walks over the lineage map end: no walk runs out of rounds, with cycles in the map or without.

use bedrock_stack.Base.{
  ℕ, zero, suc, ◌+◌, ◌≤◌, ◌<◌, ◌≡◌, inl, inr, Bool, true, false, some, List, [], ◌∷◌, length,
  if◌then◌else◌, ◌==◌, arith, Bool-cases, Option-cases,
}
use bedrock_stack.Task.Lineage.{Lineage, get, has, ancestor_loop, chain_loop, rounds}

-- The entries whose key is not seen yet.
fresh : List ℕ → Lineage → ℕ
fresh seen [] = 0
fresh seen ((k, v) ∷ m) = (if has k seen then 0 else 1) + fresh seen m

fresh_mono : (cur : ℕ) (seen : List ℕ) (m : Lineage) → fresh (cur ∷ seen) m ≤ fresh seen m
unfolding fresh has
fresh_mono cur seen [] = omega arith
fresh_mono cur seen ((k, v) ∷ m) = ground (arith, fresh_mono cur seen m)

-- A key that is found and not seen is fresh no more once it is seen.
fresh_falls :
    (cur : ℕ) (seen : List ℕ) (m : Lineage) (p : ℕ)
    → has cur seen ≡ false
    → get cur m ≡ some p
    → fresh (cur ∷ seen) m < fresh seen m
unfolding fresh has get
fresh_falls cur seen [] p n e = cc
fresh_falls cur seen ((k, v) ∷ m) p n e =
    ground (arith, fresh_falls cur seen m p n, fresh_mono cur seen m)

fresh-le : (m : Lineage) → fresh [] m ≤ length m
unfolding fresh has
fresh-le [] = omega arith
fresh-le ((k, v) ∷ m) = ground (arith, fresh-le m)

ancestor_loop_total :
    (m : Lineage) (a fuel : ℕ) (seen : List ℕ) (cur : ℕ)
    → fresh seen m < fuel
    → (b : Bool) × (ancestor_loop m a fuel seen cur ≡ some b)
unfolding ancestor_loop
ancestor_loop_total m a zero seen cur h = absurd (omega arith)
ancestor_loop_total m a (suc fuel) seen cur h = elim (Bool-cases (has cur seen)) [
  | inl old ↦ (false, rw (old, ancestor_loop))
  | inr new ↦ elim (Option-cases (get cur m)) [
    | inl e ↦ (false, rw (new, e, ancestor_loop))
    | inr (p, e) ↦
        let below = fresh_falls cur seen m p new e in
        let r = ancestor_loop_total m a fuel (cur ∷ seen) p (omega arith) in
        (
          (if p == a then true else if p == 0 then false else r.0),
          rw (new, e, ancestor_loop) (ground (arith, r.1)),
        )
  ]
]

chain_loop_total :
    (m : Lineage) (fuel : ℕ) (seen : List ℕ) (pid : ℕ)
    → fresh seen m < fuel
    → (l : List ℕ) × (chain_loop m fuel seen pid ≡ some l)
unfolding chain_loop
chain_loop_total m zero seen pid h = absurd (omega arith)
chain_loop_total m (suc fuel) seen pid h = elim (Bool-cases (has pid seen)) [
  | inl old ↦ ([], rw (old, chain_loop))
  | inr new ↦ elim (Option-cases (get pid m)) [
    | inl e ↦ ([], rw (new, e, chain_loop))
    | inr (p, e) ↦
        let below = fresh_falls pid seen m p new e in
        let r = chain_loop_total m fuel (pid ∷ seen) p (omega arith) in
        ((if p == 0 then [] else p ∷ r.0), rw (new, e, chain_loop) (ground (arith, r.1)))
  ]
]

-- The rounds given to the walks suffice, whatever the map holds: `is_ancestor` and `lineage_chain`
-- always get an answer from their loops.
pub rounds_suffice :
    (m : Lineage) (a pid : ℕ)
    → ((b : Bool) × (ancestor_loop m a (rounds m) [] pid ≡ some b))
      × ((l : List ℕ) × (chain_loop m (rounds m) [] pid ≡ some l))
rounds_suffice m a pid =
    let enough = fresh-le m in
    (
      ancestor_loop_total m a (rounds m) [] pid (omega arith),
      chain_loop_total m (rounds m) [] pid (omega arith),
    )
