-- ===== src/Task/Lineage.antt =====
-- kernel/src/task/mod.rs, "Durable lineage tracking": the pid-to-parent map, its walks and its
-- garbage collection.
pub mod Walk
pub mod Ancestors
pub mod Collect
mod Tests
use mathlib.Core.Option
use bedrock_stack.Base.{
  ℕ, zero, suc, ◌+◌, Bool, true, false, ◌||◌, Option, none, some, List, [], ◌∷◌, ◌++◌, any, filter,
  length, if◌then◌else◌, ◌==◌,
}

-- `HashMap<u64, u64>`: the first entry of a key counts.
abbrev pub Lineage : Type 0
Lineage = List (ℕ × ℕ)

pub get : ℕ → Lineage → Option ℕ
get pid [] = none
get pid ((k, v) ∷ m) = if k == pid then some v else get pid m

-- `lineage_insert`
pub insert : ℕ → ℕ → Lineage → Lineage
insert pid parent [] = (pid, parent) ∷ []
insert pid parent ((k, v) ∷ m) =
    if k == pid then (pid, parent) ∷ m else (k, v) ∷ insert pid parent m

-- `set.contains(x)`
unfoldable pub has : ℕ → List ℕ → Bool
has x s = any (λ y. y == x) s

-- The rounds of `while seen.insert(cur)`: every one but the last finds a new key of the map.
abbrev pub rounds : Lineage → ℕ
rounds m = length m + 2

-- The loop of `is_ancestor`; `none` means that the rounds ran out.
pub ancestor_loop : Lineage → ℕ → ℕ → List ℕ → ℕ → Option Bool
ancestor_loop m a zero seen cur = none
ancestor_loop m a (suc fuel) seen cur = elim (has cur seen) [
  | true ↦ some false
  | false ↦ elim (get cur m) [
    | none ↦ some false
    | some ppid ↦
        let rest = ancestor_loop m a fuel (cur ∷ seen) ppid in
        if ppid == a then some true else if ppid == 0 then some false else rest
  ]
]

abbrev pub answer : Option Bool → Bool
answer none = false
answer (some b) = b

pub is_ancestor : Lineage → ℕ → ℕ → Bool
unfolding ancestor_loop get has
is_ancestor m a d = if a == d then true else answer (ancestor_loop m a (rounds m) [] d)

-- The loop of `lineage_chain`: the parents in order, nearest first.
pub chain_loop : Lineage → ℕ → List ℕ → ℕ → Option (List ℕ)
chain_loop m zero seen pid = none
chain_loop m (suc fuel) seen pid = elim (has pid seen) [
  | true ↦ some []
  | false ↦ elim (get pid m) [
    | none ↦ some []
    | some ppid ↦
        let rest = chain_loop m fuel (pid ∷ seen) ppid in
        if ppid == 0 then some [] else Option.map (λ out. ppid ∷ out) rest
  ]
]

abbrev pub listing : Option (List ℕ) → List ℕ
listing none = []
listing (some l) = l

pub lineage_chain : Lineage → ℕ → List ℕ
unfolding chain_loop get has
lineage_chain m pid = listing (chain_loop m (rounds m) [] pid)

-- `lineage_gc`: what the walks from the live tasks need, for each of them in turn.
needed : Lineage → List ℕ → List ℕ
needed m [] = []
needed m (pid ∷ live) = lineage_chain m pid ++ needed m live

-- `live` lists the pids of all tasks that still exist.
pub lineage_gc : Lineage → List ℕ → Lineage
unfolding needed has
lineage_gc m live =
    let keep = needed m live in filter (λ (e : ℕ × ℕ). has e.0 live || has e.0 keep) m
