-- ===== src/Task/Lineage/Ancestors.antt =====
-- `is_ancestor` of kernel/src/task/mod.rs decides the ancestor relation of the lineage map.
use bedrock_stack.Base.{
  ℕ, zero, suc, ◌≤◌, ◌<◌, ◌≡◌, ◌≢◌, ◌↔◌, ◌⊎◌, inl, inr, refl, subst, Bool, true, false, some, List,
  [], ◌∷◌, All, ◌==◌, arith, Bool-cases, Option-cases,
}
use bedrock_stack.Task.Lineage.{Lineage, get, has, ancestor_loop, rounds, is_ancestor}
use bedrock_stack.Task.Lineage.Walk.{rounds_suffice}

-- `a` is met going up from `d` by at least one step. Pid 0 is no task: the way ends there.
pub data Above (m : Lineage) (a : ℕ) : ℕ → Type 0 where
  parent : {d : ℕ} → get d m ≡ some a → Above m a d
  higher : {d : ℕ} (p : ℕ) → get d m ≡ some p → p ≢ 0 → Above m a p → Above m a d

-- The same, with the number of steps to the first meeting.
data First (m : Lineage) (a : ℕ) : ℕ → ℕ → Type 0 where
  now : {d n : ℕ} → get d m ≡ some a → n ≡ 0 → First m a d n
  later :
      {d n : ℕ} (p k : ℕ)
      → get d m ≡ some p
      → p ≢ a
      → p ≢ 0
      → First m a p k
      → n ≡ suc k
      → First m a d n

First-unique : (m : Lineage) (a : ℕ) {d n : ℕ} → First m a d n → (k : ℕ) → First m a d k → n ≡ k
First-unique m a (now e z) k (now e' z') = omega arith
First-unique m a (now e z) k (later p j e' ne nz f z') = absurd (ne (ground arith))
First-unique m a (later p j e ne nz f z) k (now e' z') = absurd (ne (ground arith))
First-unique m a (later p j e ne nz f z) k (later p' j' e' ne' nz' f' z') =
    let same : p' ≡ p = ground arith in
    let ih = First-unique m a f j' (rw same at f') in omega arith

First-of_Above : (m : Lineage) (a : ℕ) {d : ℕ} → Above m a d → (n : ℕ) × First m a d n
First-of_Above m a (parent e) = (0, now e refl)
First-of_Above m a (higher p e nz u) = elim (Bool-cases (p == a)) [
  | inl hit ↦ (0, now (ground arith) refl)
  | inr miss ↦ let (n, f) = First-of_Above m a u in (suc n, later p n e (ground arith) nz f refl)
]

loop_sound :
    (m : Lineage) (a fuel : ℕ) (seen : List ℕ) (cur : ℕ)
    → ancestor_loop m a fuel seen cur ≡ some true
    → Above m a cur
unfolding ancestor_loop
loop_sound m a zero seen cur h = cc
loop_sound m a (suc fuel) seen cur h = elim (Bool-cases (has cur seen)) [
  | inl old ↦ absurd (ground arith)
  | inr new ↦ elim (Option-cases (get cur m)) [
    | inl e ↦ absurd (ground arith)
    | inr (p, e) ↦ elim (Bool-cases (p == a)) [
      | inl hit ↦ parent (ground arith)
      | inr miss ↦ higher p e (ground arith) (loop_sound m a fuel (cur ∷ seen) p (ground arith))
    ]
  ]
]

-- Every pid seen so far is further from `a` than `n` steps.
abbrev Further : Lineage → ℕ → ℕ → List ℕ → Type 0
Further m a n = All (λ s. (k : ℕ) × First m a s k × (n < k))

Further-mono :
    (m : Lineage) (a n k : ℕ) (seen : List ℕ) → k ≤ n → Further m a n seen → Further m a k seen
Further-mono m a n k [] h f = tt
Further-mono m a n k (s ∷ seen) h f = ((f.0.0, f.0.1, omega arith), Further-mono m a n k seen h f.1)

not_seen :
    (m : Lineage) (a n cur : ℕ) (seen : List ℕ)
    → First m a cur n
    → Further m a n seen
    → has cur seen ≡ false
unfolding has
not_seen m a n cur [] f all = refl
not_seen m a n cur (s ∷ seen) f all = elim (Bool-cases (s == cur)) [
  | inl e ↦
      let same : s ≡ cur = ground arith in
      let far : First m a cur all.0.0 = subst (λ t. First m a t all.0.0) same all.0.1 in
      absurd (omega (arith, First-unique m a f all.0.0 far))
  | inr e ↦ ground (arith, not_seen m a n cur seen f all.1)
]

loop_complete :
    (m : Lineage) (a fuel : ℕ) (seen : List ℕ) (cur n : ℕ) (b : Bool)
    → First m a cur n
    → Further m a n seen
    → ancestor_loop m a fuel seen cur ≡ some b
    → b ≡ true
unfolding ancestor_loop
loop_complete m a zero seen cur n b f all h = cc
loop_complete m a (suc fuel) seen cur n b (now e z) all h =
    ground (arith, not_seen m a n cur seen (now e z) all)
loop_complete m a (suc fuel) seen cur n b (later p k e ne nz f z) all h =
    loop_complete m a fuel (cur ∷ seen) p k b f
      ((n, later p k e ne nz f z, omega arith), Further-mono m a n k seen (omega arith) all)
      (ground (arith, not_seen m a n cur seen (later p k e ne nz f z) all))

-- `is_ancestor(a, d)` is true exactly when the pids are one or the lineage map leads up from `d` to
-- `a`, also when the map has cycles.
pub is_ancestor_iff : (m : Lineage) (a d : ℕ) → (is_ancestor m a d ≡ true) ↔ ((a ≡ d) ⊎ Above m a d)
unfolding is_ancestor
is_ancestor_iff m a d = (sound, complete)
  where
    sound : is_ancestor m a d ≡ true → (a ≡ d) ⊎ Above m a d
    sound h = elim (Bool-cases (a == d)) [
      | inl e ↦ inl (ground arith)
      | inr e ↦
          let (b, r) = (rounds_suffice m a d).0 in
          inr (loop_sound m a (rounds m) [] d (ground arith))
    ]

    complete : (a ≡ d) ⊎ Above m a d → is_ancestor m a d ≡ true
    complete (inl e) = ground arith
    complete (inr u) =
        let (b, r) = (rounds_suffice m a d).0 in
        let (n, f) = First-of_Above m a u in
        let t : b ≡ true = loop_complete m a (rounds m) [] d n b f tt r in ground arith
