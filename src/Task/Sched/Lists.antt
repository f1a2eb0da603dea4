-- ===== src/Task/Sched/Lists.antt =====
-- kernel/src/task/mod.rs: how often a task stands on the scheduler's lists.
use bedrock_stack.Base.{
  ℕ, zero, suc, ◌+◌, ◌≤◌, ◌≡◌, ◌↔◌, inl, inr, refl, Bool, true, some, List, [], ◌∷◌, ◌++◌,
  if◌then◌else◌, ◌==◌, mem, arith, Bool-cases, subst,
}
use bedrock_stack.Task.Sched.{
  Task, Parked, picked, left, flag, up_to, beyond, remove_first, remove_entry, is_parked,
}
use bedrock_stack.Task.Sched.Switch.{insert_at}
use bedrock_stack.Task.Sched.Handover.{first}

abbrev pub one_if : Bool → ℕ
one_if b = if b then 1 else 0

abbrev pub count : ℕ → List ℕ → ℕ
count p [] = 0
count p (q ∷ l) = one_if (q == p) + count p l

abbrev pub entries : ℕ → List Parked → ℕ
entries p [] = 0
entries p (e ∷ l) = one_if (e.task == p) + entries p l

pub count-append : (p : ℕ) (l m : List ℕ) → count p (l ++ m) ≡ count p l + count p m
count-append p [] m = omega arith
count-append p (q ∷ l) m = let rest = count-append p l m in omega (arith, rest)

pub entries-append : (p : ℕ) (l m : List Parked) → entries p (l ++ m) ≡ entries p l + entries p m
entries-append p [] m = omega arith
entries-append p (e ∷ l) m = let rest = entries-append p l m in omega (arith, rest)

pub entries_split :
    (test : Parked → Bool) (p : ℕ) (l : List Parked)
    → count p (picked test l) + entries p (left test l) ≡ entries p l
entries_split test p [] = refl
entries_split test p (e ∷ l) = let rest = entries_split test p l in ground (arith, rest)

pub entries_cut :
    (now p : ℕ) (l : List Parked) → entries p (up_to now l) + entries p (beyond now l) ≡ entries p l
entries_cut now p [] = refl
entries_cut now p (e ∷ l) = let rest = entries_cut now p l in ground (arith, rest)

pub count-remove_first :
    (p q : ℕ) (l : List ℕ)
    → mem p l ≡ true
    → count q (remove_first p l) + one_if (p == q) ≡ count q l
count-remove_first p q [] h = ground (arith, h)
count-remove_first p q (x ∷ l) h = elim (Bool-cases (mem p l)) [
  | inl m ↦ let rest = count-remove_first p q l m in ground (arith, rest)
  | inr m ↦ ground (arith, h, m)
]

pub entries-remove_entry :
    (p q : ℕ) (l : List Parked)
    → is_parked p l ≡ true
    → entries q (remove_entry p l) + one_if (p == q) ≡ entries q l
entries-remove_entry p q [] h = ground (arith, h)
entries-remove_entry p q (x ∷ l) h = elim (Bool-cases (is_parked p l)) [
  | inl m ↦ let rest = entries-remove_entry p q l m in ground (arith, rest)
  | inr m ↦ ground (arith, h, m)
]

pub entries-insert_at :
    (i : ℕ) (e : Parked) (p : ℕ) (l : List Parked)
    → entries p (insert_at i e l) ≡ one_if (e.task == p) + entries p l
entries-insert_at zero e p l = refl
entries-insert_at (suc i) e p [] = refl
entries-insert_at (suc i) e p (d ∷ l) = let rest = entries-insert_at i e p l in omega (arith, rest)

pub first_sound :
    (test : ℕ → Bool) (p : ℕ) (l : List ℕ)
    → first test l ≡ some p
    → (test p ≡ true) × (mem p l ≡ true)
first_sound test p [] h = ground (arith, h)
first_sound test p (q ∷ l) h = elim (Bool-cases (test q)) [
  | inl t ↦
      let same : q ≡ p = ground (arith, h, t) in
      (subst (λ x. test x ≡ true) same t, ground (arith, same))
  | inr t ↦ let rest = first_sound test p l (ground (arith, h, t)) in (rest.0, ground (arith, rest))
]

pub mem-count : (p : ℕ) (l : List ℕ) → (mem p l ≡ true) ↔ (1 ≤ count p l)
mem-count p [] = (λ h. ground (arith, h), λ h. ground (arith, h))
mem-count p (q ∷ l) =
    let rest = mem-count p l in (λ h. ground (arith, rest, h), λ h. ground (arith, rest, h))

pub is_parked-entries : (p : ℕ) (l : List Parked) → (is_parked p l ≡ true) ↔ (1 ≤ entries p l)
is_parked-entries p [] = (λ h. ground (arith, h), λ h. ground (arith, h))
is_parked-entries p (q ∷ l) =
    let rest = is_parked-entries p l in (λ h. ground (arith, rest, h), λ h. ground (arith, rest, h))

pub picked_test :
    (test : Parked → Bool) (good : ℕ → Bool) (p : ℕ) (l : List Parked)
    → ((e : Parked) → test e ≡ true → good e.task ≡ true)
    → 1 ≤ count p (picked test l)
    → good p ≡ true
picked_test test good p [] f h = ground (arith, h)
picked_test test good p (e ∷ l) f h = elim (Bool-cases (test e)) [
  | inl t ↦ elim (Bool-cases (e.task == p)) [
    | inl s ↦ let same : e.task ≡ p = ground (arith, s) in subst (λ x. good x ≡ true) same (f e t)
    | inr s ↦ picked_test test good p l f (ground (arith, t, s, h))
  ]
  | inr t ↦ picked_test test good p l f (ground (arith, t, h))
]

-- A flagged wake-up changes nothing else of a task.
pub flag_keeps :
    (test : Parked → Bool) (l : List Parked) (tasks : ℕ → Task) (p : ℕ)
    → ((flag test l tasks p).owner_cpu ≡ (tasks p).owner_cpu)
      × ((flag test l tasks p).queue_cpu ≡ (tasks p).queue_cpu)
      × ((flag test l tasks p).state ≡ (tasks p).state)
flag_keeps test [] tasks p = (refl, refl, refl)
flag_keeps test (e ∷ l) tasks p = let rest = flag_keeps test l tasks p in ground (arith, rest)
