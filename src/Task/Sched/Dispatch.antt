-- ===== src/Task/Sched/Dispatch.antt =====
-- kernel/src/task/mod.rs: `schedule` never fails an assertion, and keeps the lists in order.
use bedrock_stack.Base.{
  ℕ, ◌<◌, ◌≡◌, inl, inr, sym, ap, ◌∙◌, ◌⊎◌, true, false, none, some, [], ◌==◌, arith, Bool-cases,
  subst,
}
use bedrock_stack.Task.Sched.{Task, Sched, set, put, is_zzz, is_dead, max_cpus}
use bedrock_stack.Task.Sched.Handover.{leave_to, stay}
use bedrock_stack.Task.Sched.Lists.{count}
use bedrock_stack.Task.Sched.Invariant.{IsSched, IsCurrent, IsLeaving, parked}
use bedrock_stack.Task.Sched.Wake.{Keeps, park_zombie-Keeps}

pub split_at : (P : ℕ → Type 0) (p r : ℕ) → P p → ((r == p) ≡ false → P r) → P r
split_at P p r here there = elim (Bool-cases (r == p)) [
  | inl e ↦ let same : p ≡ r = ground (arith, e) in subst P same here
  | inr e ↦ there e
]

pub owners_differ :
    (tasks : ℕ → Task) (r p a b : ℕ)
    → (tasks r).owner_cpu ≡ a
    → (tasks p).owner_cpu ≡ b
    → (a == b) ≡ false
    → (r == p) ≡ false
owners_differ tasks r p a b x y n = elim (Bool-cases (r == p)) [
  | inl e ↦
      let same : p ≡ r = ground (arith, e) in
      let no : a ≡ b = sym x ∙ sym (ap (λ i. (tasks i).owner_cpu) same) ∙ y in ground (arith, n, no)
  | inr e ↦ e
]

pub set_same :
    {B : Type 0} (f : Task → B) (p : ℕ) (t : Task) (tasks : ℕ → Task) (r : ℕ)
    → ((r ≡ p) → f t ≡ f (tasks p))
    → f (set p t tasks r) ≡ f (tasks r)
set_same f p t tasks r h = elim (Bool-cases (r == p)) [
  | inl e ↦
      let same : p ≡ r = ground (arith, e) in
      let there : set p t tasks r ≡ t = ground (arith, e) in
      ap f there ∙ (subst (λ x. f t ≡ f (tasks x)) same (h (sym same)))
  | inr e ↦ let other : set p t tasks r ≡ tasks r = ground (arith, e) in ap f other
]

-- Another state of a task.
pub put-IsSched :
    (p : ℕ) (t : Task) (s : Sched)
    → IsSched [] s
    → t.owner_cpu ≡ (s.tasks p).owner_cpu
    → t.queue_cpu ≡ (s.tasks p).queue_cpu
    → ((c : ℕ) → s.current c ≡ some p → is_zzz t.state ≡ is_zzz (s.tasks p).state)
    → IsSched [] (put p t s)
put-IsSched p t s i o q z =
    let own : (r : ℕ) → (set p t s.tasks r).owner_cpu ≡ (s.tasks r).owner_cpu =
      λ r. set_same (λ x. x.owner_cpu) p t s.tasks r (λ e. o) in
    record {
      kept = λ r.
          let k = i.kept r in
          let a = set_same (λ x. x.queue_cpu) p t s.tasks r (λ e. q) in ground (arith, k, a);
      free = λ r h. ground (arith, h);
      currents = λ c r h.
          let k = i.currents c r h in
          let a =
            set_same (λ x. is_zzz x.state) p t s.tasks r
              (λ e. z c (subst (λ x. s.current c ≡ some x) e h)) in
          let b = own r in ground (arith, k, a, b);
      leavings = λ c r h. let k = i.leavings c r h in (k.0, own r ∙ k.1, k.2);
      unused = λ r h. let k = i.unused r h in (own r ∙ k.0, k.1);
      sorted = i.sorted;
    }

-- A task that its CPU has taken from CURRENT.
abbrev pub IsHeld : ℕ → Task → ℕ → ℕ → Type 0
IsHeld cpu t n m =
    (cpu < max_cpus)
    × (t.owner_cpu ≡ cpu)
    × (n ≡ 0)
    × (((is_zzz t.state ≡ true) × (m ≡ 1))
        ⊎ ((is_zzz t.state ≡ false) × ((is_dead t.state ≡ true) ⊎ (m ≡ 0))))

abbrev pub InHand : ℕ → ℕ → Sched → Type 0
InHand cpu p s = IsHeld cpu (s.tasks p) (count p s.queue) (parked p s)

pub leave_to-IsSched :
    (cpu p : ℕ) (s : Sched)
    → IsSched [] s
    → cpu < max_cpus
    → (s.tasks p).owner_cpu ≡ cpu
    → ((r : ℕ) → s.current cpu ≡ some r → (r == p) ≡ false)
    → IsSched [] (leave_to cpu p s)
leave_to-IsSched cpu p s i b o n = record {
  kept = i.kept;
  free = i.free;
  currents = i.currents;
  leavings = λ c r h. elim (Bool-cases (c == cpu)) [
    | inl e ↦
        let same : cpu ≡ c = ground (arith, e) in
        let it : p ≡ r = ground (arith, h, e) in
        subst (λ x. IsLeaving x r s) same (subst (λ x. IsLeaving cpu x s) it (b, o, n))
    | inr e ↦ i.leavings c r (ground (arith, h, e))
  ];
  unused = i.unused;
  sorted = i.sorted;
}

-- The task in hand goes on, on no list.
pub go_on-IsSched :
    (cpu p : ℕ) (s : Sched)
    → IsSched [] s
    → IsCurrent cpu (s.tasks p) (count p s.queue) (parked p s)
    → s.leaving cpu ≡ none
    → IsSched [] (record s { current = set cpu (some p) s.current })
go_on-IsSched cpu p s i k n = record {
  kept = i.kept;
  free = i.free;
  currents = λ c r h. elim (Bool-cases (c == cpu)) [
    | inl e ↦
        let same : cpu ≡ c = ground (arith, e) in
        let it : p ≡ r = ground (arith, h, e) in
        subst (λ x. IsCurrent x (s.tasks r) (count r s.queue) (parked r s)) same
          (subst (λ x. IsCurrent cpu (s.tasks x) (count x s.queue) (parked x s)) it k)
    | inr e ↦ i.currents c r (ground (arith, h, e))
  ];
  leavings = λ c r h.
      let l = i.leavings c r h in
      (
        l.0,
        l.1,
        λ x y. elim (Bool-cases (c == cpu)) [
          | inl e ↦
              let same : c ≡ cpu = ground (arith, e) in
              let no : none ≡ some r = sym (subst (λ x. s.leaving x ≡ none) (sym same) n) ∙ h in
              ground (arith, no)
          | inr e ↦ l.2 x (ground (arith, y, e))
        ],
      );
  unused = i.unused;
  sorted = i.sorted;
}

pub stay-Keeps :
    (cpu p : ℕ) (s : Sched)
    → IsSched [] s
    → InHand cpu p s
    → s.current cpu ≡ none
    → s.leaving cpu ≡ none
    → Keeps (stay cpu (some p) s)
unfolding stay
stay-Keeps cpu p s i k c l =
    let away =
      leave_to-IsSched cpu p s i k.0 k.1
        (λ r h. let no : none ≡ some r = sym c ∙ h in ground (arith, no)) in
    elim (Bool-cases (is_dead (s.tasks p).state)) [
      | inl d ↦
          let q = i.kept p in
          let (t, e, j) =
            park_zombie-Keeps cpu p (leave_to cpu p s) away (ground (arith, q, k.1, k.2)) in
          (t, ground (arith, d, e), j)
      | inr d ↦ elim (Bool-cases (is_zzz (s.tasks p).state)) [
        | inl z ↦ (leave_to cpu p s, ground (arith, d, z), away)
        | inr z ↦ (
          record s { current = set cpu (some p) s.current },
          ground (arith, d, z),
          go_on-IsSched cpu p s i (k.0, k.1, k.2, ground (arith, k.3, d, z)) l,
        )
      ]
    ]
