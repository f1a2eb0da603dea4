-- ===== src/Task/Sched/Reap/Answer.antt =====
-- kernel/src/task/mod.rs: what `reap_dead` answers, and that none of its assertions fails.
use bedrock_stack.Base.{
  ℕ, zero, suc, ◌≤◌, ◌≡◌, inl, inr, refl, ap, ◌∙◌, subst, Bool, true, false, not, ◌&&◌, ◌||◌,
  Option, none, some, List, [], ◌∷◌, ◌++◌, if◌then◌else◌, ◌==◌, map, mem, filter, All, arith,
  Bool-cases, Option-cases,
}
use bedrock_stack.Task.Sched.{Sched, unowned, task_no_cpu, max_cpus}
use bedrock_stack.Task.Sched.Switch.{on_cpu_below}
use bedrock_stack.Task.Sched.Invariant.{IsSched}
use bedrock_stack.Task.Sched.Dispatch.{owners_differ}
use bedrock_stack.Task.Sched.Reap.{
  unqueued, reap_one, reap_all, is_orphan, indices, remove_place, take_places, orphan_places,
  free_places, drain_reclaim,
}

not_on_cpu :
    (s : Sched) (p n : ℕ)
    → IsSched [] s
    → unowned s p ≡ true
    → n ≤ max_cpus
    → on_cpu_below n p s.current ≡ false
not_on_cpu s p zero i u l = refl
not_on_cpu s p (suc n) i u l =
    let rest = not_on_cpu s p n i u (omega (arith, l)) in
    elim (Option-cases (s.current n)) [
      | inl e ↦ ground (arith, rest, e)
      | inr (q, e) ↦
          let other =
            owners_differ s.tasks q p n task_no_cpu (i.currents n q e).1 (ground (arith, u))
              (ground (arith, l)) in
          ground (arith, rest, e, other)
    ]

-- The tasks that no CPU owns and that are on no queue.
abbrev pub is_out : Sched → ℕ → Bool
is_out s p = unowned s p && unqueued s p

reap_all-true :
    (s : Sched) (l : List ℕ) → IsSched [] s → All (λ p. is_out s p ≡ true) l → reap_all s l ≡ true
unfolding reap_one
reap_all-true s [] i a = refl
reap_all-true s (p ∷ ps) i (h, a) =
    let rest = reap_all-true s ps i a in
    let off = not_on_cpu s p max_cpus i (ground (arith, h)) (omega arith) in
    ground (arith, h, rest, off)

pub mem-All :
    (good : ℕ → Bool) (p : ℕ) (l : List ℕ)
    → All (λ q. good q ≡ true) l
    → mem p l ≡ true
    → good p ≡ true
mem-All good p [] a h = ground (arith, h)
mem-All good p (q ∷ l) (g, a) h = elim (Bool-cases (q == p)) [
  | inl e ↦ let same : q ≡ p = ground (arith, e) in subst (λ x. good x ≡ true) same g
  | inr e ↦ mem-All good p l a (ground (arith, h, e))
]

pub mem-filter :
    (test : ℕ → Bool) (p : ℕ) (l : List ℕ) → mem p (filter test l) ≡ (mem p l && test p)
mem-filter test p [] = refl
mem-filter test p (q ∷ l) =
    let rest = mem-filter test p l in
    elim (Bool-cases (q == p)) [
      | inl e ↦
          let same : q ≡ p = ground (arith, e) in
          let it : test q ≡ test p = ap test same in ground (arith, rest, e, it)
      | inr e ↦ ground (arith, rest, e)
    ]

keep_all : ℕ → Option (List ℕ × List ℕ) → Option (List ℕ × List ℕ)
keep_all q none = none
keep_all q (some (free, l)) = some (free, q ∷ l)

take_places-suc :
    (q : ℕ) (places l : List ℕ)
    → take_places (map suc places) (q ∷ l) ≡ keep_all q (take_places places l)
unfolding take_places keep_all
take_places-suc q [] l = refl
take_places-suc q (i ∷ places) l =
    let rest = take_places-suc q places l in
    elim (Option-cases (take_places places l)) [
      | inl n ↦ ground (arith, rest, n)
      | inr ((free, m), e) ↦ elim (Option-cases (remove_place i m)) [
        | inl n ↦ ground (arith, rest, e, n)
        | inr ((p, k), f) ↦ ground (arith, rest, e, f)
      ]
    ]

-- The last task that passes the test first.
abbrev pub last_first : (ℕ → Bool) → List ℕ → List ℕ
last_first test [] = []
last_first test (p ∷ l) = if test p then last_first test l ++ p ∷ [] else last_first test l

-- Zombies that have come behind those of the places stay.
take_places-indices :
    (test : ℕ → Bool) (l more : List ℕ)
    → take_places (indices test l) (l ++ more)
      ≡ some (last_first test l, filter (λ p. not (test p)) l ++ more)
unfolding take_places keep_all
take_places-indices test [] more = refl
take_places-indices test (p ∷ l) more =
    let rest =
      take_places-suc p (indices test l) (l ++ more)
      ∙ ap (keep_all p) (take_places-indices test l more) in
    elim (Bool-cases (test p)) [ inl t ↦ ground (arith, rest, t) | inr t ↦ ground (arith, rest, t) ]

All-mem :
    (good : ℕ → Bool) (l : List ℕ)
    → ((p : ℕ) → mem p l ≡ true → good p ≡ true)
    → All (λ p. good p ≡ true) l
All-mem good [] h = tt
All-mem good (p ∷ l) h = (h p (ground arith), All-mem good l (λ q m. h q (ground (arith, m))))

mem-append : (p : ℕ) (l m : List ℕ) → mem p (l ++ m) ≡ (mem p l || mem p m)
mem-append p [] m = refl
mem-append p (q ∷ l) m = let rest = mem-append p l m in ground (arith, rest)

mem-last_first :
    (test : ℕ → Bool) (p : ℕ) (l : List ℕ) → mem p (last_first test l) ≡ mem p (filter test l)
mem-last_first test p [] = refl
mem-last_first test p (q ∷ l) =
    let rest = mem-last_first test p l in
    elim (Bool-cases (test q)) [
      | inl t ↦
          let both = mem-append p (last_first test l) (q ∷ []) in ground (arith, rest, t, both)
      | inr t ↦ ground (arith, rest, t)
    ]

-- The orphans of a state, as they are freed.
abbrev pub orphans : Sched → List ℕ
orphans s = last_first (is_orphan s) s.zombies

pub mem-orphans : (s : Sched) (p : ℕ) → mem p (orphans s) ≡ (mem p s.zombies && is_orphan s p)
mem-orphans s p = mem-last_first (is_orphan s) p s.zombies ∙ mem-filter (is_orphan s) p s.zombies

-- The zombies that are left where the list has grown by `more`.
abbrev pub rest : Sched → List ℕ → List ℕ
rest s more = filter (λ p. not (is_orphan s p)) s.zombies ++ more

pub mem-rest :
    (s : Sched) (more : List ℕ) (p : ℕ)
    → mem p (rest s more) ≡ ((mem p s.zombies && not (is_orphan s p)) || mem p more)
mem-rest s more p =
    let both = mem-append p (filter (λ q. not (is_orphan s q)) s.zombies) more in
    let a = mem-filter (λ q. not (is_orphan s q)) p s.zombies in ground (arith, both, a)

pub drain_reclaim-some :
    (cpu : ℕ) (s : Sched)
    → IsSched [] s
    → s.current cpu ≡ none
    → All (λ p. is_out s p ≡ true) s.reclaim
    → drain_reclaim cpu s ≡ some (s.reclaim, record s { reclaim = [] })
unfolding drain_reclaim
drain_reclaim-some cpu s i c a = let x = reap_all-true s s.reclaim i a in ground (arith, c, x)

pub free_places-some :
    (places free left : List ℕ) (s : Sched)
    → IsSched [] s
    → take_places places s.zombies ≡ some (free, left)
    → All (λ p. is_out s p ≡ true) free
    → free_places places s ≡ some (free, record s { zombies = left })
unfolding free_places
free_places-some places free left s i e a = let x = reap_all-true s free i a in ground (arith, e, x)

pub free_places-orphans :
    (s u : Sched) (more : List ℕ)
    → IsSched [] u
    → u.zombies ≡ s.zombies ++ more
    → ((p : ℕ) → mem p (orphans s) ≡ true → is_out u p ≡ true)
    → free_places (orphan_places s) u ≡ some (orphans s, record u { zombies = rest s more })
unfolding orphan_places
free_places-orphans s u more i z o =
    free_places-some (indices (is_orphan s) s.zombies) (orphans s) (rest s more) u i
      (ap (take_places (indices (is_orphan s) s.zombies)) z
        ∙ take_places-indices (is_orphan s) s.zombies more)
      (All-mem (is_out u) (orphans s) o)
