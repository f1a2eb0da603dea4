-- ===== src/Task/Sched/Kill.antt =====
-- kernel/src/task/mod.rs: killing keeps the lists in order.
use bedrock_stack.Base.{
  ◌⊎◌, not, ◌||◌, ℕ, zero, suc, ◌<◌, ◌≡◌, inl, inr, refl, sym, ap, ◌∙◌, Bool, true, false, Option,
  none, some, [], ◌==◌, mem, arith, Bool-cases, subst,
}
use bedrock_stack.Task.Sched.{
  unowned, park_zombie, Task, dead, Sched, set, put, is_zzz, task_no_cpu, max_cpus,
  killed_exit_code, clear_queued, remove_first, remove_entry, is_parked,
}
use bedrock_stack.Task.Sched.Switch.{names, on_cpu_below, take_from_lists, bury, kill}
use bedrock_stack.Task.Sched.Lists.{count, count-remove_first, entries-remove_entry, mem-count}
use bedrock_stack.Task.Sched.Invariant.{IsSched, IsKept, parked}
use bedrock_stack.Task.Sched.Sorted.{is_sorted-remove_entry}
use bedrock_stack.Task.Sched.Wake.{park_zombie-Keeps}
use bedrock_stack.Task.Sched.Dispatch.{put-IsSched, set_same, split_at}
use bedrock_stack.Task.Sched.Resume.{unpark-IsSched}

-- A queued task, taken off the queue.
unqueued-IsSched :
    (p : ℕ) (s : Sched)
    → IsSched [] s
    → mem p s.queue ≡ true
    → IsSched [] (
        put p
          (record (s.tasks p) { queue_cpu = task_no_cpu })
          (record s { queue = remove_first p s.queue }))
unqueued-IsSched p s i m =
    let t : ℕ → Task = set p (record (s.tasks p) { queue_cpu = task_no_cpu }) s.tasks in
    let own : (r : ℕ) → (t r).owner_cpu ≡ (s.tasks r).owner_cpu =
      λ r. set_same (λ x. x.owner_cpu) p _ s.tasks r (λ e. refl) in
    let state : (r : ℕ) → is_zzz (t r).state ≡ is_zzz (s.tasks r).state =
      λ r. set_same (λ x. is_zzz x.state) p _ s.tasks r (λ e. refl) in
    let n = (mem-count p s.queue).0 m in
    record {
      kept = λ r.
          split_at (λ x. IsKept (t x) (count x (remove_first p s.queue)) (parked x s) 0) p r
            (let k = i.kept p in
              let a = count-remove_first p p s.queue m in ground (arith, k, a, n))
            (λ e.
              let k = i.kept r in
              let a = count-remove_first p r s.queue m in ground (arith, k, a, e));
      free = λ r x. ground (arith, x);
      currents = λ c r x.
          let k = i.currents c r x in
          let a = count-remove_first p r s.queue m in
          let o = own r in let z = state r in ground (arith, k, a, o, z);
      leavings = λ c r x. let k = i.leavings c r x in (k.0, own r ∙ k.1, k.2);
      sorted = i.sorted;
      unused = λ r x.
          let k = i.unused r x in
          let a = count-remove_first p r s.queue m in (own r ∙ k.0, omega (arith, k, a));
    }

on_cpu_found :
    (n c p : ℕ) (current : ℕ → Option ℕ)
    → current c ≡ some p
    → c < n
    → on_cpu_below n p current ≡ true
on_cpu_found zero c p current h l = ground (arith, l)
on_cpu_found (suc n) c p current h l = elim (Bool-cases (c == n)) [
  | inl e ↦
      let same : c ≡ n = ground (arith, e) in
      let it : current n ≡ some p = subst (λ x. current x ≡ some p) same h in ground (arith, it)
  | inr e ↦ let rest = on_cpu_found n c p current h (ground (arith, l, e)) in ground (arith, rest)
]

pub some_injective : {A : Type 0} {a b : A} → some a ≡ some b → a ≡ b
some_injective e = ground (arith, e)

names-some : (p : ℕ) (o : Option ℕ) → names p o ≡ true → o ≡ some p
names-some p none h = ground (arith, h)
names-some p (some q) h = let same : q ≡ p = ground (arith, h) in ap some same

-- What a step with an answer gives.
abbrev pub Answers : Option (Sched × Bool) → Type 0
Answers o = (t : Sched) × (b : Bool) × (o ≡ some (t, b)) × IsSched [] t

not_current :
    (p : ℕ) (s : Sched)
    → IsSched [] s
    → on_cpu_below max_cpus p s.current ≡ false
    → (c r : ℕ) → s.current c ≡ some r
    → (r == p) ≡ false
not_current p s i o c r x = elim (Bool-cases (r == p)) [
  | inl e ↦
      let same : r ≡ p = ground (arith, e) in
      let no = on_cpu_found max_cpus c p s.current (x ∙ ap some same) (i.currents c r x).0 in
      ground (arith, o, no)
  | inr e ↦ e
]

-- Whether `park_zombie` may meet the task from this CPU.
abbrev pub may_bury : ℕ → ℕ → Sched → Bool
may_bury cpu p s = not s.debug || unowned s p || ((s.tasks p).owner_cpu == cpu)

-- A kill that leads to no failed assertion: in a release build all; in a debug build the task is on a CPU,
-- on none of the lists, or left by the CPU that last ran it, if this is not the CPU of the kill.
abbrev pub spares : ℕ → ℕ → Sched → Bool
spares cpu p s =
    may_bury cpu p s
    || on_cpu_below max_cpus p s.current
    || not (mem p s.queue || is_parked p s.sleeping || is_parked p s.waiters)

-- The step has an answer, or its test fails, and with it the step.
abbrev pub Decides : Bool → Option (Sched × Bool) → Type 0
Decides test o = Answers o ⊎ ((o ≡ none) × (test ≡ false))

bury-Decides :
    (cpu p : ℕ) (s : Sched)
    → IsSched [] s
    → ((c r : ℕ) → s.current c ≡ some r → (r == p) ≡ false)
    → (s.tasks p).queue_cpu ≡ task_no_cpu
    → Decides (may_bury cpu p s) (bury cpu p (s, true))
unfolding bury park_zombie
bury-Decides cpu p s i u q =
    let t : Task = record (s.tasks p) { state = dead; exit_code = killed_exit_code } in
    elim (Bool-cases (may_bury cpu p s)) [
      | inr n ↦ inr (ground (arith, n), n)
      | inl m ↦
          let (v, e, j) =
            park_zombie-Keeps cpu p (put p t s)
              (put-IsSched p t s i refl refl (λ c h. let no = u c p h in ground (arith, no)))
              (ground (arith, m, q)) in
          inl (v, true, ground (arith, e), j)
    ]

-- A task that is taken off a list and buried.
buried :
    (cpu p : ℕ) (s off : Sched) (o : Option (Sched × Bool))
    → o ≡ bury cpu p (off, true)
    → may_bury cpu p off ≡ may_bury cpu p s
    → (on_cpu_below max_cpus p s.current
        || not (mem p s.queue || is_parked p s.sleeping || is_parked p s.waiters))
      ≡ false
    → Decides (may_bury cpu p off) (bury cpu p (off, true))
    → Decides (spares cpu p s) o
buried cpu p s off o e m f d = elim d [
  | inl (v, b, x, j) ↦ inl (v, b, e ∙ x, j)
  | inr (x, n) ↦ inr (e ∙ x, ground (arith, m, f, n))
]

-- `kill` by a running task or from an idle loop.
pub kill-Decides :
    (cpu p : ℕ) (s : Sched)
    → IsSched [] s
    → ((q : ℕ) → s.current cpu ≡ some q → is_zzz (s.tasks q).state ≡ false)
    → Decides (spares cpu p s) (kill cpu p s)
unfolding kill take_from_lists clear_queued
kill-Decides cpu p s i z = elim (Bool-cases (names p (s.current cpu))) [
  | inl m ↦
      let t : Task = record (s.tasks p) { exit_code = killed_exit_code; state = dead } in
      let h : s.current cpu ≡ some p = names-some p (s.current cpu) m in
      inl (put p t s, true, ground (arith, m), put-IsSched p t s i refl refl (λ c x. sym (z p h)))
  | inr m ↦ elim (Bool-cases (on_cpu_below max_cpus p s.current)) [
    | inl o ↦
        let t : Task = record (s.tasks p) { exit_code = killed_exit_code; kill_pending = true } in
        inl (put p t s, true, ground (arith, m, o), put-IsSched p t s i refl refl (λ c x. refl))
    | inr o ↦
        let u = not_current p s i o in
        let k = i.kept p in
        elim (Bool-cases (mem p s.queue)) [
          | inl a ↦
              let n = (mem-count p s.queue).0 a in
              let off : Sched =
                put p (record (s.tasks p) { queue_cpu = task_no_cpu })
                  (record s { queue = remove_first p s.queue }) in
              buried cpu p s off (kill cpu p s) (ground (arith, m, o, a, k, n)) (ground arith)
                (ground (arith, o, a))
                (bury-Decides cpu p off (unqueued-IsSched p s i a) u (ground arith))
          | inr a ↦
              let n = mem-count p s.queue in
              let t : Task = record (s.tasks p) { wake_pending = false } in
              let out : (s.tasks p).queue_cpu ≡ task_no_cpu = ground (arith, a, k, n.1) in
              elim (Bool-cases (is_parked p s.sleeping)) [
                | inl d ↦
                    let off : Sched = record (put p t s) { sleeping = remove_entry p s.sleeping } in
                    buried cpu p s off (kill cpu p s) (ground (arith, m, o, a, d)) (ground arith)
                      (ground (arith, o, d))
                      (bury-Decides cpu p off
                        (unpark-IsSched p t s (remove_entry p s.sleeping) s.waiters i (refl, refl) u
                          (λ r. let n = entries-remove_entry p r s.sleeping d in omega (arith, n))
                          (is_sorted-remove_entry p s.sleeping i.sorted))
                        u (ground (arith, out)))
                | inr d ↦ elim (Bool-cases (is_parked p s.waiters)) [
                  | inl w ↦
                      let off : Sched = record (put p t s) { waiters = remove_entry p s.waiters } in
                      buried cpu p s off (kill cpu p s) (ground (arith, m, o, a, d, w))
                        (ground arith) (ground (arith, o, w))
                        (bury-Decides cpu p off
                          (unpark-IsSched p t s s.sleeping (remove_entry p s.waiters) i (refl, refl)
                            u
                            (λ r. let n = entries-remove_entry p r s.waiters w in omega (arith, n))
                            i.sorted)
                          u (ground (arith, out)))
                  | inr w ↦ inl (s, false, ground (arith, m, o, a, d, w), i)
                ]
              ]
        ]
  ]
]
