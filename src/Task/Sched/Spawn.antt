-- ===== src/Task/Sched/Spawn.antt =====
-- kernel/src/task/mod.rs: spawning and the end of a switch keep the lists in order.
use bedrock_stack.Base.{
  ℕ, ◌+◌, ◌-◌, ◌^◌, ◌<◌, ◌≡◌, inl, inr, refl, sym, ap, ◌∙◌, false, none, some, [], ◌∷◌, ◌++◌, ◌==◌,
  arith, Bool-cases, Option-cases, subst,
}
use bedrock_stack.Task.Sched.{
  Task, ready, Sched, set, task_no_cpu, task_global_queue, mark_queued, spawn,
}
use bedrock_stack.Task.Sched.Handover.{switched}
use bedrock_stack.Task.Sched.Lists.{count, count-append}
use bedrock_stack.Task.Sched.Invariant.{IsSched, IsKept, IsCurrent, parked}
use bedrock_stack.Task.Sched.Wake.{Keeps}
use bedrock_stack.Task.Sched.Dispatch.{set_same, split_at, owners_differ}

pub switched-IsSched : (cpu : ℕ) (s : Sched) → IsSched [] s → IsSched [] (switched cpu s)
unfolding switched
switched-IsSched cpu s i = elim (Option-cases (s.leaving cpu)) [
  | inl n ↦ let same : switched cpu s ≡ s = ground (arith, n) in subst (IsSched []) (sym same) i
  | inr (p, h) ↦
      let k = i.leavings cpu p h in
      let t : ℕ → Task = set p (record (s.tasks p) { owner_cpu = task_no_cpu }) s.tasks in
      let same : switched cpu s ≡ record s { tasks = t; leaving = set cpu none s.leaving } =
        ground (arith, h) in
      let que : (r : ℕ) → (t r).queue_cpu ≡ (s.tasks r).queue_cpu =
        λ r. set_same (λ x. x.queue_cpu) p _ s.tasks r (λ e. refl) in
      subst (IsSched []) (sym same) (record {
        kept = λ r. let a = i.kept r in let b = que r in ground (arith, a, b);
        free = λ r x. ground (arith, x);
        currents = λ c r x.
            let a = i.currents c r x in
            let other : (r == p) ≡ false = elim (Bool-cases (c == cpu)) [
              | inl e ↦
                  let at : c ≡ cpu = ground (arith, e) in
                  k.2 r (subst (λ y. s.current y ≡ some r) at x)
              | inr e ↦ owners_differ s.tasks r p c cpu a.1 k.1 e
            ] in
            let same : t r ≡ s.tasks r = ground (arith, other) in
            subst (λ y. IsCurrent c y (count r s.queue) (parked r s)) (sym same) a;
        leavings = λ c r x.
            let e : (c == cpu) ≡ false = ground (arith, x) in
            let a = i.leavings c r (ground (arith, x)) in
            let other = owners_differ s.tasks r p c cpu a.1 k.1 e in
            let same : t r ≡ s.tasks r = ground (arith, other) in
            (a.0, ap (λ y. y.owner_cpu) same ∙ a.1, a.2);
        sorted = i.sorted;
        unused = λ r x.
            let a = i.unused r x in
            (
              split_at (λ y. (s.tasks y).owner_cpu ≡ task_no_cpu → (t y).owner_cpu ≡ task_no_cpu) p
                  r (λ _. ground arith) (λ e o. ground (arith, e, o)) a.0,
              a.1,
            );
      })
]

-- The state of a spawned task that is new.
abbrev spawned : Task → Sched → Sched
spawned t s = record s {
  next_id = s.next_id + 1;
  queue = s.queue ++ (s.next_id + 1) ∷ [];
  tasks =
      set (s.next_id + 1)
        (record (set (s.next_id + 1) (record t { state = ready }) s.tasks (s.next_id + 1)) {
          queue_cpu = task_global_queue;
        })
        (set (s.next_id + 1) (record t { state = ready }) s.tasks);
}

pub spawn-Keeps :
    (t : Task) (s : Sched)
    → IsSched [] s
    → (t.owner_cpu ≡ task_no_cpu) × (t.queue_cpu ≡ task_no_cpu)
    → s.next_id < 2 ^ 64 - 2
    → Keeps (spawn t s)
unfolding spawn mark_queued
spawn-Keeps t s i o n =
    let p = s.next_id + 1 in
    let fresh = i.unused p (omega arith) in
    let tasks : ℕ → Task = (spawned t s).tasks in
    let other : (r : ℕ) → (r == p) ≡ false → tasks r ≡ s.tasks r = λ r e. ground (arith, e) in
    let here : ((tasks p).owner_cpu ≡ task_no_cpu) × ((tasks p).queue_cpu ≡ task_global_queue) =
      (ground (arith, o), ground arith) in
    let new : (r : ℕ) → (tasks r).owner_cpu ≡ (s.tasks r).owner_cpu = λ r.
      split_at (λ x. (tasks x).owner_cpu ≡ (s.tasks x).owner_cpu) p r (here.0 ∙ sym fresh.0)
        (λ e. ap (λ x. x.owner_cpu) (other r e)) in
    (
      spawned t s,
      ground (arith, o, n),
      record {
        kept = λ r.
            split_at (λ x. IsKept (tasks x) (count x (s.queue ++ p ∷ [])) (parked x s) 0) p r
              (let a = count-append p s.queue (p ∷ []) in ground (arith, a, here, fresh))
              (λ e.
                let k = i.kept r in
                let a = count-append r s.queue (p ∷ []) in
                let same = other r e in
                subst (λ x. IsKept x (count r (s.queue ++ p ∷ [])) (parked r s) 0) (sym same)
                  (ground (arith, k, a, e)));
        free = λ r x. ground (arith, x);
        currents = λ c r x.
            let k = i.currents c r x in
            let e = owners_differ s.tasks r p c task_no_cpu k.1 fresh.0 (ground (arith, k.0)) in
            let a = count-append r s.queue (p ∷ []) in
            subst (λ x. IsCurrent c x (count r (s.queue ++ p ∷ [])) (parked r s)) (sym (other r e))
              (k.0, k.1, ground (arith, k.2, a, e), k.3);
        leavings = λ c r x. let k = i.leavings c r x in (k.0, new r ∙ k.1, k.2);
        sorted = i.sorted;
        unused = λ r x.
            let k = i.unused r (omega (arith, x)) in
            let a = count-append r s.queue (p ∷ []) in (new r ∙ k.0, ground (arith, k, a, x));
      },
    )
