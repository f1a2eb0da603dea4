-- ===== src/Task/Sched/Started.antt =====
-- kernel/src/task/mod.rs: a task that is taken from the queue and starts on a CPU.
use bedrock_stack.Base.{
  ℕ, ◌<◌, ◌≡◌, inl, inr, sym, ◌∙◌, ◌⊎◌, true, false, none, some, [], ◌==◌, mem, arith, Bool-cases,
  subst,
}
use bedrock_stack.Task.Sched.{
  Task, running, Sched, set, put, is_zzz, task_no_cpu, task_global_queue, max_cpus, clear_queued,
  try_claim_owner, remove_first,
}
use bedrock_stack.Task.Sched.Handover.{take}
use bedrock_stack.Task.Sched.Lists.{count, count-remove_first, mem-count}
use bedrock_stack.Task.Sched.Invariant.{IsSched, IsCurrent, parked}

-- The state once `next` is dispatched.
abbrev cleared : ℕ → ℕ → ℕ → Sched → Sched
cleared cpu p credit s =
    put p (record (s.tasks p) { queue_cpu = task_no_cpu })
      (record s { queue = remove_first p s.queue; credit = set cpu credit s.credit })

abbrev claimed : ℕ → ℕ → ℕ → Sched → Sched
claimed cpu p credit s =
    let t = cleared cpu p credit s in put p (record (t.tasks p) { owner_cpu = cpu }) t

abbrev pub started : ℕ → ℕ → ℕ → Sched → Sched
started cpu p credit s =
    let t = claimed cpu p credit s in
    record (put p (record (t.tasks p) { state = running }) t) {
      current = set cpu (some p) t.current;
    }

pub take-some :
    (cpu p credit : ℕ) (s : Sched)
    → (s.tasks p).owner_cpu ≡ task_no_cpu
    → (s.tasks p).queue_cpu ≡ task_global_queue
    → take cpu p credit s ≡ some (started cpu p credit s)
unfolding take clear_queued try_claim_owner
take-some cpu p credit s o q = ground (arith, o, q)

-- The tasks once `p` runs on `cpu`, as far as the invariant sees them.
abbrev pub Ran : ℕ → ℕ → ℕ → Task → Task → Type 0
Ran cpu p r old new =
    ((r ≡ p)
      × (old.owner_cpu ≡ task_no_cpu)
      × (new.owner_cpu ≡ cpu)
      × (new.queue_cpu ≡ task_no_cpu)
      × (is_zzz new.state ≡ false))
    ⊎ (((r == p) ≡ false)
        × (new.owner_cpu ≡ old.owner_cpu)
        × (new.queue_cpu ≡ old.queue_cpu)
        × (is_zzz new.state ≡ is_zzz old.state))

pub started-task :
    (cpu p credit : ℕ) (s : Sched) (r : ℕ)
    → (s.tasks p).owner_cpu ≡ task_no_cpu
    → Ran cpu p r (s.tasks r) ((started cpu p credit s).tasks r)
started-task cpu p credit s r o = elim (Bool-cases (r == p)) [
  | inl e ↦
      let same : r ≡ p = ground (arith, e) in
      inl (
        same,
        subst (λ x. (s.tasks x).owner_cpu ≡ task_no_cpu) (sym same) o,
        ground (arith, e),
        ground (arith, e),
        ground (arith, e),
      )
  | inr e ↦ inr (e, ground (arith, e), ground (arith, e), ground (arith, e))
]

pub started-IsSched :
    (cpu p credit : ℕ) (s : Sched)
    → IsSched [] s
    → cpu < max_cpus
    → (s.tasks p).owner_cpu ≡ task_no_cpu
    → mem p s.queue ≡ true
    → s.current cpu ≡ none
    → s.leaving cpu ≡ none
    → IsSched [] (started cpu p credit s)
started-IsSched cpu p credit s i b o m n l =
    let kp = i.kept p in
    let m0 = (mem-count p s.queue).0 m in
    let task : (r : ℕ) → Ran cpu p r (s.tasks r) ((started cpu p credit s).tasks r) =
      λ r. started-task cpu p credit s r o in
    record {
      kept = λ r.
          let k = i.kept r in
          let a = count-remove_first p r s.queue m in
          let t = task r in ground (arith, k, a, t, kp, m0);
      free = λ r h. ground (arith, h);
      currents = λ c r h. elim (Bool-cases (c == cpu)) [
        | inl e ↦
            let same : cpu ≡ c = ground (arith, e) in
            let it : p ≡ r = ground (arith, h, e) in
            let t = task p in
            let a = count-remove_first p p s.queue m in
            let it_runs : IsCurrent cpu ((started cpu p credit s).tasks p)
                (count p (remove_first p s.queue)) (parked p s) =
              ground (arith, b, t, a, kp, m0) in
            subst
              (λ x.
                IsCurrent x ((started cpu p credit s).tasks r) (count r (remove_first p s.queue))
                  (parked r s))
              same
              (subst
                (λ x.
                  IsCurrent cpu ((started cpu p credit s).tasks x)
                    (count x (remove_first p s.queue)) (parked x s))
                it it_runs)
        | inr e ↦
            let k = i.currents c r (ground (arith, h, e)) in
            let a = count-remove_first p r s.queue m in let t = task r in ground (arith, k, a, t)
      ];
      leavings = λ c r h.
          let k = i.leavings c r h in
          let t = task r in
          (
            k.0,
            ground (arith, k.0, k.1, t),
            λ x y. elim (Bool-cases (c == cpu)) [
              | inl e ↦
                  let same : cpu ≡ c = ground (arith, e) in
                  let no : none ≡ some r = sym (subst (λ x. s.leaving x ≡ none) same l) ∙ h in
                  ground (arith, no)
              | inr e ↦ k.2 x (ground (arith, y, e))
            ],
          );
      sorted = i.sorted;
      unused = λ r h.
          let k = i.unused r h in
          let a = count-remove_first p r s.queue m in
          let t = task r in (ground (arith, k, a, t), ground (arith, k, a));
    }
