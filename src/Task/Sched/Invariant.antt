-- ===== src/Task/Sched/Invariant.antt =====
-- kernel/src/task/mod.rs: what holds of the scheduler's lists and owners, and that wake-ups keep it.
use bedrock_stack.Base.{
  ℕ, ◌+◌, ◌≤◌, ◌<◌, ◌≡◌, refl, ap, ◌∙◌, ◌⊎◌, true, false, some, List, [], ◌∷◌, ◌++◌, ◌==◌, arith,
}
use bedrock_stack.Task.Sched.{
  Task, ready, Parked, Sched, set, is_zzz, task_no_cpu, task_global_queue, max_cpus, mark_queued,
  requeue, and_then, requeue_all, unowned,
}
use bedrock_stack.Task.Sched.Sorted.{is_sorted}
use bedrock_stack.Task.Sched.Lists.{count, entries, count-append}

abbrev pub parked : ℕ → Sched → ℕ
parked p s = entries p s.sleeping + entries p s.waiters

-- A task with `n` entries on the queue, `m` on the other lists, and `d` wake-ups under way.
abbrev pub IsKept : Task → ℕ → ℕ → ℕ → Type 0
IsKept t n m d =
    ((t.queue_cpu ≡ task_no_cpu) × (n ≡ 0) × (m + d ≤ 1))
    ⊎ ((t.queue_cpu ≡ task_global_queue) × (n ≡ 1) × (m + d ≡ 0))

-- A current task is on no list, or parked on its way out.
abbrev pub IsCurrent : ℕ → Task → ℕ → ℕ → Type 0
IsCurrent c t n m =
    (c < max_cpus)
    × (t.owner_cpu ≡ c)
    × (n ≡ 0)
    × (((is_zzz t.state ≡ true) × (m ≡ 1)) ⊎ ((is_zzz t.state ≡ false) × (m ≡ 0)))

-- A CPU still owns the task it switches away from, and runs another one.
abbrev pub IsLeaving : ℕ → ℕ → Sched → Type 0
IsLeaving c p s =
    (c < max_cpus)
    × ((s.tasks p).owner_cpu ≡ c)
    × ((r : ℕ) → s.current c ≡ some r → (r == p) ≡ false)

-- `due` are the tasks that are off the lists and about to be queued.
pub record IsSched (due : List ℕ) (s : Sched) : Type 0 where
  pub kept : (p : ℕ) → IsKept (s.tasks p) (count p s.queue) (parked p s) (count p due)
  pub free : (p : ℕ) → 1 ≤ count p due → (s.tasks p).owner_cpu ≡ task_no_cpu
  pub currents :
      (c p : ℕ) → s.current c ≡ some p → IsCurrent c (s.tasks p) (count p s.queue) (parked p s)
  pub leavings : (c p : ℕ) → s.leaving c ≡ some p → IsLeaving c p s
  pub unused :
      (p : ℕ)
      → s.next_id < p
      → ((s.tasks p).owner_cpu ≡ task_no_cpu) × (count p s.queue + parked p s + count p due ≡ 0)
  pub sorted : is_sorted s.sleeping ≡ true

abbrev woken : ℕ → Sched → ℕ → Task
woken p s = set p (record (s.tasks p) { state = ready; wake_pending = false }) s.tasks

-- The state after a wake-up.
abbrev requeued : ℕ → Sched → Sched
requeued p s = record s {
  queue = s.queue ++ p ∷ [];
  tasks = set p (record (woken p s p) { queue_cpu = task_global_queue }) (woken p s);
}

requeue-some :
    (p : ℕ) (s : Sched)
    → (s.tasks p).owner_cpu ≡ task_no_cpu
    → (s.tasks p).queue_cpu ≡ task_no_cpu
    → requeue p s ≡ some (requeued p s)
unfolding requeue mark_queued
requeue-some p s o q = ground (arith, o, q)

requeued-IsSched :
    (p : ℕ) (due : List ℕ) (s : Sched) → IsSched (p ∷ due) s → IsSched due (requeued p s)
requeued-IsSched p due s i =
    let fp = i.free p (ground arith) in
    record {
      sorted = i.sorted;
      kept =
          λ q. let k = i.kept q in let c = count-append q s.queue (p ∷ []) in ground (arith, k, c);
      free = λ q h. let f = i.free q (ground (arith, h)) in ground (arith, f, fp);
      currents = λ c q h.
          let f = i.free q in
          let k = i.currents c q h in
          let a = count-append q s.queue (p ∷ []) in ground (arith, k, a, f);
      leavings = λ c q h.
          let k = i.leavings c q h in
          let f = i.free q in (k.0, ground (arith, k.0, k.1, fp, f), k.2);
      unused = λ q h.
          let k = i.unused q h in
          let a = count-append q s.queue (p ∷ []) in ground (arith, k, a, fp);
    }

-- A list of tasks that are due is queued without a failed assertion.
pub requeue_all-IsSched :
    (due : List ℕ) (s : Sched)
    → IsSched due s
    → (t : Sched) × (requeue_all due s ≡ some t) × IsSched [] t × (t.leaving ≡ s.leaving)
unfolding requeue_all
requeue_all-IsSched [] s i = (s, refl, i, refl)
requeue_all-IsSched (p ∷ due) s i =
    let k = i.kept p in
    let one = requeue-some p s (i.free p (ground arith)) (ground (arith, k)) in
    let (t, e, j, l) = requeue_all-IsSched due (requeued p s) (requeued-IsSched p due s i) in
    (t, ap (λ o. and_then o (requeue_all due)) one ∙ e, j, l)

-- Entries that pass a test go from two lists to the tasks that are due, where no CPU owns their tasks.
pub wake-IsSched :
    (due : List ℕ) (sleeping waiters : List Parked) (tasks : ℕ → Task) (s : Sched)
    → IsSched [] s
    → ((p : ℕ) → count p due + (entries p sleeping + entries p waiters) ≡ parked p s)
    → ((p : ℕ) → 1 ≤ count p due → unowned s p ≡ true)
    → ((p : ℕ)
        → ((tasks p).owner_cpu ≡ (s.tasks p).owner_cpu)
          × ((tasks p).queue_cpu ≡ (s.tasks p).queue_cpu)
          × ((tasks p).state ≡ (s.tasks p).state))
    → is_sorted sleeping ≡ true
    → IsSched due (record s { sleeping = sleeping; waiters = waiters; tasks = tasks })
wake-IsSched due sleeping waiters tasks s i n u t o = record {
  sorted = o;
  kept = λ p. let k = i.kept p in let a = n p in let b = t p in ground (arith, k, a, b);
  free = λ p h. let a = u p h in let b = t p in ground (arith, a, b);
  currents = λ c p h.
      let k = i.currents c p h in
      let a = n p in let b = t p in let f = u p in ground (arith, k, a, b, f);
  leavings = λ c p h. let k = i.leavings c p h in let b = t p in (k.0, b.0 ∙ k.1, k.2);
  unused = λ p h. let k = i.unused p h in let a = n p in let b = t p in ground (arith, k, a, b);
}
