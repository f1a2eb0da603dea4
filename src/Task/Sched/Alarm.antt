-- ===== src/Task/Sched/Alarm.antt =====
-- kernel/src/task/mod.rs: `wake_sleepers` misses no task whose deadline has passed.
use mathlib.Core.List.{append_assoc, append-nil}
use bedrock_stack.Base.{
  ℕ, ◌≤◌, ◌<◌, ◌≡◌, inl, inr, refl, sym, ap, ◌∙◌, Bool, true, false, not, ◌&&◌, some, List, [], ◌∷◌,
  ◌++◌, ◌==◌, if◌then◌else◌, arith, Bool-cases, Option-cases, subst,
}
use bedrock_stack.Task.Sched.{
  Task, ready, Parked, Sched, set, task_no_cpu, picked, left, flag, up_to, beyond, unowned,
  mark_queued, requeue, requeue_all, wake_sleepers, task_global_queue,
}
use bedrock_stack.Task.Sched.Lists.{
  count, entries, count-append, entries-append, entries_split, entries_cut,
}
use bedrock_stack.Task.Sched.Sorted.{is_sorted, all_from}
use bedrock_stack.Task.Sched.Wake.{wake_sleepers-Wakes}
use bedrock_stack.Task.Sched.Kill.{some_injective}
use bedrock_stack.Task.Sched.Run.{Reach}
use bedrock_stack.Task.Sched.Safe.{Reach-IsSched}

-- What a list of wake-ups does to the state.
record Requeued (due : List ℕ) (s t : Sched) : Type 0 where
  queue : t.queue ≡ s.queue ++ due
  sleeping : t.sleeping ≡ s.sleeping
  rest : (p : ℕ) → count p due ≡ 0 → t.tasks p ≡ s.tasks p

requeue-Requeued : (p : ℕ) (s t : Sched) → requeue p s ≡ some t → Requeued (p ∷ []) s t
unfolding requeue mark_queued
requeue-Requeued p s t h =
    elim (Bool-cases
      (((s.tasks p).owner_cpu == task_no_cpu) && ((s.tasks p).queue_cpu == task_no_cpu))) [
        | inl q ↦
            let u : Sched = record s {
              queue = s.queue ++ p ∷ [];
              tasks =
                  set p
                    (record (s.tasks p) {
                      state = ready;
                      wake_pending = false;
                      queue_cpu = task_global_queue;
                    })
                    s.tasks;
            } in
            let one : requeue p s ≡ some u = ground (arith, q) in
            let same : u ≡ t = some_injective (sym one ∙ h) in
            subst (Requeued (p ∷ []) s) same
              (record { queue = refl; sleeping = refl; rest = λ r n. ground (arith, n) })
        | inr q ↦ ground (arith, h, q)
      ]

requeue_all-Requeued : (due : List ℕ) (s t : Sched) → requeue_all due s ≡ some t → Requeued due s t
unfolding requeue_all
requeue_all-Requeued [] s t h =
    subst (Requeued [] s) (some_injective h)
      (record { queue = sym (append-nil s.queue); sleeping = refl; rest = λ p n. refl })
requeue_all-Requeued (p ∷ due) s t h = elim (Option-cases (requeue p s)) [
  | inl n ↦ ground (arith, h, n)
  | inr (u, e) ↦
      let a = requeue-Requeued p s u e in
      let b = requeue_all-Requeued due u t (ground (arith, h, e)) in
      record {
        queue = b.queue ∙ ap (λ q. q ++ due) a.queue ∙ append_assoc s.queue (p ∷ []) due;
        sleeping = b.sleeping ∙ a.sleeping;
        rest = λ r n. b.rest r (ground (arith, n)) ∙ a.rest r (ground (arith, n));
      }
]

all_from_found :
    (d : ℕ) (e : Parked) (front back : List Parked)
    → all_from d (front ++ e ∷ back) ≡ true
    → d ≤ e.key
all_from_found d e [] back a = ground (arith, a)
all_from_found d e (x ∷ front) back a = all_from_found d e front back (ground (arith, a))

-- An entry that is due is among those that `wake_sleepers` looks at; another one is not.
due_found :
    (now : ℕ) (e : Parked) (front back : List Parked)
    → is_sorted (front ++ e ∷ back) ≡ true
    → e.key ≤ now
    → 1 ≤ entries e.task (up_to now (front ++ e ∷ back))
due_found now e [] back o h = ground (arith, h)
due_found now e (x ∷ front) back o h =
    let first = all_from_found x.key e front back (ground (arith, o)) in
    let rest = due_found now e front back (ground (arith, o)) h in ground (arith, first, rest, h)

late_found :
    (now : ℕ) (e : Parked) (front back : List Parked)
    → now < e.key
    → 1 ≤ entries e.task (beyond now (front ++ e ∷ back))
late_found now e [] back h = ground (arith, h)
late_found now e (x ∷ front) back h =
    let rest = late_found now e front back h in
    let both = entries-append e.task front (e ∷ back) in ground (arith, rest, both)

entry_found : (e : Parked) (front back : List Parked) → 1 ≤ entries e.task (front ++ e ∷ back)
entry_found e front back = let both = entries-append e.task front (e ∷ back) in ground (arith, both)

picked_if :
    (good : ℕ → Bool) (p : ℕ) (l : List Parked)
    → count p (picked (λ e. good e.task) l) ≡ (if good p then entries p l else 0)
picked_if good p [] = ground arith
picked_if good p (e ∷ l) =
    let rest = picked_if good p l in
    elim (Bool-cases (e.task == p)) [
      | inl q ↦
          let same : e.task ≡ p = ground (arith, q) in
          let it : good e.task ≡ good p = ap good same in ground (arith, rest, q, it)
      | inr q ↦ ground (arith, rest, q)
    ]

flagged :
    (test : ℕ → Bool) (p : ℕ) (l : List Parked) (tasks : ℕ → Task)
    → test p ≡ true
    → 1 ≤ entries p l
    → (flag (λ e. test e.task) l tasks p).wake_pending ≡ true
flagged test p [] tasks h n = ground (arith, n)
flagged test p (e ∷ l) tasks h n = elim (Bool-cases (p == e.task)) [
  | inl q ↦
      let same : p ≡ e.task = ground (arith, q) in
      let it : test e.task ≡ true = sym (ap test same) ∙ h in ground (arith, q, it)
  | inr q ↦ let rest = flagged test p l tasks h (ground (arith, n, q)) in ground (arith, rest, q)
]

-- The state before the wake-ups of `wake_sleepers`.
abbrev told : ℕ → Sched → Sched
told now s = record s {
  sleeping = left (λ e. unowned s e.task) (up_to now s.sleeping) ++ beyond now s.sleeping;
  tasks = flag (λ e. not (unowned s e.task)) (up_to now s.sleeping) s.tasks;
}

-- Whatever has happened, `wake_sleepers` succeeds, and meets every entry of SLEEPING: a task that is due
-- and that no CPU owns goes to the ready queue, the owner of one that is still owned is left a note to
-- do so and the task stays asleep, and so does a task whose deadline is to come.
pub no_missed_sleeper :
    (now : ℕ) (s : Sched) (e : Parked) (front back : List Parked)
    → Reach s
    → s.sleeping ≡ front ++ e ∷ back
    → (t : Sched) × (wake_sleepers now s ≡ some t)
      × (e.key ≤ now
          → unowned s e.task ≡ true
          → (count e.task t.queue ≡ 1) × (entries e.task t.sleeping ≡ 0))
      × (e.key ≤ now
          → unowned s e.task ≡ false
          → ((t.tasks e.task).wake_pending ≡ true) × (entries e.task t.sleeping ≡ 1))
      × (now < e.key
          → (count e.task t.queue ≡ count e.task s.queue) × (entries e.task t.sleeping ≡ 1))
unfolding wake_sleepers
no_missed_sleeper now s e front back r h =
    let i = Reach-IsSched r in
    let (t, w, j, _) = wake_sleepers-Wakes now s i in
    let test : Parked → Bool = λ x. unowned s x.task in
    let due = up_to now s.sleeping in
    let q = requeue_all-Requeued (picked test due) (told now s) t w in
    let p = e.task in
    let order : is_sorted (front ++ e ∷ back) ≡ true = ap is_sorted (sym h) ∙ i.sorted in
    let here : 1 ≤ entries p s.sleeping =
      subst (λ l. 1 ≤ entries p l) (sym h) (entry_found e front back) in
    let soon : e.key ≤ now → 1 ≤ entries p due =
      λ x. subst (λ l. 1 ≤ entries p (up_to now l)) (sym h) (due_found now e front back order x) in
    let late : now < e.key → 1 ≤ entries p (beyond now s.sleeping) =
      λ x. subst (λ l. 1 ≤ entries p (beyond now l)) (sym h) (late_found now e front back x) in
    let cut = entries_cut now p s.sleeping in
    let split = entries_split test p due in
    let some_due = picked_if (unowned s) p due in
    let line = ap (count p) q.queue ∙ count-append p s.queue (picked test due) in
    let bed =
      ap (entries p) q.sleeping ∙ entries-append p (left test due) (beyond now s.sleeping) in
    let before = i.kept p in
    (
      t,
      w,
      λ x y. let a = soon x in ground (arith, a, cut, split, some_due, line, bed, before, y),
      λ x y.
          let a = soon x in
          (
            ap (λ z. z.wake_pending) (q.rest p (ground (arith, some_due, y)))
                ∙ flagged (λ z. not (unowned s z)) p due s.tasks (ground (arith, y)) a,
            ground (arith, a, cut, split, some_due, bed, before, y),
          ),
      λ x. let a = late x in ground (arith, a, cut, split, some_due, line, bed, before),
    )
