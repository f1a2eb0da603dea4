-- ===== src/Task/Sched/Wake.antt =====
-- kernel/src/task/mod.rs: the wake-ups never fail an assertion, and keep the lists in order.
use bedrock_stack.Base.{
  ℕ, ◌≡◌, refl, Bool, not, ◌&&◌, Option, some, true, [], ◌∷◌, ◌++◌, ◌==◌, arith,
}
use bedrock_stack.Task.Sched.{
  Parked, Sched, picked, left, flag, up_to, beyond, unowned, released, wake_sleepers,
  drain_released_wakes, wake_waiters_for, park_zombie, parks_well,
}
use bedrock_stack.Task.Sched.Lists.{
  count-append, entries-append, entries_split, entries_cut, picked_test, flag_keeps,
}
use bedrock_stack.Task.Sched.Sorted.{is_sorted-left, is_sorted-kept_of}
use bedrock_stack.Task.Sched.Invariant.{IsSched, requeue_all-IsSched, wake-IsSched}

-- The step succeeds, and its state is in order.
abbrev pub Keeps : Option Sched → Type 0
Keeps o = (t : Sched) × (o ≡ some t) × IsSched [] t

-- So does a wake-up, which leaves the switches under way alone.
abbrev pub Wakes : Sched → Option Sched → Type 0
Wakes s o = (t : Sched) × (o ≡ some t) × IsSched [] t × (t.leaving ≡ s.leaving)

pub wake_sleepers-Wakes : (now : ℕ) (s : Sched) → IsSched [] s → Wakes s (wake_sleepers now s)
unfolding wake_sleepers
wake_sleepers-Wakes now s i =
    let test : Parked → Bool = λ e. unowned s e.task in
    let l = up_to now s.sleeping in
    requeue_all-IsSched _ _ (
      wake-IsSched (picked test l) (left test l ++ beyond now s.sleeping) s.waiters
        (flag (λ e. not (unowned s e.task)) l s.tasks) s i
        (λ p.
          let a = entries-append p (left test l) (beyond now s.sleeping) in
          let b = entries_split test p l in
          let c = entries_cut now p s.sleeping in omega (arith, a, b, c))
        (λ p. picked_test test (unowned s) p l (λ e h. h)) (flag_keeps _ l s.tasks)
        (is_sorted-kept_of now test s.sleeping i.sorted))

pub drain_released_wakes-Wakes : (s : Sched) → IsSched [] s → Wakes s (drain_released_wakes s)
unfolding drain_released_wakes
drain_released_wakes-Wakes s i = requeue_all-IsSched _ _ (
    wake-IsSched (picked (released s) s.sleeping ++ picked (released s) s.waiters)
      (left (released s) s.sleeping) (left (released s) s.waiters) s.tasks s i
      (λ p.
        let a = count-append p (picked (released s) s.sleeping) (picked (released s) s.waiters) in
        let b = entries_split (released s) p s.sleeping in
        let c = entries_split (released s) p s.waiters in omega (arith, a, b, c))
      (λ p h.
        let a = count-append p (picked (released s) s.sleeping) (picked (released s) s.waiters) in
        let b = picked_test (released s) (unowned s) p s.sleeping (λ e t. ground (arith, t)) in
        let c = picked_test (released s) (unowned s) p s.waiters (λ e t. ground (arith, t)) in
        ground (arith, a, b, c, h))
      (λ p. (refl, refl, refl)) (is_sorted-left (released s) s.sleeping i.sorted))

pub wake_waiters_for-Wakes : (pid : ℕ) (s : Sched) → IsSched [] s → Wakes s (wake_waiters_for pid s)
unfolding wake_waiters_for
wake_waiters_for-Wakes pid s i =
    let test : Parked → Bool = λ e. (e.key == pid) && unowned s e.task in
    requeue_all-IsSched _ _ (
      wake-IsSched (picked test s.waiters) s.sleeping (left test s.waiters)
        (flag (λ e. (e.key == pid) && not (unowned s e.task)) s.waiters s.tasks) s i
        (λ p. let b = entries_split test p s.waiters in omega (arith, b))
        (λ p. picked_test test (unowned s) p s.waiters (λ e t. ground (arith, t)))
        (flag_keeps _ s.waiters s.tasks) i.sorted)

pub park_zombie-Keeps :
    (cpu p : ℕ) (s : Sched) → IsSched [] s → parks_well cpu p s ≡ true → Keeps (park_zombie cpu p s)
unfolding park_zombie
park_zombie-Keeps cpu p s i w =
    let (t, e, j, l) =
      wake_waiters_for-Wakes p (record s { zombies = s.zombies ++ p ∷ [] })
        (record {
          kept = i.kept;
          free = i.free;
          currents = i.currents;
          leavings = i.leavings;
          unused = i.unused;
          sorted = i.sorted;
        }) in
    (t, ground (arith, w, e), j)
