-- ===== src/Task/Sched/Park.antt =====
-- kernel/src/task/mod.rs: sleeping, waiting and exiting keep the lists in
-- order.
use bedrock_stack.Base.{
  ℕ, ◌+◌, ◌≡◌, inl, inr, refl, sym, ap, ◌∙◌, ◌⊎◌, true, false, some, List, [], ◌∷◌, ◌++◌, ◌==◌, mem,
  arith, Bool-cases, subst,
}
use bedrock_stack.Task.Sched.{
  Task, running, zzz, dead, Parked, Sched, set, put, is_zzz, task_no_cpu, remove_entry, is_parked,
}
use bedrock_stack.Task.Sched.Switch.{insert_at, sleep_until, exit_current, wait_park, wait_recheck}
use bedrock_stack.Task.Sched.Lists.{
  one_if, count, entries, entries-append, entries-remove_entry, entries-insert_at,
  is_parked-entries,
}
use bedrock_stack.Task.Sched.Invariant.{IsSched, IsKept, IsCurrent, parked}
use bedrock_stack.Task.Sched.Sorted.{is_sorted, is_place, is_sorted-insert_at}
use bedrock_stack.Task.Sched.Wake.{Keeps}
use bedrock_stack.Task.Sched.Dispatch.{put-IsSched, set_same, split_at, owners_differ}

-- The current task of `cpu`, parked with one entry more.
park-IsSched :
    (cpu p : ℕ) (s : Sched) (sl ws : List Parked)
    → IsSched [] s
    → s.current cpu ≡ some p
    → is_zzz (s.tasks p).state ≡ false
    → ((r : ℕ) → entries r sl + entries r ws ≡ one_if (p == r) + parked r s)
    → is_sorted sl ≡ true
    → IsSched []
        (record (put p (record (s.tasks p) { state = zzz }) s) { sleeping = sl; waiters = ws })
park-IsSched cpu p s sl ws i h z n sorted =
    let kp = i.currents cpu p h in
    let t : ℕ → Task = set p (record (s.tasks p) { state = zzz }) s.tasks in
    let own : (r : ℕ) → (t r).owner_cpu ≡ (s.tasks r).owner_cpu =
      λ r. set_same (λ x. x.owner_cpu) p _ s.tasks r (λ e. refl) in
    let que : (r : ℕ) → (t r).queue_cpu ≡ (s.tasks r).queue_cpu =
      λ r. set_same (λ x. x.queue_cpu) p _ s.tasks r (λ e. refl) in
    record {
      kept = λ r.
          split_at (λ x. IsKept (t x) (count x s.queue) (entries x sl + entries x ws) 0) p r
            (let k = i.kept p in let a = n p in let q = que p in ground (arith, k, a, q, kp, z))
            (λ e. let k = i.kept r in let a = n r in let q = que r in ground (arith, k, a, q, e));
      free = λ r x. ground (arith, x);
      currents = λ c r x.
          let k = i.currents c r x in
          let o = own r in
          (
            k.0,
            o ∙ k.1,
            k.2,
            split_at
                (λ y.
                  (count y s.queue ≡ 0)
                  → IsCurrent c (s.tasks y) (count y s.queue) (parked y s)
                  → ((is_zzz (t y).state ≡ true) × (entries y sl + entries y ws ≡ 1))
                    ⊎ ((is_zzz (t y).state ≡ false) × (entries y sl + entries y ws ≡ 0)))
                p r (λ _ _. let a = n p in ground (arith, a, kp, z))
                (λ e _ j. let a = n r in ground (arith, a, e, j)) k.2 k,
          );
      leavings = λ c r x. let k = i.leavings c r x in (k.0, own r ∙ k.1, k.2);
      sorted = sorted;
      unused = λ r x.
          let k = i.unused r x in
          let a = n r in
          let other = owners_differ s.tasks r p task_no_cpu cpu k.0 kp.1 (ground (arith, kp.0)) in
          (own r ∙ k.0, ground (arith, k, a, other));
    }

pub sleep_until-IsSched :
    (cpu deadline pos p : ℕ) (s : Sched)
    → IsSched [] s
    → s.current cpu ≡ some p
    → is_zzz (s.tasks p).state ≡ false
    → is_place deadline pos s.sleeping ≡ true
    → IsSched [] (sleep_until cpu deadline pos s)
unfolding sleep_until
sleep_until-IsSched cpu deadline pos p s i h z o =
    let e : Parked = record { task = p; key = deadline } in
    let to : Sched = record (put p (record (s.tasks p) { state = zzz }) s) {
      sleeping = insert_at pos e s.sleeping;
    } in
    let same : sleep_until cpu deadline pos s ≡ to = ground (arith, h) in
    subst (IsSched []) (sym same) (
      park-IsSched cpu p s (insert_at pos e s.sleeping) s.waiters i h z
        (λ r. let a = entries-insert_at pos e r s.sleeping in omega (arith, a))
        (is_sorted-insert_at pos e s.sleeping o i.sorted))

pub wait_park-IsSched :
    (cpu child p : ℕ) (s : Sched)
    → IsSched [] s
    → s.current cpu ≡ some p
    → is_zzz (s.tasks p).state ≡ false
    → IsSched [] (wait_park cpu child s)
unfolding wait_park
wait_park-IsSched cpu child p s i h z =
    let e : Parked = record { task = p; key = child } in
    let to : Sched = record (put p (record (s.tasks p) { state = zzz }) s) {
      waiters = s.waiters ++ e ∷ [];
    } in
    let same : wait_park cpu child s ≡ to = ground (arith, h) in
    subst (IsSched []) (sym same) (
      park-IsSched cpu p s s.sleeping (s.waiters ++ e ∷ []) i h z
        (λ r. let a = entries-append r s.waiters (e ∷ []) in omega (arith, a)) i.sorted)

pub exit_current-IsSched :
    (cpu code p : ℕ) (s : Sched)
    → IsSched [] s
    → s.current cpu ≡ some p
    → is_zzz (s.tasks p).state ≡ false
    → IsSched [] (exit_current cpu code s)
unfolding exit_current
exit_current-IsSched cpu code p s i h z =
    let same : exit_current cpu code s
        ≡ put p (record (s.tasks p) { exit_code = code; state = dead }) s =
      ground (arith, h) in
    subst (IsSched []) (sym same) (put-IsSched p _ s i refl refl (λ c x. sym z))

-- The second look of `wait`, by a task that has just been put on WAITERS.
pub wait_recheck-Keeps :
    (cpu child p : ℕ) (s : Sched)
    → IsSched [] s
    → s.current cpu ≡ some p
    → is_parked p s.waiters ≡ true
    → Keeps (wait_recheck cpu child s)
unfolding wait_recheck
wait_recheck-Keeps cpu child p s i h w = elim (Bool-cases (mem child s.zombies)) [
  | inr m ↦ (s, ground (arith, h, m), i)
  | inl m ↦
      let kp = i.currents cpu p h in
      let gone : Sched = record s { waiters = remove_entry p s.waiters } in
      let x : Task = record (s.tasks p) {
        wake_pending = false;
        state = running;
        owner_cpu = cpu;
      } in
      let t : ℕ → Task = set p x s.tasks in
      let own : (r : ℕ) → (t r).owner_cpu ≡ (s.tasks r).owner_cpu =
        λ r. set_same (λ x. x.owner_cpu) p x s.tasks r (λ e. sym kp.1) in
      let que : (r : ℕ) → (t r).queue_cpu ≡ (s.tasks r).queue_cpu =
        λ r. set_same (λ x. x.queue_cpu) p x s.tasks r (λ e. refl) in
      let n : (r : ℕ)
          → entries r (remove_entry p s.waiters) + one_if (p == r) ≡ entries r s.waiters =
        λ r. entries-remove_entry p r s.waiters w in
      let m0 = (is_parked-entries p s.waiters).0 w in
      let here : t p ≡ x = ground arith in
      (
        put p x gone,
        ground (arith, h, m, w, kp),
        record {
          kept = λ r. let k = i.kept r in let a = n r in let q = que r in ground (arith, k, a, q);
          free = λ r x. ground (arith, x);
          currents = λ c r y.
              let k = i.currents c r y in
              let o = own r in
              (
                k.0,
                o ∙ k.1,
                k.2,
                split_at
                    (λ y.
                      IsCurrent c (s.tasks y) (count y s.queue) (parked y s)
                      → ((is_zzz (t y).state ≡ true)
                          × (entries y s.sleeping + entries y (remove_entry p s.waiters) ≡ 1))
                        ⊎ ((is_zzz (t y).state ≡ false)
                            × (entries y s.sleeping + entries y (remove_entry p s.waiters) ≡ 0)))
                    p r
                    (λ _.
                      let a = n p in inr (ap (λ y. is_zzz y.state) here, ground (arith, a, kp, m0)))
                    (λ e j. let a = n r in ground (arith, a, e, j)) k,
              );
          leavings = λ c r y. let k = i.leavings c r y in (k.0, own r ∙ k.1, k.2);
          sorted = i.sorted;
          unused = λ r y. let k = i.unused r y in let a = n r in (own r ∙ k.0, omega (arith, k, a));
        },
      )
]
