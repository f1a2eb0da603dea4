-- ===== src/Task/Sched/Switch.antt =====
-- kernel/src/task/mod.rs: what the running tasks do, up to `schedule`. The mirror of CURRENT in the CPU's
-- own data names a task that CURRENT does not only inside a step, so `kill` does not come to it.
use bedrock_stack.Base.{
  ℕ, zero, suc, Bool, true, false, not, ◌||◌, ◌&&◌, Option, none, some, List, [], ◌∷◌, ◌++◌,
  if◌then◌else◌, ◌==◌, mem,
}
use bedrock_stack.Task.Sched.{
  running, zzz, dead, Parked, Sched, put, and_then, clear_queued, park_zombie, remove_first,
  remove_entry, is_parked, task_no_cpu, max_cpus, killed_exit_code,
}

abbrev pub names : ℕ → Option ℕ → Bool
names p none = false
names p (some q) = q == p

abbrev pub on_cpu_below : ℕ → ℕ → (ℕ → Option ℕ) → Bool
on_cpu_below zero p current = false
on_cpu_below (suc n) p current = names p (current n) || on_cpu_below n p current

unfoldable pub pid_live : ℕ → Sched → Bool
pid_live p s =
    on_cpu_below max_cpus p s.current
    || mem p s.queue
    || is_parked p s.sleeping
    || is_parked p s.waiters
    || mem p s.zombies

abbrev pub insert_at : ℕ → Parked → List Parked → List Parked
insert_at zero e l = e ∷ l
insert_at (suc i) e [] = e ∷ []
insert_at (suc i) e (d ∷ l) = d ∷ insert_at i e l

-- Up to the call of `schedule`; `pos` is what `binary_search_by` answers.
unfoldable pub sleep_until : ℕ → ℕ → ℕ → Sched → Sched
sleep_until cpu deadline pos s = elim (s.current cpu) [
  | none ↦ s
  | some p ↦ record (put p (record (s.tasks p) { state = zzz }) s) {
    sleeping = insert_at pos (record { task = p; key = deadline }) s.sleeping;
  }
]

-- Up to the call of `schedule`.
unfoldable pub exit_current : ℕ → ℕ → Sched → Sched
exit_current cpu code s = elim (s.current cpu) [
  | none ↦ s
  | some p ↦ put p (record (s.tasks p) { exit_code = code; state = dead }) s
]

-- The task, off the list that has it; the outer `none` is a failed assertion.
unfoldable pub take_from_lists : ℕ → Sched → Option (Sched × Bool)
unfolding clear_queued
take_from_lists p s =
    let awake = put p (record (s.tasks p) { wake_pending = false }) s in
    if mem p s.queue
    then and_then (clear_queued p (record s { queue = remove_first p s.queue }))
        (λ t. some (t, true))
    else if is_parked p s.sleeping
    then some (record awake { sleeping = remove_entry p s.sleeping }, true)
    else if is_parked p s.waiters
    then some (record awake { waiters = remove_entry p s.waiters }, true)
    else some (s, false)

unfoldable pub bury : ℕ → ℕ → Sched × Bool → Option (Sched × Bool)
unfolding park_zombie
bury cpu p (s, false) = some (s, false)
bury cpu p (s, true) =
    and_then
      (park_zombie cpu p
        (put p (record (s.tasks p) { state = dead; exit_code = killed_exit_code }) s))
      (λ t. some (t, true))

-- Whether the pid was found; a task that kills itself goes on to `schedule`.
unfoldable pub kill : ℕ → ℕ → Sched → Option (Sched × Bool)
unfolding take_from_lists bury
kill cpu p s =
    if names p (s.current cpu)
    then some (put p (record (s.tasks p) { exit_code = killed_exit_code; state = dead }) s, true)
    else if on_cpu_below max_cpus p s.current
    then some
        (put p (record (s.tasks p) { exit_code = killed_exit_code; kill_pending = true }) s, true)
    else and_then (take_from_lists p s) (bury cpu p)

pub data WaitError : Type 0 where
  not_found not_child : WaitError

-- The tests of `wait` before its loop.
unfoldable pub wait_refused : ℕ → ℕ → Sched → Option WaitError
unfolding pid_live
wait_refused cpu child s = elim (s.current cpu) [
  | none ↦ some not_found
  | some me ↦
      if not (pid_live child s) && not (mem child s.zombies)
      then some not_found
      else if pid_live child s && ((s.tasks child).parent_pid == me)
      then none
      else some not_child
]

-- The entry of `wait` in WAITERS, when the child is no zombie yet.
unfoldable pub wait_park : ℕ → ℕ → Sched → Sched
wait_park cpu child s = elim (s.current cpu) [
  | none ↦ s
  | some p ↦ record (put p (record (s.tasks p) { state = zzz }) s) {
    waiters = s.waiters ++ record { task = p; key = child } ∷ [];
  }
]

-- The second look of `wait` at ZOMBIES, which takes the caller back from where it has been put.
unfoldable pub wait_recheck : ℕ → ℕ → Sched → Option Sched
unfolding clear_queued
wait_recheck cpu child s = elim (s.current cpu) [
  | none ↦ some s
  | some p ↦
      let owned = ((s.tasks p).owner_cpu == cpu) || ((s.tasks p).owner_cpu == task_no_cpu) in
      let back : Sched → Sched = λ t.
        put p (record (t.tasks p) { wake_pending = false; state = running; owner_cpu = cpu }) t in
      if not (mem child s.zombies)
      then some s
      else if not owned
      then none
      else if is_parked p s.waiters
      then some (back (record s { waiters = remove_entry p s.waiters }))
      else if mem p s.queue
      then and_then (clear_queued p (record s { queue = remove_first p s.queue }))
          (λ t. some (back t))
      else some (back s)
]

-- The exit code of a zombie, which goes to RECLAIM.
unfoldable pub consume_zombie : ℕ → Sched → Option (ℕ × Sched)
consume_zombie p s =
    if mem p s.zombies
    then some (
      (s.tasks p).exit_code,
      record s { zombies = remove_first p s.zombies; reclaim = s.reclaim ++ p ∷ [] },
    )
    else none
