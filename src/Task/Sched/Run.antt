-- ===== src/Task/Sched/Run.antt =====
-- kernel/src/task/mod.rs: every interleaving of what the tasks, the idle loops and the CPUs do.
use bedrock_stack.Base.{
  ℕ, ◌-◌, ◌^◌, ◌≡◌, inl, inr, Bool, true, false, not, ◌&&◌, ◌||◌, Option, none, some, List, [], ◌∷◌,
  if◌then◌else◌, ltb, mem, arith, Bool-cases, Option-cases, subst,
}
use bedrock_stack.Task.Sched.{
  Task, ready, Priority, interactive, Sched, is_zzz, is_dead, task_no_cpu, max_cpus,
  weight_interactive, and_then, is_parked, spawn, wake_sleepers,
}
use bedrock_stack.Task.Sched.Switch.{
  WaitError, wait_refused, sleep_until, exit_current, kill, wait_park, wait_recheck, consume_zombie,
}
use bedrock_stack.Task.Sched.Sorted.{is_place}
use bedrock_stack.Task.Sched.Handover.{schedule, switched}
use bedrock_stack.Task.Sched.Kill.{spares, some_injective}
use bedrock_stack.Task.Sched.Reap.{take_places, drain_reclaim, free_places}
use bedrock_stack.Task.Sched.Reap.Answer.{is_out}

abbrev pub new_task : Priority → ℕ → Task
new_task prio parent = record {
  state = ready;
  kill_pending = false;
  wake_pending = false;
  prio = prio;
  owner_cpu = task_no_cpu;
  queue_cpu = task_no_cpu;
  exit_code = 0;
  parent_pid = parent;
}

abbrev pub boot : Bool → Sched
boot debug = record {
  debug = debug;
  next_id = 0;
  tasks = λ p. new_task interactive 0;
  queue = [];
  current = λ c. none;
  leaving = λ c. none;
  zombies = [];
  reclaim = [];
  waiters = [];
  sleeping = [];
  credit = λ c. weight_interactive;
}

-- Who does what, on which CPU; `leaves` is the end of a switch.
pub data Event : Type 0 where
  spawns : Priority → ℕ → Event
  sleeps : ℕ → ℕ → ℕ → Event
  exits : ℕ → ℕ → Event
  waits : ℕ → ℕ → Event
  rechecks : ℕ → ℕ → Event
  kills : ℕ → ℕ → Event
  collects : ℕ → Event
  drains : ℕ → Event
  frees : List ℕ → Event
  wakes : ℕ → Event
  schedules : ℕ → ℕ → Event
  leaves : ℕ → Event

-- A task runs on the CPU, and is not on its way out.
abbrev pub runs : ℕ → Sched → Bool
runs cpu s = elim (s.current cpu) [
  | none ↦ false
  | some p ↦ not (is_zzz (s.tasks p).state) && not (is_dead (s.tasks p).state)
]

abbrev pub is_none : Option ℕ → Bool
is_none none = true
is_none (some p) = false

abbrev pub not_refused : Option WaitError → Bool
not_refused none = true
not_refused (some e) = false

-- The tasks are off their CPUs and the ready queue, as a zombie that its parent collects may not be yet.
abbrev pub all_out : Sched → List ℕ → Bool
all_out s [] = true
all_out s (p ∷ l) = is_out s p && all_out s l

-- No list that wakes its tasks points to one of them, as it does when a sleeper was killed on its way out.
abbrev pub none_parked : Sched → List ℕ → Bool
none_parked s [] = true
none_parked s (p ∷ l) =
    not (is_parked p s.sleeping) && not (is_parked p s.waiters) && none_parked s l

abbrev pub frees_well : Sched → Option (List ℕ × List ℕ) → Bool
frees_well s none = false
frees_well s (some (free, left)) = all_out s free && none_parked s free

unfoldable pub allowed : Event → Sched → Bool
unfolding wait_refused take_places
allowed (spawns prio parent) s = ltb s.next_id (2 ^ 64 - 2)
allowed (sleeps cpu deadline pos) s = runs cpu s && is_place deadline pos s.sleeping
allowed (exits cpu code) s = runs cpu s
allowed (waits cpu child) s =
    runs cpu s && not (mem child s.zombies) && not_refused (wait_refused cpu child s)
allowed (rechecks cpu child) s = elim (s.current cpu) [
  | none ↦ false
  | some p ↦ is_parked p s.waiters
]
allowed (kills cpu p) s = is_none (s.current cpu) || runs cpu s
allowed (collects p) s = mem p s.zombies
allowed (drains cpu) s = is_none (s.current cpu) && all_out s s.reclaim && none_parked s s.reclaim
allowed (frees places) s = frees_well s (take_places places s.zombies)
allowed (wakes now) s = true
allowed (schedules now cpu) s = ltb cpu max_cpus && is_none (s.leaving cpu)
allowed (leaves cpu) s = true

abbrev pub state_of : Option (Sched × Bool) → Option Sched
state_of none = none
state_of (some (s, b)) = some s

abbrev pub second {ℓ} : {A : Type ℓ} → Option (A × Sched) → Option Sched
second none = none
second (some (n, s)) = some s

unfoldable pub perform : Event → Sched → Option Sched
unfolding spawn sleep_until exit_current wait_park wait_recheck kill consume_zombie drain_reclaim
    free_places wake_sleepers schedule switched
perform (spawns prio parent) s = spawn (new_task prio parent) s
perform (sleeps cpu deadline pos) s = some (sleep_until cpu deadline pos s)
perform (exits cpu code) s = some (exit_current cpu code s)
perform (waits cpu child) s = some (wait_park cpu child s)
perform (rechecks cpu child) s = wait_recheck cpu child s
perform (kills cpu p) s = state_of (kill cpu p s)
perform (collects p) s = second (consume_zombie p s)
perform (drains cpu) s = second (drain_reclaim cpu s)
perform (frees places) s = second (free_places places s)
perform (wakes now) s = wake_sleepers now s
perform (schedules now cpu) s = schedule now cpu s
perform (leaves cpu) s = some (switched cpu s)

pub data Reach : Sched → Type 0 where
  start : (debug : Bool) → Reach (boot debug)
  later : {s t : Sched} (e : Event) → Reach s → allowed e s ≡ true → perform e s ≡ some t → Reach t

-- A kill that fails the debug assertion of `park_zombie` is not tolerated; in a release build all are.
abbrev pub tolerated : Event → Sched → Bool
tolerated (kills cpu p) s = spares cpu p s
tolerated (spawns prio parent) s = true
tolerated (sleeps cpu deadline pos) s = true
tolerated (exits cpu code) s = true
tolerated (waits cpu child) s = true
tolerated (rechecks cpu child) s = true
tolerated (collects p) s = true
tolerated (drains cpu) s = true
tolerated (frees places) s = true
tolerated (wakes now) s = true
tolerated (schedules now cpu) s = true
tolerated (leaves cpu) s = true

-- The steps in order, each of them allowed.
unfoldable pub replay : List Event → Sched → Option Sched
unfolding allowed perform
replay [] s = some s
replay (e ∷ events) s = if allowed e s then and_then (perform e s) (replay events) else none

pub replay-Reach :
    (events : List Event) (s t : Sched) → Reach s → replay events s ≡ some t → Reach t
unfolding replay
replay-Reach [] s t r h = subst Reach (some_injective h) r
replay-Reach (e ∷ events) s t r h = elim (Bool-cases (allowed e s)) [
  | inl a ↦ elim (Option-cases (perform e s)) [
    | inl n ↦ ground (arith, h, a, n)
    | inr (u, q) ↦ replay-Reach events u t (later e r a q) (ground (arith, h, a, q))
  ]
  | inr a ↦ ground (arith, h, a)
]
