-- ===== src/Task/Sched.antt =====
-- kernel/src/task/mod.rs: the scheduler's lists and the hand-over of tasks between them. A task is named
-- by its pid, and the lists hold pids; `Sched` keeps the tasks themselves, one for each pid. What runs
-- under one lock is one step, and a failed assertion is `none`. Timers, stacks, page tables, the
-- counter of hand-overs and log output are left out.
pub mod Lists
pub mod Switch
pub mod Handover
pub mod Sorted
pub mod Invariant
pub mod Wake
pub mod Dispatch
pub mod Started
pub mod Leave
pub mod Resume
pub mod Park
pub mod Kill
pub mod Spawn
pub mod Run
pub mod Safe
pub mod Reap
pub mod Steps
pub mod Alarm
pub mod Fair
mod Tests
use bedrock_stack.Base.{
  ℕ, ◌+◌, ◌-◌, ◌^◌, Bool, true, false, not, ◌&&◌, ◌||◌, Option, none, some, List, [], ◌∷◌, ◌++◌,
  if◌then◌else◌, ltb, leb, ◌==◌, any, filter, mem,
}

pub data TaskState : Type 0 where
  ready running zzz dead : TaskState

pub data Priority : Type 0 where
  interactive batch : Priority

abbrev pub weight_interactive : ℕ
weight_interactive = 3

abbrev pub task_no_cpu : ℕ
task_no_cpu = 2 ^ 32 - 1

abbrev pub task_global_queue : ℕ
task_global_queue = 2 ^ 32 - 2

abbrev pub max_cpus : ℕ
max_cpus = 16

abbrev pub killed_exit_code : ℕ
killed_exit_code = 3735928559

pub record Task : Type 0 where
  pub state : TaskState
  pub kill_pending : Bool
  pub wake_pending : Bool
  pub prio : Priority
  pub owner_cpu : ℕ
  pub queue_cpu : ℕ
  pub exit_code : ℕ
  pub parent_pid : ℕ

-- An entry of SLEEPING with its deadline, or of WAITERS with the pid it waits for.
pub record Parked : Type 0 where
  pub task : ℕ
  pub key : ℕ

-- `debug` says whether debug assertions are compiled in; `leaving` is the task a CPU switches away from,
-- until `switch_to` gives up its ownership.
pub record Sched : Type 0 where
  pub debug : Bool
  pub next_id : ℕ
  pub tasks : ℕ → Task
  pub queue : List ℕ
  pub current : ℕ → Option ℕ
  pub leaving : ℕ → Option ℕ
  pub zombies : List ℕ
  pub reclaim : List ℕ
  pub waiters : List Parked
  pub sleeping : List Parked
  pub credit : ℕ → ℕ

abbrev pub is_ready : TaskState → Bool
is_ready ready = true
is_ready running = false
is_ready zzz = false
is_ready dead = false

abbrev pub is_zzz : TaskState → Bool
is_zzz zzz = true
is_zzz ready = false
is_zzz running = false
is_zzz dead = false

abbrev pub is_dead : TaskState → Bool
is_dead dead = true
is_dead ready = false
is_dead running = false
is_dead zzz = false

abbrev pub set {ℓ} : {A : Type ℓ} → ℕ → A → (ℕ → A) → ℕ → A
set i x f j = if j == i then x else f j

abbrev pub put : ℕ → Task → Sched → Sched
put p t s = record s { tasks = set p t s.tasks }

unfoldable pub mark_queued : ℕ → Sched → Option Sched
mark_queued p s =
    if not ((s.tasks p).owner_cpu == task_no_cpu) || not ((s.tasks p).queue_cpu == task_no_cpu)
    then none
    else some (put p (record (s.tasks p) { queue_cpu = task_global_queue }) s)

unfoldable pub clear_queued : ℕ → Sched → Option Sched
clear_queued p s =
    if (s.tasks p).queue_cpu == task_global_queue
    then some (put p (record (s.tasks p) { queue_cpu = task_no_cpu }) s)
    else none

unfoldable pub try_claim_owner : ℕ → ℕ → Sched → Option Sched
try_claim_owner cpu p s =
    if (s.tasks p).owner_cpu == task_no_cpu
    then some (put p (record (s.tasks p) { owner_cpu = cpu }) s)
    else none

abbrev pub push_back : ℕ → Option Sched → Option Sched
push_back p none = none
push_back p (some s) = some (record s { queue = s.queue ++ p ∷ [] })

-- A woken task goes to the end of the ready queue.
unfoldable pub requeue : ℕ → Sched → Option Sched
unfolding mark_queued
requeue p s =
    push_back p
      (mark_queued p (put p (record (s.tasks p) { state = ready; wake_pending = false }) s))

abbrev pub and_then {ℓ κ} : {A : Type ℓ} {B : Type κ} → Option A → (A → Option B) → Option B
and_then none f = none
and_then (some a) f = f a

unfoldable pub requeue_all : List ℕ → Sched → Option Sched
unfolding requeue
requeue_all [] s = some s
requeue_all (p ∷ ps) s = and_then (requeue p s) (requeue_all ps)

unfoldable pub spawn : Task → Sched → Option Sched
unfolding mark_queued
spawn t s =
    if ltb s.next_id (2 ^ 64 - 2)
    then push_back (s.next_id + 1) (
        mark_queued (s.next_id + 1)
          (put (s.next_id + 1) (record t { state = ready }) (record s { next_id = s.next_id + 1 })))
    else none

-- The tasks of the entries that pass the test, and the entries that do not.
abbrev pub picked : (Parked → Bool) → List Parked → List ℕ
picked test [] = []
picked test (e ∷ l) = if test e then e.task ∷ picked test l else picked test l

abbrev pub left : (Parked → Bool) → List Parked → List Parked
left test [] = []
left test (e ∷ l) = if test e then left test l else e ∷ left test l

-- The wake-ups that the owners of the entries' tasks are told of.
abbrev pub flag : (Parked → Bool) → List Parked → (ℕ → Task) → ℕ → Task
flag test [] tasks p = tasks p
flag test (e ∷ l) tasks p =
    let t = flag test l tasks p in
    if test e && (p == e.task) then record t { wake_pending = true } else t

abbrev pub unowned : Sched → ℕ → Bool
unowned s p = (s.tasks p).owner_cpu == task_no_cpu

abbrev pub up_to : ℕ → List Parked → List Parked
up_to now [] = []
up_to now (e ∷ l) = if leb e.key now then e ∷ up_to now l else []

abbrev pub beyond : ℕ → List Parked → List Parked
beyond now [] = []
beyond now (e ∷ l) = if leb e.key now then beyond now l else e ∷ l

unfoldable pub wake_sleepers : ℕ → Sched → Option Sched
unfolding requeue_all
wake_sleepers now s =
    let due = up_to now s.sleeping in
    requeue_all (picked (λ e. unowned s e.task) due) (record s {
      sleeping = left (λ e. unowned s e.task) due ++ beyond now s.sleeping;
      tasks = flag (λ e. not (unowned s e.task)) due s.tasks;
    })

abbrev pub released : Sched → Parked → Bool
released s e = (s.tasks e.task).wake_pending && unowned s e.task

unfoldable pub drain_released_wakes : Sched → Option Sched
unfolding requeue_all
drain_released_wakes s =
    requeue_all (picked (released s) s.sleeping ++ picked (released s) s.waiters)
      (record s { sleeping = left (released s) s.sleeping; waiters = left (released s) s.waiters })

unfoldable pub wake_waiters_for : ℕ → Sched → Option Sched
unfolding requeue_all
wake_waiters_for pid s =
    requeue_all (picked (λ e. (e.key == pid) && unowned s e.task) s.waiters) (record s {
      waiters = left (λ e. (e.key == pid) && unowned s e.task) s.waiters;
      tasks = flag (λ e. (e.key == pid) && not (unowned s e.task)) s.waiters s.tasks;
    })

-- The two debug assertions of `park_zombie`.
abbrev pub parks_well : ℕ → ℕ → Sched → Bool
parks_well cpu p s =
    not s.debug
    || ((unowned s p || ((s.tasks p).owner_cpu == cpu)) && ((s.tasks p).queue_cpu == task_no_cpu))

unfoldable pub park_zombie : ℕ → ℕ → Sched → Option Sched
unfolding wake_waiters_for
park_zombie cpu p s =
    let rest = wake_waiters_for p (record s { zombies = s.zombies ++ p ∷ [] }) in
    if parks_well cpu p s then rest else none

abbrev pub remove_first : ℕ → List ℕ → List ℕ
remove_first p [] = []
remove_first p (q ∷ l) = if q == p then l else q ∷ remove_first p l

abbrev pub remove_entry : ℕ → List Parked → List Parked
remove_entry p [] = []
remove_entry p (e ∷ l) = if e.task == p then l else e ∷ remove_entry p l

abbrev pub is_parked : ℕ → List Parked → Bool
is_parked p l = any (λ e. e.task == p) l
