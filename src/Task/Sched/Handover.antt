-- ===== src/Task/Sched/Handover.antt =====
-- kernel/src/task/mod.rs: `schedule`, up to the jump into the next task, and the end of a switch.
use bedrock_stack.Base.{
  ℕ, ◌-◌, Bool, true, false, not, ◌&&◌, ◌||◌, Option, none, some, List, [], ◌∷◌, if◌then◌else◌, ltb,
  ◌==◌,
}
use bedrock_stack.Task.Sched.{
  Task, ready, running, dead, Priority, interactive, batch, Sched, set, put, is_ready, is_zzz,
  is_dead, and_then, push_back, clear_queued, try_claim_owner, park_zombie, wake_sleepers,
  drain_released_wakes, remove_first, remove_entry, is_parked, task_no_cpu, task_global_queue,
  weight_interactive,
}

-- The first Ready task of the class that no CPU owns.
abbrev pub can_run : Task → Bool
can_run t = is_ready t.state && (t.owner_cpu == task_no_cpu)

abbrev pub is_batch : Priority → Bool
is_batch batch = true
is_batch interactive = false

abbrev pub first : (ℕ → Bool) → List ℕ → Option ℕ
first test [] = none
first test (p ∷ l) = if test p then some p else first test l

-- The choice between the first of each class, and the credit afterwards.
unfoldable pub choose : ℕ → Option ℕ → Option ℕ → Option (ℕ × ℕ)
choose credit none none = none
choose credit none (some j) = some (j, weight_interactive)
choose credit (some i) none = some (i, credit - 1)
choose credit (some i) (some j) =
    if ltb 0 credit then some (i, credit - 1) else some (j, weight_interactive)

unfoldable pub pick : ℕ → Sched → Option (ℕ × ℕ)
unfolding choose
pick cpu s =
    choose (s.credit cpu)
      (first (λ p. can_run (s.tasks p) && not (is_batch (s.tasks p).prio)) s.queue)
      (first (λ p. can_run (s.tasks p) && is_batch (s.tasks p).prio) s.queue)

abbrev pub run_on : ℕ → ℕ → Sched → Option Sched
run_on cpu p s = some (record (put p (record (s.tasks p) { state = running }) s) {
  current = set cpu (some p) s.current;
})

unfoldable pub take : ℕ → ℕ → ℕ → Sched → Option Sched
unfolding clear_queued try_claim_owner
take cpu p credit s =
    and_then
      (clear_queued p
        (record s { queue = remove_first p s.queue; credit = set cpu credit s.credit }))
      (λ t. and_then (try_claim_owner cpu p t) (run_on cpu p))

abbrev pub leave_to : ℕ → ℕ → Sched → Sched
leave_to cpu p s = record s { leaving = set cpu (some p) s.leaving }

-- The outgoing task where there is no other one.
unfoldable pub stay : ℕ → Option ℕ → Sched → Option Sched
unfolding park_zombie
stay cpu none s = some s
stay cpu (some p) s =
    if is_dead (s.tasks p).state
    then park_zombie cpu p (leave_to cpu p s)
    else if is_zzz (s.tasks p).state
    then some (leave_to cpu p s)
    else some (record s { current = set cpu (some p) s.current })

unfoldable pub mark_queued_from_owner : ℕ → ℕ → Sched → Option Sched
mark_queued_from_owner cpu p s =
    if not ((s.tasks p).owner_cpu == cpu) || not ((s.tasks p).queue_cpu == task_no_cpu)
    then none
    else some (put p (record (s.tasks p) { queue_cpu = task_global_queue }) s)

-- The outgoing task where `next` is dispatched.
unfoldable pub leave : ℕ → Option ℕ → ℕ → Sched → Option Sched
unfolding park_zombie mark_queued_from_owner
leave cpu none next s = some s
leave cpu (some p) next s =
    let back = put p (record (s.tasks p) { state = ready }) s in
    if p == next
    then some s
    else if is_dead (s.tasks p).state
    then park_zombie cpu p (leave_to cpu p s)
    else if is_zzz (s.tasks p).state
    then some (leave_to cpu p s)
    else if (s.tasks p).queue_cpu == task_no_cpu
    then push_back p (mark_queued_from_owner cpu p (leave_to cpu p back))
    else if (s.tasks p).queue_cpu == task_global_queue
    then some (leave_to cpu p back)
    else none

unfoldable pub hand_over : ℕ → Option ℕ → Sched → Option Sched
unfolding pick take stay leave
hand_over cpu prev s = elim (pick cpu s) [
  | none ↦ stay cpu prev s
  | some (next, credit) ↦ and_then (take cpu next credit s) (leave cpu prev next)
]

-- A task that a wake-up has met on its way out goes on.
unfoldable pub resume : ℕ → ℕ → Sched → Option Sched
resume cpu p s =
    let t =
      put p (record (s.tasks p) { wake_pending = false; state = running })
        (record s { current = set cpu (some p) s.current }) in
    if is_parked p s.sleeping
    then some (record t { sleeping = remove_entry p s.sleeping })
    else if is_parked p s.waiters
    then some (record t { waiters = remove_entry p s.waiters })
    else none

abbrev pub consume_kill : ℕ → Sched → Sched
consume_kill p s =
    if (s.tasks p).kill_pending
    then put p (record (s.tasks p) { kill_pending = false; state = dead }) s
    else s

unfoldable pub outgoing : ℕ → ℕ → Sched → Option Sched
unfolding resume hand_over
outgoing cpu p s =
    if is_zzz (s.tasks p).state && (s.tasks p).wake_pending
    then resume cpu p s
    else hand_over cpu (some p) s

-- `schedule` behind the wake-ups it begins with.
unfoldable pub dispatch : ℕ → Sched → Option Sched
unfolding outgoing hand_over
dispatch cpu s =
    let taken = record s { current = set cpu none s.current } in
    elim (s.current cpu) [
      | none ↦ hand_over cpu none taken
      | some p ↦ outgoing cpu p (consume_kill p taken)
    ]

unfoldable pub schedule : ℕ → ℕ → Sched → Option Sched
unfolding wake_sleepers drain_released_wakes dispatch
schedule now cpu s = and_then (and_then (wake_sleepers now s) drain_released_wakes) (dispatch cpu)

-- `switch_to` has left the stack of the outgoing task.
unfoldable pub switched : ℕ → Sched → Sched
switched cpu s = elim (s.leaving cpu) [
  | none ↦ s
  | some p ↦ record (put p (record (s.tasks p) { owner_cpu = task_no_cpu }) s) {
    leaving = set cpu none s.leaving;
  }
]
