-- ===== src/Task/Sched/Tests.antt =====
-- kernel/src/task/mod.rs: the scheduler on examples.
use bedrock_stack.Base.{
  ◌++◌, ◌<◌, true, ℕ, ◌+◌, ◌≤◌, ◌≡◌, ◌↔◌, inl, refl, ◌⊎◌, false, Option, none, some, List, [], ◌∷◌,
  arith,
}
use bedrock_stack.Task.Sched.{
  Parked, unowned, wake_sleepers, Sched, interactive, batch, task_global_queue, is_zzz,
  weight_interactive,
}
use bedrock_stack.Task.Sched.Handover.{choose}
use bedrock_stack.Task.Sched.Lists.{count, entries}
use bedrock_stack.Task.Sched.Invariant.{parked}
use bedrock_stack.Task.Sched.Run.{
  Event, spawns, sleeps, exits, waits, kills, collects, schedules, leaves, wakes, allowed, perform,
  boot, Reach, replay, replay-Reach, start,
}
use bedrock_stack.Task.Sched.Safe.{perform_succeeds, one_cpu, one_list}
use bedrock_stack.Task.Sched.Alarm.{no_missed_sleeper}
use bedrock_stack.Task.Sched.Fair.{passes_over, weighted_rounds}

abbrev pub state_after : List Event → Sched
unfolding replay
state_after events = elim (replay events (boot false)) [ none ↦ boot false | some s ↦ s ]

-- Two tasks are spawned and run on two CPUs; the first one goes to sleep and is switched away from.
abbrev two_tasks : List Event
two_tasks =
    spawns interactive 0
    ∷ spawns batch 1
    ∷ schedules 0 0
    ∷ schedules 0 1
    ∷ sleeps 0 5 0
    ∷ schedules 1 0
    ∷ []

two_tasks-Reach : Reach (state_after two_tasks)
unfolding replay
two_tasks-Reach = replay-Reach two_tasks (boot false) (state_after two_tasks) (start false) refl

-- A debug build: CPU 1 kills the task that sleeps, after CPU 0 has left it.
abbrev debug_after : List Event → Sched
unfolding replay
debug_after events = elim (replay events (boot true)) [ none ↦ boot true | some s ↦ s ]

abbrev slept : List Event
slept = two_tasks ++ leaves 0 ∷ []

slept-Reach : Reach (debug_after slept)
unfolding replay
slept-Reach = replay-Reach slept (boot true) (debug_after slept) (start true) refl

perform_succeeds_example : (t : Sched) × (perform (kills 1 1) (debug_after slept) ≡ some t)
unfolding allowed replay
perform_succeeds_example = perform_succeeds (debug_after slept) (kills 1 1) slept-Reach refl refl

one_cpu_example : (◌≡◌ {A = ℕ} 1 1) × (((state_after two_tasks).tasks 2).owner_cpu ≡ 1)
unfolding replay
one_cpu_example = one_cpu (state_after two_tasks) 1 1 2 two_tasks-Reach (inl refl) (inl refl)

one_list_example :
    (count 1 (state_after two_tasks).queue + parked 1 (state_after two_tasks) ≤ 1)
    × ((((state_after two_tasks).tasks 1).queue_cpu ≡ task_global_queue)
        ↔ (count 1 (state_after two_tasks).queue ≡ 1))
    × ((c : ℕ)
        → (state_after two_tasks).current c ≡ some 1
        → is_zzz ((state_after two_tasks).tasks 1).state ≡ false
        → count 1 (state_after two_tasks).queue + parked 1 (state_after two_tasks) ≡ 0)
one_list_example = one_list (state_after two_tasks) 1 two_tasks-Reach

-- A parent waits for its child, which exits; the parent runs again and collects the code.
abbrev wait_for_child : List Event
wait_for_child =
    spawns interactive 0
    ∷ spawns interactive 1
    ∷ schedules 0 0
    ∷ waits 0 2
    ∷ schedules 0 0
    ∷ leaves 0
    ∷ exits 0 7
    ∷ schedules 0 0
    ∷ leaves 0
    ∷ schedules 0 0
    ∷ collects 2
    ∷ []

parent_resumes :
    ((state_after wait_for_child).current 0 ≡ some 1)
    × ((state_after wait_for_child).reclaim ≡ 2 ∷ [])
unfolding replay
parent_resumes = (refl, refl)

-- A task on CPU 1 puts itself to sleep; before it comes to `schedule`, CPU 0 kills it. It becomes a
-- zombie, but stays on SLEEPING, and runs again once its deadline has passed.
abbrev killed_in_sleep : List Event
killed_in_sleep =
    spawns interactive 0
    ∷ schedules 0 1
    ∷ sleeps 1 5 0
    ∷ kills 0 1
    ∷ schedules 0 1
    ∷ leaves 1
    ∷ wakes 7
    ∷ schedules 7 1
    ∷ []

killed_task_runs :
    ((state_after killed_in_sleep).current 1 ≡ some 1)
    × ((state_after killed_in_sleep).zombies ≡ 1 ∷ [])
unfolding replay
killed_task_runs = (refl, refl)

weighted_rounds_example :
    (2 ≤ weight_interactive)
    × (2 ≤ weight_interactive)
    × ((◌≡◌ {A = Option ℕ} (some 4) (some 4))
        → (◌≡◌ {A = ℕ} 4 4) ⊎ ((c : Option ℕ) (k : ℕ) → choose 2 (some k) c ≡ some (k, 1)))
unfolding choose passes_over
weighted_rounds_example =
    weighted_rounds 3 4 2 4 (some 4) (some 9) ((some 5, 9) ∷ (some 6, 9) ∷ []) (omega arith) refl
      refl

-- A debug build: the first task goes to the end of the queue, and CPU 0 has not left it when CPU 1 kills
-- it. The debug assertion of `park_zombie` fails.
abbrev sent_back : List Event
sent_back = spawns interactive 0 ∷ spawns interactive 0 ∷ schedules 0 0 ∷ schedules 0 0 ∷ []

early_kill_fails :
    (allowed (kills 1 1) (debug_after sent_back) ≡ true)
    × (perform (kills 1 1) (debug_after sent_back) ≡ none)
unfolding replay allowed perform
early_kill_fails = (refl, refl)

abbrev asleep : List Event
asleep = spawns interactive 0 ∷ schedules 0 1 ∷ sleeps 1 5 0 ∷ schedules 0 1 ∷ leaves 1 ∷ []

asleep-Reach : Reach (state_after asleep)
unfolding replay
asleep-Reach = replay-Reach asleep (boot false) (state_after asleep) (start false) refl

abbrev alarm : Parked
alarm = record { task = 1; key = 5 }

no_missed_sleeper_example :
    (t : Sched) × (wake_sleepers 9 (state_after asleep) ≡ some t)
    × (5 ≤ 9
        → unowned (state_after asleep) 1 ≡ true
        → (count 1 t.queue ≡ 1) × (entries 1 t.sleeping ≡ 0))
    × (5 ≤ 9
        → unowned (state_after asleep) 1 ≡ false
        → ((t.tasks 1).wake_pending ≡ true) × (entries 1 t.sleeping ≡ 1))
    × (9 < 5 → (count 1 t.queue ≡ count 1 (state_after asleep).queue) × (entries 1 t.sleeping ≡ 1))
unfolding replay
no_missed_sleeper_example = no_missed_sleeper 9 (state_after asleep) alarm [] [] asleep-Reach refl
