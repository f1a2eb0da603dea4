-- ===== src/Task/Sched/Reap/Tests.antt =====
-- kernel/src/task/mod.rs: `reap_dead` on examples.
use bedrock_stack.Base.{
  subst, mem, not, true, ◌&&◌, ◌||◌, ◌++◌, ℕ, ◌≡◌, refl, false, Option, none, some, List, [], ◌∷◌,
  arith,
}
use bedrock_stack.Task.Sched.{Sched, interactive}
use bedrock_stack.Task.Sched.Lists.{count}
use bedrock_stack.Task.Sched.Invariant.{parked}
use bedrock_stack.Task.Sched.Run.{
  Event, spawns, sleeps, exits, kills, collects, schedules, leaves, boot, Reach, replay,
  replay-Reach, start,
}
use bedrock_stack.Task.Sched.Safe.{is_abandoned, reap_dead_frees, Holds}
use bedrock_stack.Task.Sched.Reap.{drain_reclaim, is_orphan, orphan_places, free_places}
use bedrock_stack.Task.Sched.Reap.Answer.{is_out}
use bedrock_stack.Task.Sched.Tests.{state_after}

-- The task is freed between its burial and its deadline, and SLEEPING still has it.
abbrev killed_and_left : List Event
killed_and_left =
    spawns interactive 0 ∷ schedules 0 1 ∷ sleeps 1 5 0 ∷ kills 0 1 ∷ schedules 0 1 ∷ leaves 1 ∷ []

abbrev freed_by : Option (List ℕ × Sched) → List ℕ
freed_by none = []
freed_by (some (freed, s)) = freed

freed_while_parked :
    (freed_by
        (free_places (orphan_places (state_after killed_and_left)) (state_after killed_and_left))
      ≡ 1 ∷ [])
    × (parked 1 (state_after killed_and_left) ≡ 1)
unfolding replay free_places orphan_places is_orphan
freed_while_parked = (refl, refl)

-- A parent collects its child before the child's CPU has left it: an assertion of `reap_one` fails.
abbrev early_collect : List Event
early_collect =
    spawns interactive 0
    ∷ spawns interactive 1
    ∷ schedules 0 1
    ∷ schedules 0 2
    ∷ exits 2 7
    ∷ schedules 0 2
    ∷ collects 2
    ∷ []

early_collect_fails : drain_reclaim 0 (state_after early_collect) ≡ none
unfolding replay drain_reclaim
early_collect_fails = refl

abbrev exited : List Event
exited = spawns interactive 0 ∷ schedules 0 1 ∷ exits 1 7 ∷ schedules 0 1 ∷ leaves 1 ∷ []

exited-Reach : Reach (state_after exited)
unfolding replay
exited-Reach = replay-Reach exited (boot false) (state_after exited) (start false) refl

-- Another task exits while CPU 0 is between the parts of `reap_dead`.
abbrev another : List Event
another = spawns interactive 0 ∷ schedules 0 1 ∷ exits 1 8 ∷ schedules 0 1 ∷ leaves 1 ∷ []

abbrev two_exited : Sched
two_exited = state_after (exited ++ another)

two_exited-Reach : Reach two_exited
unfolding replay
two_exited-Reach = replay-Reach (exited ++ another) (boot false) two_exited (start false) refl

first_out :
    (p : ℕ)
    → mem p (state_after exited).zombies ≡ true
    → is_out (state_after exited) p ≡ true
    → is_out two_exited p ≡ true
unfolding replay
first_out p m o =
    let same : 1 ≡ p = ground (arith, m) in subst (λ x. is_out two_exited x ≡ true) same refl

reap_dead_frees_example :
    (freed : List ℕ) × (t : Sched) × (drain_reclaim 0 (state_after exited)
      ≡ some ([], record (state_after exited) { reclaim = [] }))
    × (free_places (orphan_places (state_after exited)) two_exited ≡ some (freed, t))
    × ((p : ℕ)
        → (mem p freed
            ≡ (mem p (state_after exited).zombies && is_abandoned (state_after exited) p))
          × (mem p t.zombies ≡ (
              (mem p (state_after exited).zombies && not (is_abandoned (state_after exited) p))
              || mem p (2 ∷ []))))
    × ((p : ℕ)
        → mem p (state_after exited).reclaim ≡ true
        → (count p (state_after exited).queue ≡ 0) × ((c : ℕ) → ¬ Holds c p (state_after exited)))
    × ((p : ℕ)
        → mem p freed ≡ true
        → (count p two_exited.queue ≡ 0) × ((c : ℕ) → ¬ Holds c p two_exited))
unfolding replay
reap_dead_frees_example =
    reap_dead_frees 0 (state_after exited) two_exited (2 ∷ []) exited-Reach two_exited-Reach refl
      refl refl first_out

-- While CPU 0 is between the parts of `reap_dead`, the task on CPU 1 collects a zombie in front of the
-- orphan 3: the last part frees the zombie 4, which the task may still wait for, or fails where there
-- is none.
abbrev three_zombies : List Event
three_zombies =
    spawns interactive 0
    ∷ spawns interactive 1
    ∷ spawns interactive 0
    ∷ schedules 0 1
    ∷ schedules 0 2
    ∷ exits 2 0
    ∷ schedules 0 2
    ∷ leaves 2
    ∷ exits 2 0
    ∷ schedules 0 2
    ∷ leaves 2
    ∷ []

abbrev fourth : List Event
fourth = spawns interactive 1 ∷ schedules 0 2 ∷ leaves 2 ∷ exits 2 0 ∷ schedules 0 2 ∷ leaves 2 ∷ []

places_move :
    (orphan_places (state_after three_zombies) ≡ 1 ∷ [])
    × (free_places (1 ∷ []) (state_after (three_zombies ++ collects 2 ∷ [])) ≡ none)
    × (orphan_places (state_after (three_zombies ++ fourth)) ≡ 1 ∷ [])
    × (freed_by (free_places (1 ∷ []) (state_after (three_zombies ++ fourth ++ collects 2 ∷ [])))
        ≡ 4 ∷ [])
unfolding replay orphan_places free_places is_orphan
places_move = (refl, refl, refl, refl)
