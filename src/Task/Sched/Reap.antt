-- ===== src/Task/Sched/Reap.antt =====
-- kernel/src/task/mod.rs: `reap_dead`, which frees dead tasks from the idle loop. Freeing a task is an
-- entry in the list of what is freed; what the task owns besides, and the assertions on the page table
-- that is in use, are left out.
use bedrock_stack.Base.{
  ℕ, zero, suc, ◌+◌, Bool, true, not, ◌&&◌, ◌||◌, Option, none, some, List, [], ◌∷◌, ◌++◌,
  if◌then◌else◌, ◌==◌, map,
}
use bedrock_stack.Task.Sched.{Sched, unowned, task_no_cpu, max_cpus, and_then}
use bedrock_stack.Task.Sched.Switch.{on_cpu_below, pid_live}
pub mod Answer
mod Tests

abbrev pub unqueued : Sched → ℕ → Bool
unqueued s p = (s.tasks p).queue_cpu == task_no_cpu

unfoldable pub reap_one : Sched → ℕ → Bool
reap_one s p = unowned s p && unqueued s p && not (on_cpu_below max_cpus p s.current)

abbrev pub reap_all : Sched → List ℕ → Bool
unfolding reap_one
reap_all s [] = true
reap_all s (p ∷ ps) = reap_one s p && reap_all s ps

-- A zombie that no CPU owns, is on no queue, and has no parent that could wait for it.
unfoldable pub is_orphan : Sched → ℕ → Bool
unfolding pid_live
is_orphan s p =
    unowned s p
    && unqueued s p
    && (((s.tasks p).parent_pid == 0) || not (pid_live (s.tasks p).parent_pid s))

-- The places of the orphans, as `enumerate` counts them.
abbrev pub indices : (ℕ → Bool) → List ℕ → List ℕ
indices test [] = []
indices test (p ∷ l) = if test p then 0 ∷ map suc (indices test l) else map suc (indices test l)

-- `Vec::remove`, with its panic.
abbrev pub remove_place : ℕ → List ℕ → Option (ℕ × List ℕ)
remove_place i [] = none
remove_place zero (p ∷ l) = some (p, l)
remove_place (suc i) (p ∷ l) = and_then (remove_place i l) (λ r. some (r.0, p ∷ r.1))

-- The last place first.
unfoldable pub take_places : List ℕ → List ℕ → Option (List ℕ × List ℕ)
take_places [] zombies = some ([], zombies)
take_places (i ∷ places) zombies =
    and_then (take_places places zombies)
      (λ r. and_then (remove_place i r.1) (λ q. some (r.0 ++ q.0 ∷ [], q.1)))

-- What `reap_dead` does comes in parts, since it unlocks its lists in between: the tasks of RECLAIM are
-- freed; the places of the orphans in ZOMBIES are noted; and with ZOMBIES locked anew, what lies at these
-- places is freed. Each part gives the tasks that it frees and the state; `none` is a failed assertion.
unfoldable pub drain_reclaim : ℕ → Sched → Option (List ℕ × Sched)
unfolding reap_all
drain_reclaim cpu s = elim (s.current cpu) [
  | some p ↦ none
  | none ↦ if reap_all s s.reclaim then some (s.reclaim, record s { reclaim = [] }) else none
]

unfoldable pub orphan_places : Sched → List ℕ
orphan_places s = indices (is_orphan s) s.zombies

unfoldable pub free_places : List ℕ → Sched → Option (List ℕ × Sched)
unfolding take_places reap_all
free_places places s =
    and_then (take_places places s.zombies)
      (λ r. if reap_all s r.0 then some (r.0, record s { zombies = r.1 }) else none)
