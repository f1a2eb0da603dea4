-- ===== src/Task/Sched/Steps.antt =====
-- kernel/src/task/mod.rs: each step keeps what holds of the scheduler's lists and owners.
use bedrock_stack.Base.{
  ◌⊎◌, All, ℕ, ◌≡◌, inl, inr, refl, ap, true, false, Option, none, some, List, [], ◌∷◌, ◌++◌, arith,
  Option-cases,
}
use bedrock_stack.Task.Sched.{Sched, is_zzz, remove_first}
use bedrock_stack.Task.Sched.Switch.{kill, sleep_until, exit_current, wait_park, consume_zombie}
use bedrock_stack.Task.Sched.Handover.{switched}
use bedrock_stack.Task.Sched.Invariant.{IsSched}
use bedrock_stack.Task.Sched.Wake.{Keeps, wake_sleepers-Wakes}
use bedrock_stack.Task.Sched.Resume.{schedule-Keeps}
use bedrock_stack.Task.Sched.Park.{
  sleep_until-IsSched, wait_park-IsSched, exit_current-IsSched, wait_recheck-Keeps,
}
use bedrock_stack.Task.Sched.Kill.{spares, Decides, kill-Decides}
use bedrock_stack.Task.Sched.Reap.{take_places, drain_reclaim, free_places}
use bedrock_stack.Task.Sched.Reap.Answer.{is_out, drain_reclaim-some, free_places-some}
use bedrock_stack.Task.Sched.Spawn.{spawn-Keeps, switched-IsSched}
use bedrock_stack.Task.Sched.Run.{
  new_task, Event, spawns, sleeps, exits, waits, rechecks, kills, collects, drains, frees, wakes,
  schedules, tolerated, frees_well, leaves, runs, is_none, all_out, allowed, second, state_of,
  perform,
}

-- The current task, and that it is not asleep.
runs-some :
    (cpu : ℕ) (s : Sched)
    → runs cpu s ≡ true
    → (p : ℕ) × (s.current cpu ≡ some p) × (is_zzz (s.tasks p).state ≡ false)
runs-some cpu s h = elim (Option-cases (s.current cpu)) [
  | inl n ↦ ground (arith, h, n)
  | inr (p, q) ↦ (p, q, ground (arith, h, q))
]

is_none-none : (o : Option ℕ) → is_none o ≡ true → o ≡ none
is_none-none none h = refl
is_none-none (some p) h = ground (arith, h)

pub all_out-All : (s : Sched) (l : List ℕ) → all_out s l ≡ true → All (λ p. is_out s p ≡ true) l
all_out-All s [] h = tt
all_out-All s (p ∷ l) h = (ground (arith, h), all_out-All s l (ground (arith, h)))

drain_reclaim-Keeps :
    (cpu : ℕ) (s : Sched)
    → IsSched [] s
    → is_none (s.current cpu) ≡ true
    → all_out s s.reclaim ≡ true
    → Keeps (second (drain_reclaim cpu s))
drain_reclaim-Keeps cpu s i c a =
    let e =
      drain_reclaim-some cpu s i (is_none-none (s.current cpu) c) (all_out-All s s.reclaim a) in
    (
      record s { reclaim = [] },
      ap second e,
      record {
        kept = i.kept;
        free = i.free;
        currents = i.currents;
        leavings = i.leavings;
        unused = i.unused;
        sorted = i.sorted;
      },
    )

free_places-Keeps :
    (places : List ℕ) (s : Sched)
    → IsSched [] s
    → frees_well s (take_places places s.zombies) ≡ true
    → Keeps (second (free_places places s))
free_places-Keeps places s i h = elim (Option-cases (take_places places s.zombies)) [
  | inl n ↦ ground (arith, h, n)
  | inr ((free, left), e) ↦
      let f = free_places-some places free left s i e (all_out-All s free (ground (arith, h, e))) in
      (
        record s { zombies = left },
        ap second f,
        record {
          kept = i.kept;
          free = i.free;
          currents = i.currents;
          leavings = i.leavings;
          unused = i.unused;
          sorted = i.sorted;
        },
      )
]

-- The step succeeds in order, or is a kill that is not tolerated.
abbrev pub Outcome : Event → Sched → Type 0
Outcome e s = Keeps (perform e s) ⊎ ((perform e s ≡ none) × (tolerated e s ≡ false))

kill-Outcome :
    (cpu p : ℕ) (s : Sched) → Decides (spares cpu p s) (kill cpu p s) → Outcome (kills cpu p) s
unfolding perform
kill-Outcome cpu p s d = elim d [
  | inl (t, b, e, j) ↦ inl (t, ap state_of e, j)
  | inr (e, n) ↦ inr (ap state_of e, n)
]

pub perform-Outcome : (e : Event) (s : Sched) → IsSched [] s → allowed e s ≡ true → Outcome e s
unfolding perform allowed consume_zombie
perform-Outcome (spawns prio parent) s i h =
    inl (spawn-Keeps (new_task prio parent) s i (refl, refl) (ground (arith, h)))
perform-Outcome (sleeps cpu deadline pos) s i h =
    let (p, q, z) = runs-some cpu s (ground (arith, h)) in
    inl (
      sleep_until cpu deadline pos s,
      refl,
      sleep_until-IsSched cpu deadline pos p s i q z (ground (arith, h)),
    )
perform-Outcome (exits cpu code) s i h =
    let (p, q, z) = runs-some cpu s h in
    inl (exit_current cpu code s, refl, exit_current-IsSched cpu code p s i q z)
perform-Outcome (waits cpu child) s i h =
    let (p, q, z) = runs-some cpu s (ground (arith, h)) in
    inl (wait_park cpu child s, refl, wait_park-IsSched cpu child p s i q z)
perform-Outcome (rechecks cpu child) s i h = elim (Option-cases (s.current cpu)) [
  | inl n ↦ ground (arith, h, n)
  | inr (p, q) ↦ inl (wait_recheck-Keeps cpu child p s i q (ground (arith, h, q)))
]
perform-Outcome (kills cpu p) s i h =
    kill-Outcome cpu p s (kill-Decides cpu p s i (λ q x. ground (arith, h, x)))
perform-Outcome (collects p) s i h = inl (
  record s { zombies = remove_first p s.zombies; reclaim = s.reclaim ++ p ∷ [] },
  ground (arith, h),
  record {
    kept = i.kept;
    free = i.free;
    currents = i.currents;
    leavings = i.leavings;
    unused = i.unused;
    sorted = i.sorted;
  },
)
perform-Outcome (drains cpu) s i h =
    inl (drain_reclaim-Keeps cpu s i (ground (arith, h)) (ground (arith, h)))
perform-Outcome (frees places) s i h = inl (free_places-Keeps places s i h)
perform-Outcome (wakes now) s i h = let (t, e, j, l) = wake_sleepers-Wakes now s i in inl (t, e, j)
perform-Outcome (schedules now cpu) s i h = inl (
    schedule-Keeps now cpu s i (ground (arith, h))
      (is_none-none (s.leaving cpu) (ground (arith, h))))
perform-Outcome (leaves cpu) s i h = inl (switched cpu s, refl, switched-IsSched cpu s i)
