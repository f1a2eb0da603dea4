-- ===== src/Task/Sched/Safe.antt =====
-- kernel/src/task/mod.rs: what holds of the scheduler whatever has happened.
use bedrock_stack.Base.{
  ap, ◌==◌, Bool, ◌++◌, List, none, mem, not, ◌&&◌, ◌||◌, ℕ, ◌+◌, ◌≤◌, ◌≡◌, ◌↔◌, inl, inr, refl,
  sym, ◌∙◌, ◌⊎◌, true, false, some, [], arith, subst,
}
use bedrock_stack.Task.Sched.{task_no_cpu, Sched, is_zzz, task_global_queue}
use bedrock_stack.Task.Sched.Switch.{pid_live}
use bedrock_stack.Task.Sched.Lists.{count}
use bedrock_stack.Task.Sched.Invariant.{IsSched, parked}
use bedrock_stack.Task.Sched.Kill.{some_injective}
use bedrock_stack.Task.Sched.Reap.{drain_reclaim, orphan_places, free_places, is_orphan}
use bedrock_stack.Task.Sched.Reap.Answer.{
  is_out, orphans, rest, mem-orphans, mem-rest, mem-All, drain_reclaim-some, free_places-orphans,
}
use bedrock_stack.Task.Sched.Steps.{perform-Outcome, all_out-All}
use bedrock_stack.Task.Sched.Run.{
  all_out, Event, allowed, tolerated, perform, boot, Reach, start, later,
}

boot-IsSched : (debug : Bool) → IsSched [] (boot debug)
boot-IsSched debug = record {
  kept = λ p. inl (refl, refl, omega arith);
  free = λ p h. refl;
  currents = λ c p h. ground (arith, h);
  leavings = λ c p h. ground (arith, h);
  unused = λ p h. (refl, refl);
  sorted = refl;
}

pub Reach-IsSched : {s : Sched} → Reach s → IsSched [] s
Reach-IsSched (start debug) = boot-IsSched debug
Reach-IsSched (later {s} {t} e r a q) = elim (perform-Outcome e s (Reach-IsSched r) a) [
  | inl (u, p, j) ↦
      let same : some u ≡ some t = sym p ∙ q in subst (IsSched []) (some_injective same) j
  | inr (p, n) ↦ let no : none ≡ some t = sym p ∙ q in ground (arith, no)
]

-- Whatever has happened, each step that a task, an idle loop or a CPU can take next succeeds: no
-- assertion about owners, queue marks or parked lists fails, nor a debug assertion of `park_zombie`. Three
-- steps have conditions: in a debug build, `kill` meets no task on a list that another CPU than its own
-- still owns (in a release build it may); the first part of `reap_dead` runs where the tasks of RECLAIM are
-- off their CPUs, off the ready queue and not parked; and its last part where the tasks at the places that
-- were noted are there and are so too.
pub perform_succeeds :
    (s : Sched) (e : Event)
    → Reach s
    → allowed e s ≡ true
    → tolerated e s ≡ true
    → (t : Sched) × (perform e s ≡ some t)
perform_succeeds s e r a k = elim (perform-Outcome e s (Reach-IsSched r) a) [
  | inl (t, p, j) ↦ (t, p)
  | inr (p, n) ↦ ground (arith, k, n)
]

-- The CPU runs the task, or is switching away from it.
abbrev pub Holds : ℕ → ℕ → Sched → Type 0
Holds c p s = (s.current c ≡ some p) ⊎ (s.leaving c ≡ some p)

-- No task is ever on two CPUs, running or with its context not yet saved, and its owner is the CPU it
-- is on.
pub one_cpu :
    (s : Sched) (c d p : ℕ)
    → Reach s
    → Holds c p s
    → Holds d p s
    → (c ≡ d) × ((s.tasks p).owner_cpu ≡ c)
one_cpu s c d p r h k =
    let i = Reach-IsSched r in
    let own : (x : ℕ) → Holds x p s → (s.tasks p).owner_cpu ≡ x =
      λ x y. elim y [ inl a ↦ (i.currents x p a).1 | inr a ↦ (i.leavings x p a).1 ] in
    (sym (own c h) ∙ own d k, own c h)

-- A task is at most once on the ready queue and the parked lists together, and its queue mark says
-- whether it is on the queue; a task that runs awake is on none of them.
pub one_list :
    (s : Sched) (p : ℕ)
    → Reach s
    → (count p s.queue + parked p s ≤ 1)
      × (((s.tasks p).queue_cpu ≡ task_global_queue) ↔ (count p s.queue ≡ 1))
      × ((c : ℕ)
          → s.current c ≡ some p
          → is_zzz (s.tasks p).state ≡ false
          → count p s.queue + parked p s ≡ 0)
one_list s p r =
    let i = Reach-IsSched r in
    let k = i.kept p in
    (
      ground (arith, k),
      (λ h. ground (arith, k, h), λ h. ground (arith, k, h)),
      λ c h z. let m = i.currents c p h in ground (arith, m, z),
    )

out-Holds :
    (s : Sched) (p : ℕ)
    → IsSched [] s
    → is_out s p ≡ true
    → (count p s.queue ≡ 0) × ((c : ℕ) → ¬ Holds c p s)
out-Holds s p i h =
    let k = i.kept p in
    let o : (s.tasks p).owner_cpu ≡ task_no_cpu = ground (arith, h) in
    (
      ground (arith, k, h),
      λ c x. elim x [
        | inl a ↦ let j = i.currents c p a in ground (arith, o, j)
        | inr a ↦ let j = i.leavings c p a in ground (arith, o, j.0, j.1)
      ],
    )

-- A task that is on no CPU and no queue, and has no parent that lives.
abbrev pub is_abandoned : Sched → ℕ → Bool
is_abandoned s p =
    is_out s p && (((s.tasks p).parent_pid == 0) || not (pid_live (s.tasks p).parent_pid s))

orphan_is : (s : Sched) (p : ℕ) → is_orphan s p ≡ is_abandoned s p
unfolding is_orphan
orphan_is s p = ground arith

-- `reap_dead` on an idle CPU, in its parts, with any steps of other CPUs in between. It begins in a state
-- `s` in which the tasks of RECLAIM are off their CPUs and the ready queue, and notes the places of the
-- zombies there that are abandoned; it ends in a state `u` in which ZOMBIES has lost no entry and may have
-- new ones at its end, and no zombie of `s` that was off its CPU and the ready queue has come back to one.
-- Then no assertion fails: the first part frees the tasks of RECLAIM, the last one exactly the abandoned
-- zombies of `s`. What is freed is at that time on no CPU, neither running nor with its context unsaved,
-- and not on the ready queue; all other zombies stay. (Where another CPU has collected a zombie in between,
-- the places have moved, and this need not hold.)
pub reap_dead_frees :
    (cpu : ℕ) (s u : Sched) (more : List ℕ)
    → Reach s
    → Reach u
    → s.current cpu ≡ none
    → all_out s s.reclaim ≡ true
    → u.zombies ≡ s.zombies ++ more
    → ((p : ℕ) → mem p s.zombies ≡ true → is_out s p ≡ true → is_out u p ≡ true)
    → (freed : List ℕ) × (t : Sched) × (drain_reclaim cpu s
        ≡ some (s.reclaim, record s { reclaim = [] }))
      × (free_places (orphan_places s) u ≡ some (freed, t))
      × ((p : ℕ)
          → (mem p freed ≡ (mem p s.zombies && is_abandoned s p))
            × (mem p t.zombies ≡ ((mem p s.zombies && not (is_abandoned s p)) || mem p more)))
      × ((p : ℕ) → mem p s.reclaim ≡ true → (count p s.queue ≡ 0) × ((c : ℕ) → ¬ Holds c p s))
      × ((p : ℕ) → mem p freed ≡ true → (count p u.queue ≡ 0) × ((c : ℕ) → ¬ Holds c p u))
reap_dead_frees cpu s u more r v c h z o =
    let i = Reach-IsSched r in
    let j = Reach-IsSched v in
    let a = all_out-All s s.reclaim h in
    let out : (p : ℕ) → mem p (orphans s) ≡ true → is_out u p ≡ true = λ p m.
      let both = mem-orphans s p in
      let why = orphan_is s p in o p (ground (arith, both, m)) (ground (arith, both, m, why)) in
    (
      orphans s,
      record u { zombies = rest s more },
      drain_reclaim-some cpu s i c a,
      free_places-orphans s u more j z out,
      λ p.
          let why = orphan_is s p in
          (
            mem-orphans s p ∙ ap (λ b. mem p s.zombies && b) why,
            mem-rest s more p ∙ ap (λ b. (mem p s.zombies && not b) || mem p more) why,
          ),
      λ p m. out-Holds s p i (mem-All (is_out s) p s.reclaim a m),
      λ p m. out-Holds u p j (out p m),
    )
