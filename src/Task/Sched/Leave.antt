-- ===== src/Task/Sched/Leave.antt =====
-- kernel/src/task/mod.rs: what `schedule` does with the outgoing task.
use bedrock_stack.Base.{
  ℕ, ◌<◌, ◌≡◌, inl, inr, refl, sym, ◌∙◌, ◌⊎◌, true, false, not, ◌&&◌, Option, none, some, [], ◌∷◌,
  ◌++◌, ltb, ◌==◌, mem, arith, Bool-cases, Option-cases, subst,
}
use bedrock_stack.Task.Sched.{
  ready, Sched, set, put, is_zzz, is_dead, task_no_cpu, task_global_queue, max_cpus, remove_first,
}
use bedrock_stack.Task.Sched.Handover.{
  pick, choose, first, can_run, is_batch, leave, leave_to, stay, mark_queued_from_owner, hand_over,
}
use bedrock_stack.Task.Sched.Lists.{count, count-append, count-remove_first, first_sound, mem-count}
use bedrock_stack.Task.Sched.Invariant.{IsSched, IsKept, parked}
use bedrock_stack.Task.Sched.Wake.{Keeps, park_zombie-Keeps}
use bedrock_stack.Task.Sched.Dispatch.{
  IsHeld, InHand, split_at, owners_differ, set_same, leave_to-IsSched, stay-Keeps,
}
use bedrock_stack.Task.Sched.Started.{started, take-some, started-IsSched}

-- The outgoing task, still owned, at the end of the queue.
abbrev back : ℕ → Sched → Sched
back p s = put p (record (s.tasks p) { state = ready }) s

abbrev sent : ℕ → ℕ → Sched → Sched
sent cpu p s = record (back p s) {
  leaving = set cpu (some p) s.leaving;
  queue = s.queue ++ p ∷ [];
  tasks = set p (record ((back p s).tasks p) { queue_cpu = task_global_queue }) (back p s).tasks;
}

leave-sent :
    (cpu p next : ℕ) (s : Sched)
    → (p == next) ≡ false
    → is_dead (s.tasks p).state ≡ false
    → is_zzz (s.tasks p).state ≡ false
    → (s.tasks p).owner_cpu ≡ cpu
    → (s.tasks p).queue_cpu ≡ task_no_cpu
    → leave cpu (some p) next s ≡ some (sent cpu p s)
unfolding leave mark_queued_from_owner
leave-sent cpu p next s n d z o q = ground (arith, n, d, z, o, q)

sent-IsSched :
    (cpu p : ℕ) (s : Sched)
    → IsSched [] s
    → cpu < max_cpus
    → (s.tasks p).owner_cpu ≡ cpu
    → (count p s.queue ≡ 0) × (parked p s ≡ 0)
    → ((r : ℕ) → s.current cpu ≡ some r → (r == p) ≡ false)
    → IsSched [] (sent cpu p s)
sent-IsSched cpu p s i b o z n =
    let away = leave_to-IsSched cpu p s i b o n in
    let own : (r : ℕ) → ((sent cpu p s).tasks r).owner_cpu ≡ (s.tasks r).owner_cpu = λ r.
      set_same (λ x. x.owner_cpu) p _ (back p s).tasks r (λ e. refl)
      ∙ set_same (λ x. x.owner_cpu) p _ s.tasks r (λ e. refl) in
    record {
      kept = λ r.
          split_at
            (λ x. IsKept ((sent cpu p s).tasks x) (count x (s.queue ++ p ∷ [])) (parked x s) 0) p r
            (let a = count-append p s.queue (p ∷ []) in ground (arith, a, z))
            (λ e.
              let k = i.kept r in
              let a = count-append r s.queue (p ∷ []) in ground (arith, k, a, e));
      free = λ r h. ground (arith, h);
      currents = λ c r h.
          let k = i.currents c r h in
          let a = count-append r s.queue (p ∷ []) in
          let other : (r == p) ≡ false = elim (Bool-cases (c == cpu)) [
            | inl e ↦
                let same : c ≡ cpu = ground (arith, e) in
                n r (subst (λ x. s.current x ≡ some r) same h)
            | inr e ↦ owners_differ s.tasks r p c cpu k.1 o e
          ] in
          ground (arith, k, a, other);
      leavings = λ c r h. let k = away.leavings c r h in (k.0, own r ∙ k.1, k.2);
      sorted = i.sorted;
      unused = λ r h.
          let k = i.unused r h in
          let a = count-append r s.queue (p ∷ []) in
          let other = owners_differ s.tasks r p task_no_cpu cpu k.0 o (ground (arith, b)) in
          (own r ∙ k.0, ground (arith, k, a, other));
    }

leave-Keeps :
    (cpu p next : ℕ) (s : Sched)
    → IsSched [] s
    → InHand cpu p s
    → (p == next) ≡ false
    → s.current cpu ≡ some next
    → Keeps (leave cpu (some p) next s)
unfolding leave
leave-Keeps cpu p next s i k n c =
    let other : (r : ℕ) → s.current cpu ≡ some r → (r == p) ≡ false =
      λ r h. let same : some next ≡ some r = sym c ∙ h in ground (arith, same, n) in
    let away = leave_to-IsSched cpu p s i k.0 k.1 other in
    elim (Bool-cases (is_dead (s.tasks p).state)) [
      | inl d ↦
          let q = i.kept p in
          let (t, e, j) =
            park_zombie-Keeps cpu p (leave_to cpu p s) away (ground (arith, q, k.1, k.2)) in
          (t, ground (arith, n, d, e), j)
      | inr d ↦ elim (Bool-cases (is_zzz (s.tasks p).state)) [
        | inl z ↦ (leave_to cpu p s, ground (arith, n, d, z), away)
        | inr z ↦
            let q = i.kept p in
            (
              sent cpu p s,
              leave-sent cpu p next s n d z k.1 (ground (arith, q, k.2)),
              sent-IsSched cpu p s i k.0 k.1 (k.2, ground (arith, k.3, d, z)) other,
            )
      ]
    ]

choose_from :
    (credit : ℕ) (a b : Option ℕ) (p left : ℕ)
    → choose credit a b ≡ some (p, left)
    → (a ≡ some p) ⊎ (b ≡ some p)
unfolding choose
choose_from credit none none p left e = ground (arith, e)
choose_from credit none (some j) p left e = inr (ground (arith, e))
choose_from credit (some i) none p left e = inl (ground (arith, e))
choose_from credit (some i) (some j) p left e = elim (Bool-cases (ltb 0 credit)) [
  | inl t ↦ inl (ground (arith, e, t))
  | inr t ↦ inr (ground (arith, e, t))
]

-- The choice takes a task that can run from the queue.
pick_sound :
    (cpu p credit : ℕ) (s : Sched)
    → pick cpu s ≡ some (p, credit)
    → ((s.tasks p).owner_cpu ≡ task_no_cpu) × (mem p s.queue ≡ true)
unfolding pick
pick_sound cpu p credit s e =
    elim (choose_from (s.credit cpu)
      (first (λ p. can_run (s.tasks p) && not (is_batch (s.tasks p).prio)) s.queue)
      (first (λ p. can_run (s.tasks p) && is_batch (s.tasks p).prio) s.queue) p credit e) [
        | inl h ↦
            let f =
              first_sound (λ p. can_run (s.tasks p) && not (is_batch (s.tasks p).prio)) p s.queue
                h in
            (ground (arith, f), f.1)
        | inr h ↦
            let f =
              first_sound (λ p. can_run (s.tasks p) && is_batch (s.tasks p).prio) p s.queue h in
            (ground (arith, f), f.1)
      ]

pub hand_over-Keeps :
    (cpu p : ℕ) (s : Sched)
    → IsSched [] s
    → InHand cpu p s
    → s.current cpu ≡ none
    → s.leaving cpu ≡ none
    → Keeps (hand_over cpu (some p) s)
unfolding hand_over
hand_over-Keeps cpu p s i k c l = elim (Option-cases (pick cpu s)) [
  | inl n ↦ let (t, e, j) = stay-Keeps cpu p s i k c l in (t, ground (arith, n, e), j)
  | inr ((next, credit), q) ↦
      let f = pick_sound cpu next credit s q in
      let m = (mem-count next s.queue).0 f.1 in
      let kn = i.kept next in
      let took = take-some cpu next credit s f.0 (ground (arith, kn, m)) in
      let n : (p == next) ≡ false =
        owners_differ s.tasks p next cpu task_no_cpu k.1 f.0 (ground (arith, k.0)) in
      let a = count-remove_first next p s.queue f.1 in
      let same : (started cpu next credit s).tasks p ≡ s.tasks p = ground (arith, n) in
      let hand : InHand cpu p (started cpu next credit s) =
        subst (λ t. IsHeld cpu t (count p (remove_first next s.queue)) (parked p s)) (sym same)
          (k.0, k.1, omega (arith, a, k.2), k.3) in
      let (t, e, j) =
        leave-Keeps cpu p next (started cpu next credit s)
          (started-IsSched cpu next credit s i k.0 f.0 f.1 c l) hand n (ground arith) in
      (t, ground (arith, q, took, e), j)
]

pub idle-Keeps :
    (cpu : ℕ) (s : Sched)
    → IsSched [] s
    → cpu < max_cpus
    → s.current cpu ≡ none
    → s.leaving cpu ≡ none
    → Keeps (hand_over cpu none s)
unfolding hand_over stay leave
idle-Keeps cpu s i b c l = elim (Option-cases (pick cpu s)) [
  | inl n ↦ (s, ground (arith, n), i)
  | inr ((next, credit), q) ↦
      let f = pick_sound cpu next credit s q in
      let m = (mem-count next s.queue).0 f.1 in
      let kn = i.kept next in
      let took = take-some cpu next credit s f.0 (ground (arith, kn, m)) in
      (
        started cpu next credit s,
        ground (arith, q, took),
        started-IsSched cpu next credit s i b f.0 f.1 c l,
      )
]
