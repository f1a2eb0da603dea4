-- ===== src/Task/Sched/Resume.antt =====
-- kernel/src/task/mod.rs: a task that a wake-up has met on its way out, and `schedule` as a whole.
use bedrock_stack.Base.{
  ℕ, ◌+◌, ◌<◌, ◌≡◌, inl, inr, refl, sym, ap, ◌∙◌, true, false, ◌&&◌, none, some, List, [], ◌==◌,
  arith, Bool-cases, Option-cases, subst,
}
use bedrock_stack.Task.Sched.{
  Task, running, dead, Parked, Sched, set, put, is_zzz, max_cpus, remove_entry, is_parked,
}
use bedrock_stack.Task.Sched.Handover.{resume, outgoing, dispatch, schedule}
use bedrock_stack.Task.Sched.Lists.{one_if, count, entries, entries-remove_entry, is_parked-entries}
use bedrock_stack.Task.Sched.Invariant.{IsSched, parked}
use bedrock_stack.Task.Sched.Sorted.{is_sorted, is_sorted-remove_entry}
use bedrock_stack.Task.Sched.Wake.{Keeps, wake_sleepers-Wakes, drain_released_wakes-Wakes}
use bedrock_stack.Task.Sched.Dispatch.{IsHeld, InHand, owners_differ, put-IsSched, go_on-IsSched}
use bedrock_stack.Task.Sched.Leave.{hand_over-Keeps, idle-Keeps}

-- A task that is not current, with another state, off one of the lists it is parked on.
pub unpark-IsSched :
    (p : ℕ) (t : Task) (s : Sched) (sl ws : List Parked)
    → IsSched [] s
    → (t.owner_cpu ≡ (s.tasks p).owner_cpu) × (t.queue_cpu ≡ (s.tasks p).queue_cpu)
    → ((c r : ℕ) → s.current c ≡ some r → (r == p) ≡ false)
    → ((r : ℕ) → entries r sl + entries r ws + one_if (p == r) ≡ parked r s)
    → is_sorted sl ≡ true
    → IsSched [] (record (put p t s) { sleeping = sl; waiters = ws })
unpark-IsSched p t s sl ws i o u n q =
    let j = put-IsSched p t s i o.0 o.1 (λ c h. let no = u c p h in ground (arith, no)) in
    record {
      kept = λ r. let k = j.kept r in let a = n r in ground (arith, k, a);
      free = λ r h. ground (arith, h);
      currents = λ c r h.
          let k = j.currents c r h in let a = n r in let b = u c r h in ground (arith, k, a, b);
      leavings = j.leavings;
      sorted = q;
      unused = λ r h. let k = j.unused r h in let a = n r in (k.0, omega (arith, k, a));
    }

-- A task that a wake-up has met is parked, and goes on.
resume-Keeps :
    (cpu p : ℕ) (s : Sched)
    → IsSched [] s
    → InHand cpu p s
    → is_zzz (s.tasks p).state ≡ true
    → s.current cpu ≡ none
    → s.leaving cpu ≡ none
    → Keeps (resume cpu p s)
unfolding resume
resume-Keeps cpu p s i k z c l =
    let t : Task = record (s.tasks p) { wake_pending = false; state = running } in
    let u : (d r : ℕ) → s.current d ≡ some r → (r == p) ≡ false = λ d r h.
      elim (Bool-cases (d == cpu)) [
        | inl e ↦
            let same : d ≡ cpu = ground (arith, e) in
            let no : none ≡ some r = sym (subst (λ x. s.current x ≡ none) (sym same) c) ∙ h in
            ground (arith, no)
        | inr e ↦ owners_differ s.tasks r p d cpu (i.currents d r h).1 k.1 e
      ] in
    let put_back : (sl ws : List Parked)
        → ((r : ℕ) → entries r sl + entries r ws + one_if (p == r) ≡ parked r s)
        → is_sorted sl ≡ true
        → IsSched [] (record (put p t (record s { current = set cpu (some p) s.current })) {
          sleeping = sl;
          waiters = ws;
        }) =
      λ sl ws n q.
        go_on-IsSched cpu p (record (put p t s) { sleeping = sl; waiters = ws })
          (unpark-IsSched p t s sl ws i (refl, refl) u n q) (let a = n p in ground (arith, k, z, a))
          l in
    elim (Bool-cases (is_parked p s.sleeping)) [
      | inl a ↦ (
        record (put p t (record s { current = set cpu (some p) s.current })) {
          sleeping = remove_entry p s.sleeping;
        },
        ground (arith, a),
        put_back (remove_entry p s.sleeping) s.waiters
            (λ r. let b = entries-remove_entry p r s.sleeping a in omega (arith, b))
            (is_sorted-remove_entry p s.sleeping i.sorted),
      )
      | inr a ↦
          let y = (is_parked-entries p s.sleeping).1 in
          let v : is_parked p s.waiters ≡ true =
            (is_parked-entries p s.waiters).1 (ground (arith, a, y, k, z)) in
          (
            record (put p t (record s { current = set cpu (some p) s.current })) {
              waiters = remove_entry p s.waiters;
            },
            ground (arith, a, v),
            put_back s.sleeping (remove_entry p s.waiters)
                (λ r. let b = entries-remove_entry p r s.waiters v in omega (arith, b)) i.sorted,
          )
    ]

taken-IsSched :
    (cpu : ℕ) (s : Sched)
    → IsSched [] s
    → IsSched [] (record s { current = set cpu none s.current })
taken-IsSched cpu s i = record {
  kept = i.kept;
  free = i.free;
  currents = λ c r h. i.currents c r (ground (arith, h));
  leavings = λ c r h. let l = i.leavings c r h in (l.0, l.1, λ x y. l.2 x (ground (arith, y)));
  unused = i.unused;
  sorted = i.sorted;
}

dispatch-Keeps :
    (cpu : ℕ) (s : Sched)
    → IsSched [] s
    → cpu < max_cpus
    → s.leaving cpu ≡ none
    → Keeps (dispatch cpu s)
unfolding dispatch outgoing
dispatch-Keeps cpu s i b l =
    let taken : Sched = record s { current = set cpu none s.current } in
    let it : IsSched [] taken = taken-IsSched cpu s i in
    let off : taken.current cpu ≡ none = ground arith in
    elim (Option-cases (s.current cpu)) [
      | inl n ↦ let (t, e, j) = idle-Keeps cpu taken it b off l in (t, ground (arith, n, e), j)
      | inr (p, q) ↦
          let k = i.currents cpu p q in
          let held : InHand cpu p taken = (k.0, k.1, k.2, ground (arith, k.3)) in
          let u : (c r : ℕ) → taken.current c ≡ some r → (r == p) ≡ false = λ c r h.
            owners_differ s.tasks r p c cpu (it.currents c r h).1 k.1 (ground (arith, h)) in
          elim (Bool-cases (s.tasks p).kill_pending) [
            | inl y ↦
                let t : Task = record (s.tasks p) { kill_pending = false; state = dead } in
                let died : IsSched [] (put p t taken) =
                  put-IsSched p t taken it refl refl
                    (λ c h. let no = u c p h in ground (arith, no)) in
                let here : (put p t taken).tasks p ≡ t = ground arith in
                let hand : InHand cpu p (put p t taken) =
                  subst (λ x. IsHeld cpu x (count p s.queue) (parked p s)) (sym here)
                    (k.0, k.1, k.2, inr (refl, inl refl)) in
                let (v, e, j) = hand_over-Keeps cpu p (put p t taken) died hand off l in
                (v, ground (arith, q, y, e), j)
            | inr y ↦ elim (Bool-cases (is_zzz (s.tasks p).state && (s.tasks p).wake_pending)) [
              | inl w ↦
                  let (v, e, j) = resume-Keeps cpu p taken it held (ground (arith, w)) off l in
                  (v, ground (arith, q, y, w, e), j)
              | inr w ↦
                  let (v, e, j) = hand_over-Keeps cpu p taken it held off l in
                  (v, ground (arith, q, y, w, e), j)
            ]
          ]
    ]

-- `schedule`, on a CPU that is not in the middle of a switch, fails no assertion.
pub schedule-Keeps :
    (now cpu : ℕ) (s : Sched)
    → IsSched [] s
    → cpu < max_cpus
    → s.leaving cpu ≡ none
    → Keeps (schedule now cpu s)
unfolding schedule
schedule-Keeps now cpu s i b l =
    let (t, e, j, x) = wake_sleepers-Wakes now s i in
    let (u, f, k, y) = drain_released_wakes-Wakes t j in
    let (v, g, m) = dispatch-Keeps cpu u k b (ap (λ f. f cpu) y ∙ ap (λ f. f cpu) x ∙ l) in
    (v, ground (arith, e, f, g), m)
