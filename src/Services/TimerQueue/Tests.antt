-- ===== src/Services/TimerQueue/Tests.antt =====
-- Runs of the timer queue of kernel/src/services/timer_queue.rs, and its theorem at one.
use bedrock_stack.Base.{ℕ, ◌≡◌, refl, true, none, some, [], ◌∷◌}
use bedrock_stack.Services.TimerQueue.{
  TimerEntry, TimerQueue, new, insert, cancel, remove, next_deadline, drain_expired,
}
use bedrock_stack.Services.TimerQueue.Drain.{IsDrain, drain_expired-IsDrain}

abbrev timer : ℕ → ℕ → TimerEntry
timer id deadline = record {
  id = id;
  deadline = deadline;
  period = none;
  callback = 0;
  context = 0;
}

abbrev pending : TimerQueue
pending = insert (insert (insert new (timer 1 30)) (timer 2 10)) (timer 3 50)

pending_next : next_deadline pending ≡ some 10
unfolding next_deadline
pending_next = refl

pending_fires :
    drain_expired pending 40 ≡ (timer 2 10 ∷ timer 1 30 ∷ [], record { heap = timer 3 50 ∷ [] })
unfolding drain_expired
pending_fires = refl

pending_cancelled : cancel pending 1 ≡ (true, record { heap = timer 3 50 ∷ timer 2 10 ∷ [] })
unfolding cancel
pending_cancelled = refl

pending_removed :
    remove pending 2 ≡ (some (timer 2 10), record { heap = timer 3 50 ∷ timer 1 30 ∷ [] })
unfolding remove
pending_removed = refl

drain_expired-IsDrain_example :
    IsDrain 40 pending.heap (drain_expired pending 40).0 (drain_expired pending 40).1.heap
drain_expired-IsDrain_example = drain_expired-IsDrain pending 40
