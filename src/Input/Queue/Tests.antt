-- ===== src/Input/Queue/Tests.antt =====
-- Runs of the queue of kernel/src/input/queue.rs, and its theorems at them.
use bedrock_stack.Base.{ℕ, ◌≤◌, ◌≡◌, refl, arith, take}
use bedrock_stack.Input.Queue.{
  Queue, capacity, len, new, claim, write, publish, read, release, advance,
}
use bedrock_stack.Input.Queue.Run.{
  Reachable, start, after, claims, writes, publishes, reads, releases, advances,
}
use bedrock_stack.Input.Queue.Fifo.{reachable_fifo}

abbrev empty : Queue ℕ
empty = new

-- Two producers claim positions, the second one finishes first, and the consumer takes the first event.
abbrev one : Queue ℕ
one = claim empty 7

abbrev both : Queue ℕ
both = claim one 8

abbrev second_done : Queue ℕ
second_done = publish (write both 1 8) 1 8

abbrev both_done : Queue ℕ
both_done = publish (write second_done 0 7) 0 7

abbrev popped_one : Queue ℕ
popped_one = advance (release (read both_done 7) 7) 7

both-Reachable : Reachable both
unfolding new claim
both-Reachable =
    after one both (after empty one start (claims empty 0 7 (omega arith) refl))
      (claims one 0 8 (omega arith) refl)

second-Reachable : Reachable second_done
unfolding new claim write publish
second-Reachable =
    after (write both 1 8) second_done
      (after both (write both 1 8) both-Reachable (writes both 1 8 refl refl))
      (publishes (write both 1 8) 1 8 refl)

both_done-Reachable : Reachable both_done
unfolding new claim write publish
both_done-Reachable =
    after (write second_done 0 7) both_done
      (after second_done (write second_done 0 7) second-Reachable
        (writes second_done 0 7 refl refl))
      (publishes (write second_done 0 7) 0 7 refl)

popped_one-Reachable : Reachable popped_one
unfolding new claim write publish read release advance
popped_one-Reachable =
    after (release (read both_done 7) 7) popped_one
      (after (read both_done 7) (release (read both_done 7) 7)
        (after both_done (read both_done 7) both_done-Reachable
          (reads both_done 7 refl (λ e. omega (arith, e)) refl refl))
        (releases (read both_done 7) 7 refl))
      (advances (release (read both_done 7) 7) 7 refl)

reachable_fifo_example :
    (popped_one.popped ≡ take popped_one.tail popped_one.claims) × (len popped_one ≤ capacity)
reachable_fifo_example = reachable_fifo popped_one popped_one-Reachable
