-- ===== src/Input/Queue/Run.antt =====
-- The steps of the callers of kernel/src/input/queue.rs, in any order.
use bedrock_stack.Base.{ℕ, ◌+◌, ◌*◌, ◌≤◌, ◌≡◌, ◌≢◌, false, some}
use bedrock_stack.Input.Queue.{
  Queue, claimed, written, idle, has_read, has_released, slot, round, new, is_full, claim, write,
  publish, read, release, advance,
}

module _ {E : Type 0} where
  -- A producer may have loaded an older `tail`. A `push` that finds the queue full changes nothing.
  pub data Step : Queue E → Queue E → Type 0 where
    claims : (s : Queue E) (t : ℕ) (e : E) → t ≤ s.tail → is_full s t ≡ false → Step s (claim s e)
    writes :
        (s : Queue E) (pos : ℕ) (e : E)
        → s.phase pos ≡ claimed e
        → s.seq (slot pos) ≡ 2 * round pos
        → Step s (write s pos e)
    publishes : (s : Queue E) (pos : ℕ) (e : E) → s.phase pos ≡ written e → Step s (publish s pos e)
    reads :
        (s : Queue E) (e : E)
        → s.consumer ≡ idle
        → s.tail ≢ s.head
        → s.seq (slot s.tail) ≡ 2 * round s.tail + 1
        → s.event (slot s.tail) ≡ some e
        → Step s (read s e)
    releases : (s : Queue E) (e : E) → s.consumer ≡ has_read e → Step s (release s e)
    advances : (s : Queue E) (e : E) → s.consumer ≡ has_released e → Step s (advance s e)

  -- What the callers can reach from the empty queue.
  pub data Reachable : Queue E → Type 0 where
    start : Reachable new
    after : (s s' : Queue E) → Reachable s → Step s s' → Reachable s'
