-- ===== src/Input/Queue.antt =====
-- kernel/src/input/queue.rs: the bounded queue of events with many producers and one consumer. Every
-- atomic access is a step of its own; `push` and `pop` run the steps of one caller in turn. The indices
-- are counters without bound, as the source has them.
pub mod Run
pub mod Invariant
pub mod Produce
pub mod Preserve
pub mod Fifo
mod Tests
use bedrock_stack.Base.{
  ℕ, ◌+◌, ◌-◌, ◌*◌, ◌/◌, ◌%◌, ◌≤◌, ◌≡◌, ◌≢◌, Bool, true, false, Option, none, some, List, [], ◌∷◌,
  ◌++◌, if◌then◌else◌, ltb, leb, ◌==◌,
}

abbrev pub capacity : ℕ
capacity = 256

-- Where the producer of a position stands.
pub data Phase (E : Type 0) : Type 0 where
  unclaimed : Phase E
  claimed : E → Phase E
  written : E → Phase E
  published : E → Phase E

-- Where the consumer stands: between calls, or with an event it has read, or that it has released.
pub data Consumer (E : Type 0) : Type 0 where
  idle : Consumer E
  has_read : E → Consumer E
  has_released : E → Consumer E

-- The slots' round counters and events, `head` and `tail`, and the callers' progress. Two logs follow
-- the run: the events in the order of their claims, and those that `pop` has returned.
pub record Queue (E : Type 0) : Type 0 where
  pub seq : ℕ → ℕ
  pub event : ℕ → Option E
  pub head : ℕ
  pub tail : ℕ
  pub phase : ℕ → Phase E
  pub consumer : Consumer E
  pub claims : List E
  pub popped : List E

abbrev pub slot : ℕ → ℕ
slot pos = pos % capacity

abbrev pub round : ℕ → ℕ
round pos = pos / capacity

abbrev pub set {ℓ} : {A : Type ℓ} → ℕ → A → (ℕ → A) → ℕ → A
set p x f q = if q == p then x else f q

module _ {E : Type 0} where
  -- `InputQueue::new`
  unfoldable pub new : Queue E
  new = record {
    seq = λ _. 0;
    event = λ _. none;
    head = 0;
    tail = 0;
    phase = λ _. unclaimed;
    consumer = idle;
    claims = [];
    popped = [];
  }

  -- The test of `push`, with the `tail` that it has loaded.
  abbrev pub is_full : Queue E → ℕ → Bool
  is_full s t = leb capacity (s.head - t)

  -- The compare-and-exchange that succeeds.
  unfoldable pub claim : Queue E → E → Queue E
  claim s e = record s {
    head = s.head + 1;
    phase = set s.head (claimed e) s.phase;
    claims = s.claims ++ (e ∷ []);
  }

  -- `*slot.event.get() = event`
  unfoldable pub write : Queue E → ℕ → E → Queue E
  write s pos e = record s {
    event = set (slot pos) (some e) s.event;
    phase = set pos (written e) s.phase;
  }

  -- `slot.seq.store(2 * round + 1)`
  unfoldable pub publish : Queue E → ℕ → E → Queue E
  publish s pos e = record s {
    seq = set (slot pos) (2 * round pos + 1) s.seq;
    phase = set pos (published e) s.phase;
  }

  unfoldable pub read : Queue E → E → Queue E
  read s e = record s { consumer = has_read e }

  -- `slot.seq.store(2 * round + 2)`
  unfoldable pub release : Queue E → E → Queue E
  release s e = record s {
    seq = set (slot s.tail) (2 * round s.tail + 2) s.seq;
    consumer = has_released e;
  }

  -- `tail.store(tail + 1)`, and the return.
  unfoldable pub advance : Queue E → E → Queue E
  advance s e = record s { tail = s.tail + 1; consumer = idle; popped = s.popped ++ (e ∷ []) }

  -- `push` without another caller in between: `none` where it would wait for the slot.
  unfoldable pub push : Queue E → E → Option (Bool × Queue E)
  unfolding claim write publish
  push s e =
      if is_full s s.tail
      then some (false, s)
      else if s.seq (slot s.head) == 2 * round s.head
      then some (true, publish (write (claim s e) s.head e) s.head e)
      else none

  take_event : Queue E → Option E → Option (Option E × Queue E)
  unfolding read release advance
  take_event s none = none
  take_event s (some e) = some (some e, advance (release (read s e) e) e)

  -- `pop` without another caller in between: `none` where it would wait for the producer.
  unfoldable pub pop : Queue E → Option (Option E × Queue E)
  unfolding take_event
  pop s =
      if s.tail == s.head
      then some (none, s)
      else if s.seq (slot s.tail) == 2 * round s.tail + 1
      then take_event s (s.event (slot s.tail))
      else none

  -- `len`
  abbrev pub len : Queue E → ℕ
  len s = s.head - s.tail
