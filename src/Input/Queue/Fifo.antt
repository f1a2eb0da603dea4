-- ===== src/Input/Queue/Fifo.antt =====
-- What the queue of kernel/src/input/queue.rs promises its callers.
use bedrock_stack.Base.{
  ℕ, ◌+◌, ◌*◌, ◌≤◌, ◌≡◌, refl, subst, inl, inr, true, false, not, some, leb, ◌==◌, arith,
  Bool-cases, get_elem?, take,
}
use bedrock_stack.Input.Queue.{
  Queue, claimed, published, idle, capacity, slot, round, len, unclaimed, claim, write, publish,
  push, pop, take_event, read, release, advance,
}
use bedrock_stack.Input.Queue.Run.{Reachable}
use bedrock_stack.Input.Queue.Invariant.{Agrees, front, at_work, front-ge}
use bedrock_stack.Input.Queue.Preserve.{reachable-IsValid}

module _ {E : Type 0} where
  -- Whatever the order of the callers' steps, the events that `pop` has returned are the first that
  -- were claimed, each once and in the order of their claims, and no more than `capacity` events are
  -- in the queue.
  pub reachable_fifo :
      (s : Queue E) → Reachable s → (s.popped ≡ take s.tail s.claims) × (len s ≤ capacity)
  reachable_fifo s r = let v = reachable-IsValid s r in (v.fifo, omega (arith, v.ordered.1))

  -- A producer that has claimed its position never waits: the slot is empty already.
  pub producer_never_waits :
      (s : Queue E) (pos : ℕ) (e : E)
      → Reachable s
      → s.phase pos ≡ claimed e
      → s.seq (slot pos) ≡ 2 * round pos
  producer_never_waits s pos e r h =
      let v = reachable-IsValid s r in
      let (b, k) = at_work s pos v (λ x q. ground (arith, h, q)) (λ q. ground (arith, h, q)) in
      let a : Agrees s pos (claimed e) =
        subst (Agrees s pos) h (v.agrees pos b (omega (arith, k, v.ordered.1, front-ge s v))) in
      a.1

  -- A `push` whose steps no other caller interrupts returns at once: `false` if and only if `capacity`
  -- events are in the queue, which it then leaves as it is.
  pub push_returns :
      (s : Queue E) (e : E)
      → Reachable s
      → (s' : Queue E) × (push s e ≡ some (not (leb capacity (len s)), s'))
        × (leb capacity (len s) ≡ true → s' ≡ s)
  unfolding push
  push_returns s e r =
      let v = reachable-IsValid s r in
      elim (Bool-cases (leb capacity (len s))) [
        | inl full ↦ (s, rw full refl, λ _. refl)
        | inr room ↦
            let a : Agrees s s.head unclaimed =
              subst (Agrees s s.head) (v.quiet s.head (omega arith)) (
                v.agrees s.head (omega (arith, front-ge s v))
                  (ground (arith, room, front-ge s v))) in
            let empty : (s.seq (slot s.head) == 2 * round s.head) ≡ true = ground (arith, a.1) in
            (
              publish (write (claim s e) s.head e) s.head e,
              rw (room, empty) refl,
              λ full. absurd (ground (arith, full, room)),
            )
      ]

  -- A `pop` whose steps no other caller interrupts, where the producer of the oldest event is done,
  -- returns this event, the one claimed at `tail`, and moves `tail` on by one.
  pub pop_returns :
      (s : Queue E) (e : E)
      → Reachable s
      → s.consumer ≡ idle
      → s.phase s.tail ≡ published e
      → (get_elem? s.claims s.tail ≡ some e)
        × (pop s ≡ some (some e, advance (release (read s e) e) e))
  unfolding pop take_event
  pop_returns s e r c h =
      let v = reachable-IsValid s r in
      let at_tail : front s ≡ s.tail = rw c refl in
      let (l, q, w, g) : Agrees s s.tail (published e) =
        subst (Agrees s s.tail) h
          (v.agrees s.tail (omega (arith, at_tail)) (omega (arith, at_tail))) in
      (
        g,
        let busy : (s.tail == s.head) ≡ false = ground (arith, l) in
            let full : (s.seq (slot s.tail) == 2 * round s.tail + 1) ≡ true = ground (arith, q) in
            rw (busy, full, w, take_event) refl,
      )
