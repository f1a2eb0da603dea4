-- ===== src/Input/Queue/Invariant.antt =====
-- The invariant of the queue of kernel/src/input/queue.rs, and that every step keeps it.
use bedrock_stack.Base.{
  ℕ, ◌+◌, ◌*◌, ◌≤◌, ◌<◌, ◌≡◌, ◌≢◌, inl, inr, false, some, ltb, ◌==◌, arith, Bool-cases, length,
  get_elem?, take,
}
use bedrock_stack.Input.Queue.{
  Queue, Phase, Consumer, unclaimed, claimed, written, published, idle, has_read, has_released,
  capacity, slot, round,
}

-- Two positions of the window have different slots.
pub slots_differ :
    (b p q : ℕ)
    → b ≤ p
    → p < b + capacity
    → b ≤ q
    → q < b + capacity
    → p ≢ q
    → (slot p == slot q) ≡ false
slots_differ b p q hp kp hq kq ne = ground (arith, ne)

module _ {E : Type 0} where
  -- The first position whose slot the consumer has not given back.
  abbrev pub front : Queue E → ℕ
  front s = elim s.consumer [ idle ↦ s.tail | has_read e ↦ s.tail | has_released e ↦ s.tail + 1 ]

  -- What the slot of a position holds, as far as its producer has come.
  abbrev pub Agrees : Queue E → ℕ → Phase E → Type 0
  Agrees s p unclaimed = (s.head ≤ p) × (s.seq (slot p) ≡ 2 * round p)
  Agrees s p (claimed e) =
      (p < s.head) × (s.seq (slot p) ≡ 2 * round p) × (get_elem? s.claims p ≡ some e)
  Agrees s p (written e) =
      (p < s.head)
      × (s.seq (slot p) ≡ 2 * round p)
      × (s.event (slot p) ≡ some e)
      × (get_elem? s.claims p ≡ some e)
  Agrees s p (published e) =
      (p < s.head)
      × (s.seq (slot p) ≡ 2 * round p + 1)
      × (s.event (slot p) ≡ some e)
      × (get_elem? s.claims p ≡ some e)

  -- The event that the consumer holds is the one claimed at its position.
  abbrev pub Holds : Queue E → Consumer E → Type 0
  Holds s idle = Unit
  Holds s (has_read e) =
      (s.tail < s.head) × (s.phase s.tail ≡ published e) × (get_elem? s.claims s.tail ≡ some e)
  Holds s (has_released e) =
      (s.tail < s.head) × (s.phase s.tail ≡ published e) × (get_elem? s.claims s.tail ≡ some e)

  pub record IsValid (s : Queue E) : Type 0 where
    pub ordered : (s.tail ≤ s.head) × (s.head ≤ s.tail + capacity)
    pub agrees : (p : ℕ) → front s ≤ p → p < front s + capacity → Agrees s p (s.phase p)
    pub quiet : (p : ℕ) → s.head ≤ p → s.phase p ≡ unclaimed
    pub done : (p : ℕ) → p < front s → (e : E) × (s.phase p ≡ published e)
    pub holds : Holds s s.consumer
    pub counted : length s.claims ≡ s.head
    pub fifo : s.popped ≡ take s.tail s.claims

  pub Agrees-same :
      (s s' : Queue E) (p : ℕ) (ph : Phase E)
      → s'.seq (slot p) ≡ s.seq (slot p)
      → s'.event (slot p) ≡ s.event (slot p)
      → s'.head ≡ s.head
      → s'.claims ≡ s.claims
      → Agrees s p ph
      → Agrees s' p ph
  Agrees-same s s' p unclaimed q v h c a = rw (q, h) a
  Agrees-same s s' p (claimed e) q v h c a = rw (q, h, c) a
  Agrees-same s s' p (written e) q v h c a = rw (q, v, h, c) a
  Agrees-same s s' p (published e) q v h c a = rw (q, v, h, c) a

  -- A position whose producer is at work lies in the window.
  pub at_work :
      (s : Queue E) (p : ℕ)
      → IsValid s
      → ((e : E) → s.phase p ≢ published e)
      → s.phase p ≢ unclaimed
      → (front s ≤ p) × (p < s.head)
  at_work s p v busy some_one = elim (Bool-cases (ltb p (front s))) [
    | inl before ↦ let (e, q) = v.done p (ground arith) in absurd (busy e q)
    | inr behind ↦ elim (Bool-cases (ltb p s.head)) [
      | inl h ↦ (ground arith, ground arith)
      | inr h ↦ absurd (some_one (v.quiet p (ground arith)))
    ]
  ]

  pub front-ge : (s : Queue E) → IsValid s → (s.tail ≤ front s) × (front s ≤ s.head)
  front-ge s v = go s.consumer v.holds
    where
      go :
          (c : Consumer E)
          → Holds s c
          → (s.tail
              ≤ (elim c [ idle ↦ s.tail | has_read e ↦ s.tail | has_released e ↦ s.tail + 1 ]))
            × ((elim c [ idle ↦ s.tail | has_read e ↦ s.tail | has_released e ↦ s.tail + 1 ])
                ≤ s.head)
      go idle h = (omega arith, v.ordered.0)
      go (has_read e) h = (omega arith, v.ordered.0)
      go (has_released e) h = (omega arith, omega (arith, h.0))
