-- ===== src/Input/Queue/Preserve.antt =====
-- Every step of the callers of kernel/src/input/queue.rs keeps the invariant of the queue.
use bedrock_stack.Base.{
  ℕ, ◌+◌, ◌*◌, ◌≤◌, ◌<◌, ◌≡◌, refl, sym, ap, subst, ◌∙◌, inl, inr, true, some, [], ◌∷◌, ◌++◌, ◌==◌,
  arith, Bool-cases, get_elem?,
}
use bedrock_stack.Input.Queue.{
  Queue, Phase, unclaimed, claimed, written, published, idle, has_read, has_released, capacity,
  slot, round, read, release, advance,
}
use bedrock_stack.Input.Queue.Run.{
  Step, Reachable, start, after, claims, writes, publishes, reads, releases, advances,
}
use bedrock_stack.Input.Queue.Invariant.{IsValid, Agrees, Holds, front, Agrees-same, slots_differ}
use bedrock_stack.Input.Queue.Produce.{
  take-suc, new-IsValid, claim-IsValid, write-IsValid, publish-IsValid,
}

module _ {E : Type 0} where
  -- A slot that is ready holds the event that was claimed at its position.
  pub ready :
      (s : Queue E) (p : ℕ) (e : E) (ph : Phase E)
      → Agrees s p ph
      → s.seq (slot p) ≡ 2 * round p + 1
      → s.event (slot p) ≡ some e
      → (p < s.head) × (ph ≡ published e) × (get_elem? s.claims p ≡ some e)
  ready s p e unclaimed (l, q) r w = absurd (omega (arith, q, r))
  ready s p e (claimed x) (l, q, g) r w = absurd (omega (arith, q, r))
  ready s p e (written x) (l, q, y, g) r w = absurd (omega (arith, q, r))
  ready s p e (published x) (l, q, y, g) r w =
      let same : x ≡ e = ground (arith, y, w) in (l, ap published same, g ∙ ap some same)

  read-IsValid :
      (s : Queue E) (e : E)
      → IsValid s
      → s.consumer ≡ idle
      → s.seq (slot s.tail) ≡ 2 * round s.tail + 1
      → s.event (slot s.tail) ≡ some e
      → IsValid (read s e)
  unfolding read
  read-IsValid s e v c r w =
      let at_tail : front s ≡ s.tail = rw c refl in
      record {
        ordered = v.ordered;
        agrees = λ p l k.
            Agrees-same s (record s { consumer = has_read e }) p (s.phase p) refl refl refl refl
              (v.agrees p (omega (arith, at_tail, l)) (omega (arith, at_tail, k)));
        quiet = v.quiet;
        done = λ p l. v.done p (omega (arith, at_tail, l));
        holds =
            ready s s.tail e (s.phase s.tail)
              (v.agrees s.tail (omega (arith, at_tail)) (omega (arith, at_tail))) r w;
        counted = v.counted;
        fifo = v.fifo;
      }

  release-Agrees :
      (s : Queue E) (e : E) (p : ℕ)
      → IsValid s
      → front s ≡ s.tail
      → s.tail < s.head
      → s.tail + 1 ≤ p
      → p < s.tail + 1 + capacity
      → Agrees (release s e) p (s.phase p)
  unfolding release
  release-Agrees s e p v at_tail h l k = elim (Bool-cases (p == s.tail + capacity)) [
    | inl next ↦
        let fresh = v.quiet p (ground (arith, v.ordered)) in
        let here : (slot p == slot s.tail) ≡ true = ground arith in
        subst (Agrees (release s e) p) (sym fresh)
          (ground (arith, v.ordered), rw here (ground arith))
    | inr inside ↦
        let apart =
          slots_differ s.tail p s.tail (omega (arith, l)) (ground arith) (omega arith) (omega arith)
            (λ q. omega (arith, q, l)) in
        Agrees-same s (release s e) p (s.phase p) (rw apart refl) refl refl refl
          (v.agrees p (omega (arith, at_tail, l)) (ground (arith, at_tail)))
  ]

  release-IsValid :
      (s : Queue E) (e : E) → IsValid s → s.consumer ≡ has_read e → IsValid (release s e)
  unfolding release
  release-IsValid s e v c =
      let at_tail : front s ≡ s.tail = rw c refl in
      let (h, q, g) : Holds s (has_read e) = subst (Holds s) c v.holds in
      record {
        ordered = v.ordered;
        agrees = λ p l k. release-Agrees s e p v at_tail h l k;
        quiet = v.quiet;
        done = λ p l. elim (Bool-cases (p == s.tail)) [
          | inl at ↦ (e, ap s.phase (ground arith) ∙ q)
          | inr off ↦ v.done p (ground (arith, at_tail))
        ];
        holds = (h, q, g);
        counted = v.counted;
        fifo = v.fifo;
      }

  advance-IsValid :
      (s : Queue E) (e : E) → IsValid s → s.consumer ≡ has_released e → IsValid (advance s e)
  unfolding advance
  advance-IsValid s e v c =
      let behind : front s ≡ s.tail + 1 = rw c refl in
      let (h, q, g) : Holds s (has_released e) = subst (Holds s) c v.holds in
      record {
        ordered = (omega (arith, h), omega (arith, v.ordered.1));
        agrees = λ p l k.
            Agrees-same s (advance s e) p (s.phase p) refl refl refl refl
              (v.agrees p (omega (arith, behind, l)) (omega (arith, behind, k)));
        quiet = v.quiet;
        done = λ p l. v.done p (omega (arith, behind, l));
        holds = tt;
        counted = v.counted;
        fifo = ap (λ r. r ++ (e ∷ [])) v.fifo ∙ sym (take-suc s.claims s.tail e g);
      }

  Step-IsValid : (s s' : Queue E) → IsValid s → Step s s' → IsValid s'
  Step-IsValid s s' v (claims a t e h room) = claim-IsValid a t e v h room
  Step-IsValid s s' v (writes a pos e h r) = write-IsValid a pos e v h
  Step-IsValid s s' v (publishes a pos e h) = publish-IsValid a pos e v h
  Step-IsValid s s' v (reads a e c n r w) = read-IsValid a e v c r w
  Step-IsValid s s' v (releases a e c) = release-IsValid a e v c
  Step-IsValid s s' v (advances a e c) = advance-IsValid a e v c

  -- Whatever the order of the callers' steps, the queue stays valid.
  pub reachable-IsValid : (s : Queue E) → Reachable s → IsValid s
  reachable-IsValid s start = new-IsValid
  reachable-IsValid s (after a b r st) = Step-IsValid a b (reachable-IsValid a r) st
