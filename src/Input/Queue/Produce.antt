-- ===== src/Input/Queue/Produce.antt =====
-- The steps of the producers of kernel/src/input/queue.rs keep the invariant of the queue.
use bedrock_stack.Base.{
  ℕ, zero, suc, ◌+◌, ◌*◌, ◌≤◌, ◌≡◌, ◌≢◌, refl, sym, ap, subst, ◌∙◌, inl, inr, true, false, Option,
  some, List, [], ◌∷◌, ◌++◌, ◌==◌, arith, Bool-cases, length, get_elem?, length-append, take,
}
use bedrock_stack.Input.Queue.{
  Queue, Phase, Consumer, unclaimed, claimed, written, published, idle, has_read, has_released,
  slot, round, set, new, is_full, claim, write, publish,
}
use bedrock_stack.Input.Queue.Invariant.{
  IsValid, Agrees, Holds, front, Agrees-same, slots_differ, at_work, front-ge,
}

module _ {A : Type 0} where
  get_elem?-append :
      (xs ys : List A) (i : ℕ) (x : A) → get_elem? xs i ≡ some x → get_elem? (xs ++ ys) i ≡ some x
  get_elem?-append [] ys i x h = absurd (ground arith)
  get_elem?-append (y ∷ xs) ys zero x h = h
  get_elem?-append (y ∷ xs) ys (suc i) x h = get_elem?-append xs ys i x h

  pub get_elem?-length :
      (xs : List A) (x : A) (i : ℕ) → length xs ≡ i → get_elem? (xs ++ (x ∷ [])) i ≡ some x
  get_elem?-length [] x zero h = refl
  get_elem?-length [] x (suc i) h = absurd (omega arith)
  get_elem?-length (y ∷ xs) x zero h = absurd (omega arith)
  get_elem?-length (y ∷ xs) x (suc i) h = get_elem?-length xs x i (omega arith)

  pub take-suc :
      (xs : List A) (i : ℕ) (x : A)
      → get_elem? xs i ≡ some x
      → take (i + 1) xs ≡ take i xs ++ (x ∷ [])
  take-suc [] i x h = absurd (ground arith)
  take-suc (y ∷ xs) zero x h = ground (arith, h)
  take-suc (y ∷ xs) (suc i) x h =
      let more : suc i + 1 ≡ suc (i + 1) = omega arith in
      rw more (ap (λ r. y ∷ r) (take-suc xs i x h))

  take-append_short : (xs ys : List A) (i : ℕ) → i ≤ length xs → take i (xs ++ ys) ≡ take i xs
  take-append_short xs ys zero h = refl
  take-append_short [] ys (suc i) h = absurd (omega arith)
  take-append_short (y ∷ xs) ys (suc i) h =
      ap (λ r. y ∷ r) (take-append_short xs ys i (omega arith))

module _ {E : Type 0} where
  pub new-IsValid : IsValid (new {E = E})
  unfolding new
  new-IsValid = record {
    ordered = (omega arith, omega arith);
    agrees = λ p l h. (omega arith, omega arith);
    quiet = λ p h. refl;
    done = λ p h. absurd (omega arith);
    holds = tt;
    counted = refl;
    fifo = refl;
  }

  Agrees-claim :
      (s : Queue E) (e : E) (p : ℕ) (ph : Phase E)
      → p ≢ s.head
      → Agrees s p ph
      → Agrees (claim s e) p ph
  unfolding claim
  Agrees-claim s e p unclaimed ne a = (omega (arith, a.0, ne), a.1)
  Agrees-claim s e p (claimed x) ne (l, q, g) =
      (omega (arith, l), q, get_elem?-append s.claims (e ∷ []) p x g)
  Agrees-claim s e p (written x) ne (l, q, v, g) =
      (omega (arith, l), q, v, get_elem?-append s.claims (e ∷ []) p x g)
  Agrees-claim s e p (published x) ne (l, q, v, g) =
      (omega (arith, l), q, v, get_elem?-append s.claims (e ∷ []) p x g)

  Holds-claim : (s : Queue E) (e : E) (c : Consumer E) → Holds s c → Holds (claim s e) c
  unfolding claim
  Holds-claim s e idle h = tt
  Holds-claim s e (has_read x) (l, q, g) =
      (omega (arith, l), ground (arith, l, q), get_elem?-append s.claims (e ∷ []) s.tail x g)
  Holds-claim s e (has_released x) (l, q, g) =
      (omega (arith, l), ground (arith, l, q), get_elem?-append s.claims (e ∷ []) s.tail x g)

  pub claim-IsValid :
      (s : Queue E) (t : ℕ) (e : E)
      → IsValid s
      → t ≤ s.tail
      → is_full s t ≡ false
      → IsValid (claim s e)
  unfolding claim
  claim-IsValid s t e v h room = record {
    ordered = (omega (arith, v.ordered.0), ground (arith, room, h));
    agrees = λ p l k. elim (Bool-cases (p == s.head)) [
      | inl at ↦
          let same : p ≡ s.head = ground arith in
          let old =
            subst (λ ph. Agrees s p ph) (v.quiet p (omega (arith, same))) (v.agrees p l k) in
          rw (at, same)
            (
              omega arith,
              subst (λ x. s.seq (slot x) ≡ 2 * round x) same old.1,
              get_elem?-length s.claims e s.head v.counted,
            )
      | inr off ↦ rw off (Agrees-claim s e p (s.phase p) (ground arith) (v.agrees p l k))
    ];
    quiet = λ p l.
        let off : (p == s.head) ≡ false = ground arith in rw off (v.quiet p (omega (arith, l)));
    done = λ p l.
        let off : (p == s.head) ≡ false = ground (arith, front-ge s v) in rw off (v.done p l);
    holds = Holds-claim s e s.consumer v.holds;
    counted = omega (arith, v.counted, length-append s.claims (e ∷ []));
    fifo =
        v.fifo
        ∙ sym (take-append_short s.claims (e ∷ []) s.tail (omega (arith, v.counted, v.ordered.0)));
  }

  -- Moving on one producer that has not published leaves what the consumer holds.
  Holds-set :
      (s : Queue E) (pos : ℕ) (ph : Phase E) (seq' : ℕ → ℕ) (event' : ℕ → Option E)
      → ((e : E) → s.phase pos ≢ published e)
      → (c : Consumer E) → Holds s c
      → Holds (record s { seq = seq'; event = event'; phase = set pos ph s.phase }) c
  Holds-set s pos ph seq' event' busy idle h = tt
  Holds-set s pos ph seq' event' busy (has_read x) (l, q, g) = elim (Bool-cases (s.tail == pos)) [
    | inl at ↦ let same : s.tail ≡ pos = ground arith in absurd (busy x (sym (ap s.phase same) ∙ q))
    | inr off ↦ (l, rw off q, g)
  ]
  Holds-set s pos ph seq' event' busy (has_released x) (l, q, g) =
      elim (Bool-cases (s.tail == pos)) [
        | inl at ↦
            let same : s.tail ≡ pos = ground arith in absurd (busy x (sym (ap s.phase same) ∙ q))
        | inr off ↦ (l, rw off q, g)
      ]

  -- A producer at its position moves on: what its own slot then holds is enough.
  move-IsValid :
      (s : Queue E) (pos : ℕ) (ph : Phase E) (seq' : ℕ → ℕ) (event' : ℕ → Option E)
      → IsValid s
      → ((e : E) → s.phase pos ≢ published e)
      → s.phase pos ≢ unclaimed
      → ((i : ℕ) → (i == slot pos) ≡ false → (seq' i ≡ s.seq i) × (event' i ≡ s.event i))
      → Agrees (record s { seq = seq'; event = event'; phase = set pos ph s.phase }) pos ph
      → IsValid (record s { seq = seq'; event = event'; phase = set pos ph s.phase })
  move-IsValid s pos ph seq' event' v busy some_one others own =
      let (b, h) = at_work s pos v busy some_one in
      record {
        ordered = v.ordered;
        agrees = λ p l k. elim (Bool-cases (p == pos)) [
          | inl at ↦ let same : p ≡ pos = ground arith in rw (at, same) own
          | inr off ↦
              let apart =
                slots_differ (front s) p pos l k b (omega (arith, h, v.ordered.1, front-ge s v))
                  (ground arith) in
              let (q, w) = others (slot p) apart in
              rw off (
                Agrees-same s (record s { seq = seq'; event = event'; phase = set pos ph s.phase })
                  p (s.phase p) q w refl refl (v.agrees p l k))
        ];
        quiet = λ p l. let off : (p == pos) ≡ false = ground (arith, h) in rw off (v.quiet p l);
        done = λ p l. let off : (p == pos) ≡ false = ground (arith, b) in rw off (v.done p l);
        holds = Holds-set s pos ph seq' event' busy s.consumer v.holds;
        counted = v.counted;
        fifo = v.fifo;
      }

  pub write-IsValid :
      (s : Queue E) (pos : ℕ) (e : E)
      → IsValid s
      → s.phase pos ≡ claimed e
      → IsValid (write s pos e)
  unfolding write
  write-IsValid s pos e v h =
      let busy : (x : E) → s.phase pos ≢ published x = λ x q. ground (arith, h, q) in
      let some_one : s.phase pos ≢ unclaimed = λ q. ground (arith, h, q) in
      let (b, k) = at_work s pos v busy some_one in
      let (l, q, g) : Agrees s pos (claimed e) =
        subst (Agrees s pos) h (v.agrees pos b (omega (arith, k, v.ordered.1, front-ge s v))) in
      let here : (slot pos == slot pos) ≡ true = ground arith in
      move-IsValid s pos (written e) s.seq (set (slot pos) (some e) s.event) v busy some_one
        (λ i off. (refl, rw off refl)) (l, q, rw here refl, g)

  pub publish-IsValid :
      (s : Queue E) (pos : ℕ) (e : E)
      → IsValid s
      → s.phase pos ≡ written e
      → IsValid (publish s pos e)
  unfolding publish
  publish-IsValid s pos e v h =
      let busy : (x : E) → s.phase pos ≢ published x = λ x q. ground (arith, h, q) in
      let some_one : s.phase pos ≢ unclaimed = λ q. ground (arith, h, q) in
      let (b, k) = at_work s pos v busy some_one in
      let (l, q, w, g) : Agrees s pos (written e) =
        subst (Agrees s pos) h (v.agrees pos b (omega (arith, k, v.ordered.1, front-ge s v))) in
      let here : (slot pos == slot pos) ≡ true = ground arith in
      move-IsValid s pos (published e) (set (slot pos) (2 * round pos + 1) s.seq) s.event v busy
        some_one (λ i off. (rw off refl, refl)) (l, rw here refl, w, g)
