-- ===== src/Services/TimerQueue/Drain.antt =====
-- Which timers fire, and in which order (kernel/src/services/timer_queue.rs).
use bedrock_stack.Base.{
  ℕ, zero, suc, ◌+◌, ◌≤◌, ◌<◌, ◌≡◌, refl, subst, inl, inr, Bool, none, some, List, [], ◌∷◌,
  if◌then◌else◌, leb, arith, Bool-cases, Option-cases, length, All,
}
use bedrock_stack.Services.TimerQueue.{
  TimerEntry, TimerQueue, is_above, heap_pop, len, drain, drain_expired,
}

-- The entries that pass a test.
abbrev pub count : (TimerEntry → Bool) → List TimerEntry → ℕ
count p [] = 0
count p (e ∷ es) = (if p e then 1 else 0) + count p es

-- No deadline is before `d`.
abbrev pub IsFrom : ℕ → List TimerEntry → Type 0
IsFrom d [] = Unit
IsFrom d (e ∷ es) = (d ≤ e.deadline) × IsFrom d es

-- No deadline is later than the one after it.
abbrev pub IsSorted : List TimerEntry → Type 0
IsSorted [] = Unit
IsSorted (e ∷ es) = IsFrom e.deadline es × IsSorted es

IsFrom-le : (d b : ℕ) (es : List TimerEntry) → d ≤ b → IsFrom b es → IsFrom d es
IsFrom-le d b [] h k = tt
IsFrom-le d b (e ∷ es) h k = (omega (arith, h, k.0), IsFrom-le d b es h k.1)

heap_pop-none : (es : List TimerEntry) → heap_pop es ≡ none → es ≡ []
unfolding heap_pop
heap_pop-none [] h = refl
heap_pop-none (e ∷ es) h = elim (Option-cases (heap_pop es)) [
  | inl q ↦ absurd (ground (arith, q, h))
  | inr ((m, rest), q) ↦ absurd (ground (arith, q, h))
]

-- What is popped is below no entry of the rest, and with the rest makes up the heap.
pub record IsPop (es : List TimerEntry) (m : TimerEntry) (rest : List TimerEntry) : Type 0 where
  pub least : IsFrom m.deadline rest
  pub counted : (p : TimerEntry → Bool) → count p es ≡ (if p m then 1 else 0) + count p rest
  pub shorter : length es ≡ suc (length rest)
  pub keeps : (d : ℕ) → IsFrom d es → (d ≤ m.deadline) × IsFrom d rest

IsPop-single : (e : TimerEntry) → IsPop (e ∷ []) e []
IsPop-single e = record { least = tt; counted = λ p. refl; shorter = refl; keeps = λ d h. h }

-- The first entry is popped, where it is above the greatest of the others.
IsPop-first :
    (e x : TimerEntry) (es others : List TimerEntry)
    → e.deadline ≤ x.deadline
    → IsPop es x others
    → IsFrom x.deadline es
    → IsPop (e ∷ es) e es
IsPop-first e x es others h v all = record {
  least = IsFrom-le e.deadline x.deadline es h all;
  counted = λ p. refl;
  shorter = refl;
  keeps = λ d k. k;
}

IsPop-later :
    (e x : TimerEntry) (es others : List TimerEntry)
    → x.deadline ≤ e.deadline
    → IsPop es x others
    → IsPop (e ∷ es) x (e ∷ others)
IsPop-later e x es others h v = record {
  least = (h, v.least);
  counted = λ p. omega (arith, v.counted p);
  shorter = omega (arith, v.shorter);
  keeps = λ d k. let (a, b) = v.keeps d k.1 in (a, (k.0, b));
}

-- All entries come at or after the one that is popped.
heap_pop-IsPop :
    (es : List TimerEntry) (m : TimerEntry) (rest : List TimerEntry)
    → heap_pop es ≡ some (m, rest)
    → IsPop es m rest × IsFrom m.deadline es
unfolding heap_pop
heap_pop-IsPop [] m rest h = absurd (ground (arith, h))
heap_pop-IsPop (e ∷ es) m rest h = elim (Option-cases (heap_pop es)) [
  | inl q ↦
      let alone : es ≡ [] = heap_pop-none es q in
      let (first, left) : (e ≡ m) × ([] ≡ rest) = (ground (arith, q, h), ground (arith, q, h)) in
      rw alone (
        subst (λ r. IsPop (e ∷ []) r rest × IsFrom r.deadline (e ∷ [])) first
          (subst (λ r. IsPop (e ∷ []) e r × IsFrom e.deadline (e ∷ [])) left
            (IsPop-single e, (omega arith, tt))))
  | inr ((x, others), q) ↦
      let (v, all) = heap_pop-IsPop es x others q in
      elim (Bool-cases (is_above e x)) [
        | inl above ↦
            let (first, left) : (e ≡ m) × (es ≡ rest) =
              (ground (arith, q, above, h), ground (arith, q, above, h)) in
            subst (λ r. IsPop (e ∷ es) r rest × IsFrom r.deadline (e ∷ es)) first
              (subst (λ r. IsPop (e ∷ es) e r × IsFrom e.deadline (e ∷ es)) left
                (
                  IsPop-first e x es others (ground arith) v all,
                  (omega arith, IsFrom-le e.deadline x.deadline es (ground arith) all),
                ))
        | inr below ↦
            let (first, left) : (x ≡ m) × ((e ∷ others) ≡ rest) =
              (ground (arith, q, below, h), ground (arith, q, below, h)) in
            subst (λ r. IsPop (e ∷ es) r rest × IsFrom r.deadline (e ∷ es)) first
              (subst (λ r. IsPop (e ∷ es) x r × IsFrom x.deadline (e ∷ es)) left
                (IsPop-later e x es others (ground arith) v, (ground arith, all)))
      ]
]

-- The outcome of a drain: the entries that fire and those that are left.
pub record IsDrain (now : ℕ) (heap fired left : List TimerEntry) : Type 0 where
  pub due : All (λ e. e.deadline ≤ now) fired
  pub later : All (λ e. now < e.deadline) left
  pub sorted : IsSorted fired
  pub counted : (p : TimerEntry → Bool) → count p heap ≡ count p fired + count p left

All-later :
    (now d : ℕ) (es : List TimerEntry) → now < d → IsFrom d es → All (λ e. now < e.deadline) es
All-later now d [] h k = tt
All-later now d (e ∷ es) h k = (omega (arith, h, k.0), All-later now d es h k.1)

drain-IsFrom :
    (now n d : ℕ) (heap : List TimerEntry) → IsFrom d heap → IsFrom d (drain now n heap).0
unfolding drain
drain-IsFrom now zero d heap h = tt
drain-IsFrom now (suc n) d heap h = elim (Option-cases (heap_pop heap)) [
  | inl q ↦ rw (q, drain) tt
  | inr ((m, rest), q) ↦
      let (a, b) = (heap_pop-IsPop heap m rest q).0.keeps d h in
      elim (Bool-cases (leb m.deadline now)) [
        | inl due ↦ rw (q, due, drain) (a, drain-IsFrom now n d rest b)
        | inr later ↦ rw (q, later, drain) tt
      ]
]

drain-IsDrain :
    (now n : ℕ) (heap : List TimerEntry)
    → length heap ≤ n
    → IsDrain now heap (drain now n heap).0 (drain now n heap).1
unfolding drain
drain-IsDrain now zero [] h = record {
  due = tt;
  later = tt;
  sorted = tt;
  counted = λ p. omega arith;
}
drain-IsDrain now zero (e ∷ es) h = absurd (omega (arith, h))
drain-IsDrain now (suc n) heap h = elim (Option-cases (heap_pop heap)) [
  | inl q ↦
      let gone : heap ≡ [] = heap_pop-none heap q in
      rw gone (record { due = tt; later = tt; sorted = tt; counted = λ p. omega arith })
  | inr ((m, rest), q) ↦
      let (v, all) = heap_pop-IsPop heap m rest q in
      elim (Bool-cases (leb m.deadline now)) [
        | inl due ↦
            let w = drain-IsDrain now n rest (omega (arith, v.shorter, h)) in
            rw (q, due, drain)
              (record {
                due = (ground arith, w.due);
                later = w.later;
                sorted = (drain-IsFrom now n m.deadline rest v.least, w.sorted);
                counted = λ p. omega (arith, v.counted p, w.counted p);
              })
        | inr later ↦
            rw (q, later, drain)
              (record {
                due = tt;
                later = All-later now m.deadline heap (ground arith) all;
                sorted = tt;
                counted = λ p. omega arith;
              })
      ]
]

-- Exactly the timers whose deadline has come fire, in the order of their deadlines; those of later
-- deadlines stay, and no entry is lost or doubled.
pub drain_expired-IsDrain :
    (q : TimerQueue) (now : ℕ)
    → IsDrain now q.heap (drain_expired q now).0 (drain_expired q now).1.heap
unfolding drain_expired
drain_expired-IsDrain q now = drain-IsDrain now (len q) q.heap (omega arith)
