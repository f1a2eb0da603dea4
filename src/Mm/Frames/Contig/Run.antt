-- ===== src/Mm/Frames/Contig/Run.antt =====
-- Where the runs that `find_run` returns lie (kernel/src/mm/phys_alloc.rs).
use bedrock_stack.Base.{
  ℕ, zero, suc, ◌+◌, ◌-◌, ◌*◌, ◌%◌, ◌≤◌, ◌<◌, ◌≡◌, refl, sym, ap, subst, ◌∙◌, ◌⊎◌, inl, inr, Bool,
  true, false, some, if◌then◌else◌, ltb, leb, ◌==◌, arith, Bool-cases, Option-cases,
}
use native.Mathlib.Nat.{add-mod-mod, mod-add-mod, mod_self}
use bedrock_stack.Mm.Frames.{word_bits}
use bedrock_stack.Mm.Frames.Contig.Search.{
  Window, Run, emit, start_word, end_word, nbits, word, is_zero, lead, run_end, scan_bits,
  free_word, mixed_word, step_word, scan_words, find_run,
}

aligned_up : (rs a : ℕ) → 0 < a → (rs + (a - rs % a) % a) % a ≡ 0
aligned_up rs zero h = absurd (omega arith)
aligned_up rs (suc a) h =
    let room : rs % suc a + (suc a - rs % suc a) ≡ suc a = omega arith in
    add-mod-mod rs (suc a - rs % suc a) (suc a)
    ∙ sym (mod-add-mod rs (suc a) (suc a - rs % suc a))
    ∙ ap (λ k. k % suc a) room
    ∙ mod_self (suc a)

module _ (lo count align : ℕ) (positive : 0 < align) where
  -- A place at or behind `lo` and aligned.
  abbrev IsPlace : ℕ → Type 0
  IsPlace a = (lo ≤ a) × (a % align ≡ 0)

  -- A carried run is empty or starts at or behind `lo`.
  abbrev IsCarry : Run → Type 0
  IsCarry r = (r.run_len ≡ 0) ⊎ (lo ≤ r.run_start)

  abbrev IsOutcome : ℕ ⊎ Run → Type 0
  IsOutcome (inl a) = IsPlace a
  IsOutcome (inr r) = IsCarry r

  emit-IsPlace : (rs rl a : ℕ) → lo ≤ rs → emit count align rs rl ≡ some a → IsPlace a
  unfolding emit
  emit-IsPlace rs rl a h e =
      let q : a ≡ rs + (align - rs % align) % align = ground (arith, e) in
      (omega arith, ap (λ k. k % align) q ∙ aligned_up rs align positive)

  run_end-ge : (w : ℕ → Bool) (i n : ℕ) → i ≤ run_end w i n
  unfolding run_end
  run_end-ge w i zero = omega arith
  run_end-ge w i (suc n) = ground (arith, run_end-ge w (i + 1) n)

  scan_bits-IsOutcome :
      (w : ℕ → Bool) (base nb n i : ℕ) (r : Run)
      → ((j : ℕ) → w j ≡ false → lo ≤ base + j)
      → IsCarry r
      → IsOutcome (scan_bits count align w base nb n i r)
  unfolding scan_bits
  scan_bits-IsOutcome w base nb zero i r f c = c
  scan_bits-IsOutcome w base nb (suc n) i r f c = elim (Bool-cases (ltb i nb)) [
    | inr out ↦ rw (IsOutcome, out) c
    | inl inside ↦ elim (Bool-cases (w i)) [
      | inl used ↦ rw (IsOutcome, inside, used) (scan_bits-IsOutcome w base nb n (i + 1) r f c)
      | inr free ↦ elim (Option-cases (emit count align (base + i) (run_end w i (nb - i) - i))) [
        | inr (a, e) ↦
            rw (IsOutcome, inside, free, e)
              (emit-IsPlace (base + i) (run_end w i (nb - i) - i) a (f i free) e)
        | inl e ↦
            rw (IsOutcome, inside, free, e)
              (scan_bits-IsOutcome w base nb n (run_end w i (nb - i))
                (record { run_start = base + i; run_len = run_end w i (nb - i) - i }) f
                (inr (f i free)))
      ]
    ]
  ]

  free_word-IsOutcome :
      (base nb : ℕ) (r : Run) → lo ≤ base → IsCarry r → IsOutcome (free_word count align base nb r)
  unfolding free_word
  free_word-IsOutcome base nb r h c =
      let start : lo ≤ (if r.run_len == 0 then base else r.run_start) = elim c [
        | inl e ↦ ground arith
        | inr e ↦ ground arith
      ] in
      elim (Option-cases
        (emit count align (if r.run_len == 0 then base else r.run_start) (r.run_len + nb))) [
          | inr (a, e) ↦
              rw (IsOutcome, e)
                (emit-IsPlace (if r.run_len == 0 then base else r.run_start) (r.run_len + nb) a
                  start e)
          | inl e ↦ rw (IsOutcome, e) (inr start)
        ]

  mixed_word-IsOutcome :
      (w : ℕ → Bool) (base nb : ℕ) (r : Run)
      → ((j : ℕ) → w j ≡ false → lo ≤ base + j)
      → IsCarry r
      → IsOutcome (mixed_word count align w base nb r)
  unfolding mixed_word
  mixed_word-IsOutcome w base nb r f c = elim (Bool-cases (r.run_len == 0)) [
    | inl z ↦ rw z (scan_bits-IsOutcome w base nb word_bits 0 r f c)
    | inr nz ↦
        let start : lo ≤ r.run_start = elim c [ inl e ↦ ground arith | inr e ↦ e ] in
        elim (Option-cases (emit count align r.run_start (r.run_len + lead w 0 word_bits))) [
          | inr (a, e) ↦
              rw (nz, e) (emit-IsPlace r.run_start (r.run_len + lead w 0 word_bits) a start e)
          | inl e ↦
              rw (nz, e)
                (scan_bits-IsOutcome w base nb word_bits (lead w 0 word_bits + 1)
                  (record { run_start = r.run_start; run_len = 0 }) f (inl refl))
        ]
  ]

is_zero-false : (w : ℕ → Bool) (n j : ℕ) → is_zero w n ≡ true → j < n → w j ≡ false
unfolding is_zero
is_zero-false w zero j h k = absurd (omega arith)
is_zero-false w (suc n) j h k = elim (Bool-cases (j == n)) [
  | inl e ↦ ground arith
  | inr e ↦ is_zero-false w n j (ground arith) (ground arith)
]

-- The mask keeps the bits before the window out of the start word.
free_bit-ge :
    (v : Window) (wi j : ℕ) → start_word v ≤ wi → word v wi j ≡ false → v.lo ≤ wi * word_bits + j
unfolding word
free_bit-ge v wi j h e = ground arith

module _ (v : Window) (count align : ℕ) (positive : 0 < align) where
  step_word-IsOutcome :
      (wi : ℕ) (r : Run)
      → start_word v ≤ wi
      → IsCarry v.lo count align positive r
      → IsOutcome v.lo count align positive (step_word v count align wi r)
  unfolding step_word
  step_word-IsOutcome wi r h c = elim (Bool-cases (is_zero (word v wi) word_bits)) [
    | inl z ↦
        let first = is_zero-false (word v wi) word_bits 0 z (omega arith) in
        rw z (
          free_word-IsOutcome v.lo count align positive (wi * word_bits) (nbits v wi) r
            (omega (arith, free_bit-ge v wi 0 h first)) c)
    | inr nz ↦ rw nz (
        mixed_word-IsOutcome v.lo count align positive (word v wi) (wi * word_bits) (nbits v wi) r
          (λ j e. free_bit-ge v wi j h e) c)
  ]

  scan_words-IsPlace :
      (wi n : ℕ) (r : Run) (a : ℕ)
      → start_word v ≤ wi
      → IsCarry v.lo count align positive r
      → scan_words v count align wi n r ≡ some a
      → (v.lo ≤ a) × (a % align ≡ 0)
  unfolding scan_words
  scan_words-IsPlace wi zero r a h c e = absurd (ground arith)
  scan_words-IsPlace wi (suc n) r a h c e =
      go (step_word v count align wi r) refl
        (λ r'. scan_words-IsPlace (wi + 1) n r' a (omega arith))
    where
      go :
          (o : ℕ ⊎ Run)
          → step_word v count align wi r ≡ o
          → ((r' : Run)
              → IsCarry v.lo count align positive r'
              → scan_words v count align (wi + 1) n r' ≡ some a
              → (v.lo ≤ a) × (a % align ≡ 0))
          → (v.lo ≤ a) × (a % align ≡ 0)
      go (inl b) q rest =
          let place =
            subst (IsOutcome v.lo count align positive) q (step_word-IsOutcome wi r h c) in
          let same : b ≡ a = ground (arith, e, q) in
          subst (IsPlace v.lo count align positive) same place
      go (inr r') q rest =
          rest r' (subst (IsOutcome v.lo count align positive) q (step_word-IsOutcome wi r h c))
            (ground (arith, e, q))

  -- A run that `find_run` returns starts at or behind the window's start, and is aligned.
  pub find_run-IsPlace : (a : ℕ) → find_run v count align ≡ some a → (v.lo ≤ a) × (a % align ≡ 0)
  unfolding find_run
  find_run-IsPlace a e = elim (Bool-cases (leb v.hi v.lo)) [
    | inl out ↦ absurd (ground arith)
    | inr inside ↦
        scan_words-IsPlace (start_word v) (end_word v - start_word v)
          (record { run_start = 0; run_len = 0 }) a (omega arith) (inl refl) (ground arith)
  ]
