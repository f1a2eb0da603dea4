-- ===== src/Mm/Frames/Count/Exact.antt =====
-- The scan by words counts the free frames below `total_frames` (kernel/src/mm/phys_alloc.rs).
use bedrock_stack.Base.{
  ℕ, zero, suc, ◌+◌, ◌-◌, ◌*◌, ◌/◌, ◌%◌, ◌≤◌, ◌<◌, ◌≡◌, ◌∙◌, ap, subst, inl, inr, refl, Bool, true,
  false, ◌&&◌, ◌==◌, arith, Bool-cases,
}
use bedrock_stack.Mm.Frames.{Frames, word_bits, total_words}
use bedrock_stack.Mm.Frames.Count.{
  count_ones, word_mask, count_word, count_words, count_free_locked,
}
use bedrock_stack.Mm.Frames.Count.Bits.{free_below, free_below_mono}

-- Over `n` bits that the mask covers, the set bits and the free frames make up the mask.
count_covered :
    (used mask : ℕ → Bool) (base n : ℕ)
    → ((j : ℕ) → j < n → mask j ≡ true)
    → (count_ones (λ j. used (base + j) && mask j) n + free_below used (base + n)
        ≡ count_ones mask n + free_below used base)
unfolding count_ones free_below
count_covered used mask base zero h = let e : base + 0 ≡ base = omega arith in rw e (omega arith)
count_covered used mask base (suc n) h =
    let e : base + suc n ≡ suc (base + n) = omega arith in
    rw e (
      ground (arith, count_covered used mask base n (λ j hj. h j (omega arith)), h n (omega arith)))

-- Bits beyond the mask count on neither side.
count_uncovered :
    (used mask : ℕ → Bool) (base n k : ℕ)
    → ((j : ℕ) → n ≤ j → j < n + k → mask j ≡ false)
    → (count_ones mask (n + k) ≡ count_ones mask n)
      × (count_ones (λ j. used (base + j) && mask j) (n + k)
          ≡ count_ones (λ j. used (base + j) && mask j) n)
unfolding count_ones
count_uncovered used mask base n zero h = let e : n + 0 ≡ n = omega arith in rw e (refl, refl)
count_uncovered used mask base n (suc k) h =
    let e : n + suc k ≡ suc (n + k) = omega arith in
    let r = count_uncovered used mask base n k (λ j lo hi. h j lo (omega arith)) in
    rw e (ground (arith, r, h (n + k) (omega arith) (omega arith)))

-- One word, of which the mask covers the first `n` bits.
count_word_lem :
    (s : Frames) (wi n k : ℕ)
    → n + k ≡ word_bits
    → ((j : ℕ) → j < n → word_mask s wi j ≡ true)
    → ((j : ℕ) → n ≤ j → j < n + k → word_mask s wi j ≡ false)
    → count_word s wi + free_below s.used (wi * word_bits) ≡ free_below s.used (wi * word_bits + n)
unfolding count_word
count_word_lem s wi n k e c u =
    let r = count_uncovered s.used (word_mask s wi) (wi * word_bits) n k u in
    let q = count_covered s.used (word_mask s wi) (wi * word_bits) n c in
    let a : count_ones (word_mask s wi) word_bits ≡ count_ones (word_mask s wi) n =
      subst (λ t. count_ones (word_mask s wi) t ≡ count_ones (word_mask s wi) n) e r.0 in
    let b : count_ones (λ j. s.used (wi * word_bits + j) && word_mask s wi j) word_bits
        ≡ count_ones (λ j. s.used (wi * word_bits + j) && word_mask s wi j) n =
      subst
        (λ t.
          count_ones (λ j. s.used (wi * word_bits + j) && word_mask s wi j) t
          ≡ count_ones (λ j. s.used (wi * word_bits + j) && word_mask s wi j) n)
        e r.1 in
    let mono = free_below_mono s.used (wi * word_bits) n in omega (arith, a, b, q, mono)

count_word_full :
    (s : Frames) (wi : ℕ)
    → (wi + 1) * word_bits ≤ s.total
    → count_word s wi + free_below s.used (wi * word_bits)
      ≡ free_below s.used ((wi + 1) * word_bits)
unfolding word_mask
count_word_full s wi h =
    let e : (wi + 1) * word_bits ≡ wi * word_bits + word_bits = omega arith in
    rw e (
      count_word_lem s wi word_bits 0 (omega arith) (λ j hj. ground arith)
        (λ j lo hi. absurd (omega arith)))

count_word_last :
    (s : Frames) (wi : ℕ)
    → wi * word_bits < s.total
    → s.total < (wi + 1) * word_bits
    → count_word s wi + free_below s.used (wi * word_bits) ≡ free_below s.used s.total
unfolding word_mask
count_word_last s wi lo hi =
    let rem = s.total % word_bits in
    let e : wi * word_bits + rem ≡ s.total = omega arith in
    subst (λ t. count_word s wi + free_below s.used (wi * word_bits) ≡ free_below s.used t) e
      (count_word_lem s wi rem (word_bits - rem) (omega arith) (λ j hj. ground arith)
        (λ j l h. ground arith))

count_words_full :
    (s : Frames) (n : ℕ)
    → n * word_bits ≤ s.total
    → count_words s n ≡ free_below s.used (n * word_bits)
unfolding count_words
count_words_full s zero h = unfold free_below in refl
count_words_full s (suc n) h =
    let e : suc n * word_bits ≡ (n + 1) * word_bits = omega arith in
    rw e (omega (arith, count_words_full s n (omega arith), count_word_full s n (omega arith)))

-- The scan by words, with its mask for the last word, counts exactly the free frames below
-- `total_frames`, whatever stands in the bits beyond.
pub count_free_locked_lem : (s : Frames) → count_free_locked s ≡ free_below s.used s.total
unfolding count_free_locked
count_free_locked_lem s = elim (Bool-cases (s.total % word_bits == 0)) [
  | inl z ↦
      let q : total_words s * word_bits ≡ s.total = ground arith in
      count_words_full s (total_words s) (omega arith) ∙ ap (free_below s.used) q
  | inr nz ↦
      let n = s.total / word_bits in
      let q : total_words s ≡ suc n = ground arith in
      rw q (
        unfold count_words in
        omega (
          arith,
          count_words_full s n (omega arith),
          count_word_last s n (ground arith) (omega arith),
        ))
]
