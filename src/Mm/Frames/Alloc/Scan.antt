-- ===== src/Mm/Frames/Alloc/Scan.antt =====
-- What the scans over the words of the bitmap find (kernel/src/mm/phys_alloc.rs, `alloc`).
use bedrock_stack.Base.{
  ℕ, zero, suc, ◌+◌, ◌*◌, ◌≤◌, ◌<◌, ◌≡◌, inl, inr, Bool, true, false, not, ◌&&◌, none, some, arith,
  Bool-cases, Option-cases, subst, sym, ◌==◌,
}
use bedrock_stack.Mm.Frames.{Frames, word_bits, is_reserved_frame}
use bedrock_stack.Mm.Frames.Alloc.{scan_bits, scan_words}

scan_bits_sound :
    (cand reserved : ℕ → Bool) (base bit n idx : ℕ)
    → scan_bits cand reserved base bit n ≡ some idx
    → (j : ℕ) × (bit ≤ j)
      × (j < bit + n)
      × (idx ≡ base + j)
      × (cand j ≡ true)
      × (reserved idx ≡ false)
unfolding scan_bits
scan_bits_sound cand reserved base bit zero idx h = cc
scan_bits_sound cand reserved base bit (suc n) idx h =
    elim (Bool-cases (cand bit && not (reserved (base + bit)))) [
      | inl e ↦
          let same : base + bit ≡ idx = ground arith in
          (
            bit,
            omega arith,
            omega arith,
            omega arith,
            ground arith,
            subst (λ i. reserved i ≡ false) same (ground arith),
          )
      | inr e ↦
          let (j, lo, hi, q, c, r) =
            scan_bits_sound cand reserved base (bit + 1) n idx (ground arith) in
          (j, omega arith, omega arith, q, c, r)
    ]

scan_bits_complete :
    (cand reserved : ℕ → Bool) (base bit n j : ℕ)
    → scan_bits cand reserved base bit n ≡ none
    → bit ≤ j
    → j < bit + n
    → cand j ≡ true
    → reserved (base + j) ≡ true
unfolding scan_bits
scan_bits_complete cand reserved base bit zero j h lo hi c = absurd (omega arith)
scan_bits_complete cand reserved base bit (suc n) j h lo hi c = elim (Bool-cases (j == bit)) [
  | inl e ↦
      let same : bit ≡ j = ground arith in
      subst (λ i. reserved (base + i) ≡ true) same
        (ground (arith, subst (λ i. cand i ≡ true) (sym same) c))
  | inr e ↦
      scan_bits_complete cand reserved base (bit + 1) n j (ground arith) (ground arith)
        (omega arith) c
]

pub scan_words_sound :
    (s : Frames) (cand : ℕ → ℕ → Bool) (wi n idx : ℕ)
    → scan_words s cand wi n ≡ some idx
    → (w : ℕ) × (j : ℕ) × (wi ≤ w)
      × (w < wi + n)
      × (j < word_bits)
      × (idx ≡ w * word_bits + j)
      × (cand w j ≡ true)
      × (is_reserved_frame s idx ≡ false)
unfolding scan_words
scan_words_sound s cand wi zero idx h = cc
scan_words_sound s cand wi (suc n) idx h =
    elim (Option-cases (scan_bits (cand wi) (is_reserved_frame s) (wi * word_bits) 0 word_bits)) [
      | inr (i, e) ↦
          let same : i ≡ idx = ground arith in
          let (j, lo, hi, q, c, r) =
            scan_bits_sound (cand wi) (is_reserved_frame s) (wi * word_bits) 0 word_bits i e in
          (
            wi,
            j,
            omega arith,
            omega arith,
            omega arith,
            omega arith,
            c,
            subst (λ k. is_reserved_frame s k ≡ false) same r,
          )
      | inl e ↦
          let (w, j, lo, hi, b, q, c, r) = scan_words_sound s cand (wi + 1) n idx (ground arith) in
          (w, j, omega arith, omega arith, b, q, c, r)
    ]

pub scan_words_complete :
    (s : Frames) (cand : ℕ → ℕ → Bool) (wi n w j : ℕ)
    → scan_words s cand wi n ≡ none
    → wi ≤ w
    → w < wi + n
    → j < word_bits
    → cand w j ≡ true
    → is_reserved_frame s (w * word_bits + j) ≡ true
unfolding scan_words
scan_words_complete s cand wi zero w j h lo hi b c = absurd (omega arith)
scan_words_complete s cand wi (suc n) w j h lo hi b c =
    elim (Option-cases (scan_bits (cand wi) (is_reserved_frame s) (wi * word_bits) 0 word_bits)) [
      | inr (i, e) ↦ absurd (ground arith)
      | inl e ↦ elim (Bool-cases (w == wi)) [
        | inl q ↦
            let same : wi ≡ w = ground arith in
            subst (λ k. is_reserved_frame s (k * word_bits + j) ≡ true) same
              (scan_bits_complete (cand wi) (is_reserved_frame s) (wi * word_bits) 0 word_bits j e
                (omega arith) (omega arith) (subst (λ k. cand k j ≡ true) (sym same) c))
        | inr q ↦
            scan_words_complete s cand (wi + 1) n w j (ground arith) (ground arith) (omega arith) b
              c
      ]
    ]
