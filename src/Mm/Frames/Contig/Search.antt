-- ===== src/Mm/Frames/Contig/Search.antt =====
-- kernel/src/mm/phys_alloc.rs: the closures `emit` and `find_run` of `alloc_contig_core`, which look
-- for a run of free frames by words.
use bedrock_stack.Base.{
  ℕ, zero, suc, ◌+◌, ◌-◌, ◌*◌, ◌/◌, ◌%◌, Bool, true, false, not, ◌&&◌, ◌||◌, Option, none, some,
  if◌then◌else◌, ltb, leb, ◌==◌, ◌⊎◌, inl, inr,
}
use bedrock_stack.Mm.Frames.{word_bits}

-- The bitmap and the window `lo .. hi` that is searched.
pub record Window : Type 0 where
  pub used : ℕ → Bool
  pub total : ℕ
  pub lo : ℕ
  pub hi : ℕ

-- A run of free frames that the scan carries on.
pub record Run : Type 0 where
  pub run_start : ℕ
  pub run_len : ℕ

-- The first aligned place for `count` frames in a run.
unfoldable pub emit : ℕ → ℕ → ℕ → ℕ → Option ℕ
emit count align rs rl =
    let off = (align - rs % align) % align in
    if ltb rl count then none else if leb (off + count) rl then some (rs + off) else none

abbrev pub start_word : Window → ℕ
start_word v = v.lo / word_bits

abbrev pub end_word : Window → ℕ
end_word v = v.hi / word_bits + (if v.hi % word_bits == 0 then 0 else 1)

abbrev pub nbits : Window → ℕ → ℕ
nbits v wi =
    if wi == (v.total + 63) / word_bits - 1
    then (if v.total % word_bits == 0 then 64 else v.total % word_bits)
    else 64

-- The word with the bits outside the window marked used; bits from `nbits` on are 0.
unfoldable pub word : Window → ℕ → ℕ → Bool
word v wi bit =
    (v.used (wi * word_bits + bit) && ltb bit (nbits v wi))
    || ((wi == start_word v) && ltb bit (v.lo % word_bits))
    || ((wi == end_word v - 1)
        && not (v.hi % word_bits == 0)
        && leb (v.hi % word_bits) bit
        && ltb bit (nbits v wi))

-- `w == 0`
unfoldable pub is_zero : (ℕ → Bool) → ℕ → Bool
is_zero w zero = true
is_zero w (suc n) = not (w n) && is_zero w n

-- `(!w).trailing_zeros()`: the used bits at the low end of the word.
unfoldable pub lead : (ℕ → Bool) → ℕ → ℕ → ℕ
lead w i zero = 0
lead w i (suc n) = let rest = lead w (i + 1) n in if w i then suc rest else 0

-- The inner loop: the end of the run of free bits from `i` on, `n` bits at most.
unfoldable pub run_end : (ℕ → Bool) → ℕ → ℕ → ℕ
run_end w i zero = i
run_end w i (suc n) = let rest = run_end w (i + 1) n in if w i then i else rest

-- `while i < nbits`, on fuel: a place, or the run to carry on.
unfoldable pub scan_bits : ℕ → ℕ → (ℕ → Bool) → ℕ → ℕ → ℕ → ℕ → Run → ℕ ⊎ Run
unfolding emit run_end
scan_bits count align w base nb zero i r = inr r
scan_bits count align w base nb (suc n) i r = elim (ltb i nb) [
  | false ↦ inr r
  | true ↦ elim (w i) [
    | true ↦ scan_bits count align w base nb n (i + 1) r
    | false ↦
        let j = run_end w i (nb - i) in
        elim (emit count align (base + i) (j - i)) [
          | some a ↦ inl a
          | none ↦
              scan_bits count align w base nb n j (record { run_start = base + i; run_len = j - i })
        ]
  ]
]

-- A word that is free as a whole extends the run.
unfoldable pub free_word : ℕ → ℕ → ℕ → ℕ → Run → ℕ ⊎ Run
unfolding emit
free_word count align base nb r =
    let run : Run = record {
      run_start = if r.run_len == 0 then base else r.run_start;
      run_len = r.run_len + nb;
    } in
    elim (emit count align run.run_start run.run_len) [ some a ↦ inl a | none ↦ inr run ]

-- A word with a used frame: the carried run first, then the runs of the word.
unfoldable pub mixed_word : ℕ → ℕ → (ℕ → Bool) → ℕ → ℕ → Run → ℕ ⊎ Run
unfolding emit lead scan_bits
mixed_word count align w base nb r =
    if r.run_len == 0
    then scan_bits count align w base nb word_bits 0 r
    else let l = lead w 0 word_bits in
      elim (emit count align r.run_start (r.run_len + l)) [
        | some a ↦ inl a
        | none ↦
            scan_bits count align w base nb word_bits (l + 1)
              (record { run_start = r.run_start; run_len = 0 })
      ]

unfoldable pub step_word : Window → ℕ → ℕ → ℕ → Run → ℕ ⊎ Run
unfolding word is_zero free_word mixed_word
step_word v count align wi r =
    if is_zero (word v wi) word_bits
    then free_word count align (wi * word_bits) (nbits v wi) r
    else mixed_word count align (word v wi) (wi * word_bits) (nbits v wi) r

-- `for wi in wi..wi + n`
unfoldable pub scan_words : Window → ℕ → ℕ → ℕ → ℕ → Run → Option ℕ
unfolding step_word
scan_words v count align wi zero r = none
scan_words v count align wi (suc n) r = elim (step_word v count align wi r) [
  | inl a ↦ some a
  | inr r' ↦ scan_words v count align (wi + 1) n r'
]

unfoldable pub find_run : Window → ℕ → ℕ → Option ℕ
unfolding scan_words
find_run v count align =
    if leb v.hi v.lo
    then none
    else scan_words v count align (start_word v) (end_word v - start_word v)
        (record { run_start = 0; run_len = 0 })
