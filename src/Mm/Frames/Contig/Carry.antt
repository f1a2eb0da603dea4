-- ===== src/Mm/Frames/Contig/Carry.antt =====
-- The run that `find_run` carries from one word to the next (kernel/src/mm/phys_alloc.rs): it grows by
-- the used frames at the low end of the next word, not by the free ones.
use bedrock_stack.Base.{
  ℕ, zero, suc, ◌+◌, ◌-◌, ◌*◌, ◌≤◌, ◌<◌, ◌≡◌, refl, ap, ◌∙◌, inl, inr, Bool, true, false, none,
  some, ltb, leb, arith, ok,
}
use bedrock_stack.Mm.Frames.{Frames, page, range_overlaps_kernel}
use bedrock_stack.Mm.Frames.Alloc.{start_idx}
use bedrock_stack.Mm.Frames.Contig.{
  found, round, take_run, search_run, serve, alloc_contig_core, is_power_of_two,
  try_alloc_contiguous, rounds,
}
use bedrock_stack.Mm.Frames.Contig.Search.{
  Window, Run, emit, start_word, end_word, nbits, word, is_zero, lead, run_end, scan_bits,
  mixed_word, step_word, scan_words, find_run,
}

scan_used :
    (count align : ℕ) (w : ℕ → Bool) (base nb n i : ℕ) (r : Run)
    → ltb i nb ≡ true
    → w i ≡ true
    → scan_bits count align w base nb (suc n) i r ≡ scan_bits count align w base nb n (i + 1) r
unfolding scan_bits
scan_used count align w base nb n i r h u = rw (h, u, scan_bits) refl

scan_short :
    (count align : ℕ) (w : ℕ → Bool) (base nb n i : ℕ) (r : Run)
    → ltb i nb ≡ true
    → w i ≡ false
    → emit count align (base + i) (run_end w i (nb - i) - i) ≡ none
    → scan_bits count align w base nb (suc n) i r
      ≡ scan_bits count align w base nb n
          (run_end w i (nb - i))
          (record { run_start = base + i; run_len = run_end w i (nb - i) - i })
unfolding scan_bits
scan_short count align w base nb n i r h f e = rw (h, f, e, scan_bits) refl

-- The scan passes over used bits.
skip_used :
    (count align : ℕ) (w : ℕ → Bool) (base nb k n i : ℕ) (r : Run)
    → ((j : ℕ) → j < i + k → w j ≡ true)
    → i + k ≤ nb
    → scan_bits count align w base nb (k + n) i r ≡ scan_bits count align w base nb n (i + k) r
skip_used count align w base nb zero n i r u h =
    let (e, f) : (0 + n ≡ n) × (i + 0 ≡ i) = (omega arith, omega arith) in rw (e, f) refl
skip_used count align w base nb (suc k) n i r u h =
    let more : suc k + n ≡ suc (k + n) = omega arith in
    let shift : i + suc k ≡ i + 1 + k = omega arith in
    rw (more, shift)
      (scan_used count align w base nb (k + n) i r (ground arith) (u i (omega arith))
        ∙ skip_used count align w base nb k n (i + 1) r (λ j l. u j (omega arith)) (omega arith))

is_zero-used : (w : ℕ → Bool) (n : ℕ) → w 0 ≡ true → is_zero w (suc n) ≡ false
unfolding is_zero
is_zero-used w zero h = ground (arith, h)
is_zero-used w (suc n) h = ground (arith, is_zero-used w n h)

last_step :
    (w : ℕ → Bool) (base : ℕ) (r : Run)
    → w 63 ≡ false
    → scan_bits 2 1 w base 64 1 63 r ≡ inr (record { run_start = base + 63; run_len = 1 })
last_step w base r f =
    let one : run_end w 63 1 - 63 ≡ 1 = unfold run_end in rw f refl in
    let short : emit 2 1 (base + 63) (run_end w 63 1 - 63) ≡ none = unfold emit in rw one refl in
    scan_short 2 1 w base 64 0 63 r refl f short
    ∙ unfold scan_bits in ap (λ l. inr (record { run_start = base + 63; run_len = l })) one

-- A word whose last bit alone is free leaves a run of one frame.
last_bit_free :
    (w : ℕ → Bool) (base : ℕ) (r : Run)
    → ((j : ℕ) → j < 63 → w j ≡ true)
    → w 63 ≡ false
    → scan_bits 2 1 w base 64 64 0 r ≡ inr (record { run_start = base + 63; run_len = 1 })
last_bit_free w base r u f = skip_used 2 1 w base 64 63 1 0 r u (omega arith) ∙ last_step w base r f

emit_two : (start n : ℕ) → emit 2 1 start (1 + suc n) ≡ some start
unfolding emit
emit_two start n = ground arith

-- A word whose first bit is used extends the carried run of one frame to two or more.
first_bit_used :
    (w : ℕ → Bool) (base nb start : ℕ)
    → w 0 ≡ true
    → mixed_word 2 1 w base nb (record { run_start = start; run_len = 1 }) ≡ inl start
unfolding mixed_word lead
first_bit_used w base nb start h = rw (h, emit_two start (lead w 1 63)) refl

-- The window that the first search from the cursor looks at.
abbrev from_cursor : Frames → ℕ → Window
from_cursor s lo = record { used = s.used; total = s.total; lo = lo; hi = s.total }

-- The scan starts with no run.
abbrev no_run : Run
no_run = record { run_start = 0; run_len = 0 }

step_last :
    (s : Frames) (b : ℕ)
    → s.used (b * 64 + 63) ≡ false
    → b * 64 + 65 ≤ s.total
    → step_word (from_cursor s (b * 64 + 63)) 2 1 b no_run
      ≡ inr (record { run_start = b * 64 + 63; run_len = 1 })
unfolding step_word mixed_word
step_last s b f h =
    let v : Window = from_cursor s (b * 64 + 63) in
    let bits : (j : ℕ) → j < 63 → word v b j ≡ true = λ j k. unfold word in ground (arith) in
    let free : word v b 63 ≡ false = unfold word in ground (arith, f) in
    let full : nbits v b ≡ 64 = ground (arith) in
    rw (is_zero-used (word v b) 63 (bits 0 (omega arith)), full)
      (last_bit_free (word v b) (b * 64) no_run bits free)

step_first :
    (s : Frames) (b start : ℕ)
    → s.used (b * 64 + 64) ≡ true
    → b * 64 + 65 ≤ s.total
    → step_word
        (from_cursor s (b * 64 + 63))
        2
        1
        (b + 1)
        (record { run_start = start; run_len = 1 })
      ≡ inl start
unfolding step_word
step_first s b start u h =
    let v : Window = from_cursor s (b * 64 + 63) in
    let used : word v (b + 1) 0 ≡ true = unfold word in ground (arith, u) in
    rw (is_zero-used (word v (b + 1)) 63 used)
      (first_bit_used (word v (b + 1)) ((b + 1) * 64) (nbits v (b + 1)) start used)

scan_words-carry :
    (s : Frames) (b n : ℕ)
    → s.used (b * 64 + 63) ≡ false
    → s.used (b * 64 + 64) ≡ true
    → b * 64 + 65 ≤ s.total
    → scan_words (from_cursor s (b * 64 + 63)) 2 1 b (suc (suc n)) no_run ≡ some (b * 64 + 63)
unfolding scan_words
scan_words-carry s b n f u h =
    rw (step_last s b f h, step_first s b (b * 64 + 63) u h, scan_words) refl

find_run-carry :
    (s : Frames) (b : ℕ)
    → s.used (b * 64 + 63) ≡ false
    → s.used (b * 64 + 64) ≡ true
    → b * 64 + 65 ≤ s.total
    → find_run (from_cursor s (b * 64 + 63)) 2 1 ≡ some (b * 64 + 63)
unfolding find_run
find_run-carry s b f u h =
    let v : Window = from_cursor s (b * 64 + 63) in
    let inside : leb s.total (b * 64 + 63) ≡ false = ground arith in
    let first : start_word v ≡ b = omega arith in
    let more : end_word v - b ≡ suc (suc (end_word v - b - 2)) = ground arith in
    rw (inside, first, more) (scan_words-carry s b (end_word v - b - 2) f u h)

round-carry :
    (s : Frames) (b : ℕ)
    → s.used (b * 64 + 63) ≡ false
    → s.used (b * 64 + 64) ≡ true
    → b * 64 + 65 ≤ s.total
    → range_overlaps_kernel s (b * 64 + 63) 2 ≡ false
    → round s (record { count = 2; align = 1; hi_cap = s.total }) (b * 64 + 63) s.total false
      ≡ found (b * 64 + 63)
unfolding round
round-carry s b f u h k = rw (find_run-carry s b f u h, k, round) refl

-- Where the cursor is at the last frame of a word, this frame is free and the next one in use, an
-- allocation of two contiguous frames outside the kernel returns these two: a frame that is in use is
-- handed out a second time.
pub contig_takes_used :
    (s : Frames) (b : ℕ)
    → start_idx s ≡ b * 64 + 63
    → s.used (b * 64 + 63) ≡ false
    → s.used (b * 64 + 64) ≡ true
    → b * 64 + 65 ≤ s.total
    → range_overlaps_kernel s (b * 64 + 63) 2 ≡ false
    → try_alloc_contiguous s 2 ≡ (ok ((b * 64 + 63) * page), take_run s (b * 64 + 63) 2)
unfolding try_alloc_contiguous alloc_contig_core search_run serve
contig_takes_used s b c f u h k =
    let enough : ltb s.total 2 ≡ false = ground arith in
    let one : is_power_of_two 1 ≡ true = unfold is_power_of_two in refl in
    let fuel : rounds s ≡ suc (2 * s.total + 3) = omega arith in
    rw (enough, one, c, fuel, round-carry s b f u h k, search_run) refl
