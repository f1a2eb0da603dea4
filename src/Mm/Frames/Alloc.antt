-- ===== src/Mm/Frames/Alloc.antt =====
-- kernel/src/mm/phys_alloc.rs: `alloc`, one frame from the cursor on, then from the start.
pub mod Scan
pub mod Sound
pub mod Complete
use bedrock_stack.Base.{
  ℕ, zero, suc, ◌+◌, ◌-◌, ◌*◌, ◌/◌, ◌%◌, max, Bool, true, false, not, ◌&&◌, Option, none, some,
  if◌then◌else◌, ltb, leb, ◌==◌,
}
use bedrock_stack.Mm.Frames.{
  Frames, page, word_bits, sub64, set_bit, is_reserved_frame, total_words,
}

-- The loop over the candidates of a word: the lowest set bit first, reserved frames skipped. (The test
-- of the kernel range after `set_used` repeats `is_reserved_frame`, and never passes.)
scan_bits : (ℕ → Bool) → (ℕ → Bool) → ℕ → ℕ → ℕ → Option ℕ
scan_bits cand reserved base bit zero = none
scan_bits cand reserved base bit (suc n) =
    let rest = scan_bits cand reserved base (bit + 1) n in
    if cand bit && not (reserved (base + bit)) then some (base + bit) else rest

unfoldable pub start_idx : Frames → ℕ
start_idx s = max s.hint s.next_free

-- `(1 << (total % 64)) - 1` in the last word, and all ones elsewhere.
last_mask : Frames → ℕ → ℕ → Bool
last_mask s wi bit =
    if wi == total_words s - 1 && not (s.total % word_bits == 0)
    then ltb bit (s.total % word_bits)
    else true

-- `!((1 << start_bit) - 1)` in the first word, and all ones elsewhere.
first_mask : Frames → ℕ → ℕ → Bool
unfolding start_idx
first_mask s wi bit =
    if wi == start_idx s / word_bits && ltb 0 (start_idx s % word_bits)
    then leb (start_idx s % word_bits) bit
    else true

first_candidates : Frames → ℕ → ℕ → Bool
unfolding first_mask last_mask
first_candidates s wi bit =
    not (s.used (wi * word_bits + bit)) && first_mask s wi bit && last_mask s wi bit

wrap_candidates : Frames → ℕ → ℕ → Bool
unfolding last_mask
wrap_candidates s wi bit = not (s.used (wi * word_bits + bit)) && last_mask s wi bit

-- `for wi in wi..wi + n`
pub scan_words : Frames → (ℕ → ℕ → Bool) → ℕ → ℕ → Option ℕ
unfolding scan_bits
scan_words s cand wi zero = none
scan_words s cand wi (suc n) =
    let rest = scan_words s cand (wi + 1) n in
    elim (scan_bits (cand wi) (is_reserved_frame s) (wi * word_bits) 0 word_bits) [
      | some idx ↦ some idx
      | none ↦ rest
    ]

first_pass : Frames → Option ℕ
unfolding scan_words first_candidates
first_pass s =
    let start = start_idx s / word_bits in
    scan_words s (first_candidates s) start (total_words s - start)

wrap_pass : Frames → Option ℕ
unfolding scan_words wrap_candidates
wrap_pass s = scan_words s (wrap_candidates s) 0 (start_idx s / word_bits)

unfoldable pub take_frame : Frames → ℕ → Frames
take_frame s idx = record s {
  used = set_bit true idx s.used;
  next_free = idx + 1;
  hint = idx + 1;
  free_count = sub64 s.free_count 1;
}

-- The frame that is found: from the cursor to the end, else from the start to the cursor's word.
unfoldable pub search_frame : Frames → Option ℕ
unfolding first_pass wrap_pass
search_frame s = elim (first_pass s) [ some idx ↦ some idx | none ↦ wrap_pass s ]

unfoldable pub hand_out : Frames → Option ℕ → Option ℕ × Frames
unfolding take_frame
hand_out s none = (none, s)
hand_out s (some idx) = (some (idx * page), take_frame s idx)

-- The address of the frame, if any, and the state after.
unfoldable pub alloc : Frames → Option ℕ × Frames
unfolding search_frame hand_out
alloc s = hand_out s (search_frame s)
