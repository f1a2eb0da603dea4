-- ===== src/Mm/Frames/Alloc/Sound.antt =====
-- `alloc` hands out only frames that are free, not reserved and within the managed memory
-- (kernel/src/mm/phys_alloc.rs, INV-PA-02, INV-PA-04, INV-PA-05).
use bedrock_stack.Base.{
  refl, ◌%◌, ◌^◌, ◌⊎◌, ◌||◌, ◌==◌, ℕ, ◌+◌, ◌-◌, ◌*◌, ◌/◌, ◌≤◌, ◌<◌, ◌≡◌, inl, inr, true, false,
  some, arith, Option-cases, subst, sym,
}
use bedrock_stack.Mm.Frames.{Frames, page, word_bits, total_words, is_reserved_frame}
use bedrock_stack.Mm.Frames.Alloc.{
  start_idx, last_mask, first_candidates, wrap_candidates, first_pass, wrap_pass, search_frame,
  take_frame, hand_out, alloc,
}
use bedrock_stack.Mm.Frames.Alloc.Scan.{scan_words_sound}

-- The cursor lies within the bitmap.
pub record CursorIn (s : Frames) : Type 0 where
  pub hint_in : s.hint ≤ s.total
  pub next_in : s.next_free ≤ s.total

-- A frame that may be handed out.
pub record IsAvailable (s : Frames) (idx : ℕ) : Type 0 where
  pub managed : idx < s.total
  pub free : s.used idx ≡ false
  pub unreserved : is_reserved_frame s idx ≡ false

below_total :
    (s : Frames) (w j : ℕ)
    → w < total_words s
    → j < word_bits
    → last_mask s w j ≡ true
    → w * word_bits + j < s.total
unfolding last_mask
below_total s w j hw hj m = ground arith

first_pass-IsAvailable : (s : Frames) (idx : ℕ) → first_pass s ≡ some idx → IsAvailable s idx
unfolding first_pass first_candidates
first_pass-IsAvailable s idx h =
    let (w, j, lo, hi, b, q, c, r) =
      scan_words_sound s (first_candidates s) (start_idx s / word_bits)
        (total_words s - start_idx s / word_bits) idx h in
    let m = below_total s w j (omega arith) b (ground arith) in
    record {
      managed = omega arith;
      free = subst (λ k. s.used k ≡ false) (sym q) (ground arith);
      unreserved = r;
    }

wrap_pass-IsAvailable :
    (s : Frames) (idx : ℕ) → CursorIn s → wrap_pass s ≡ some idx → IsAvailable s idx
unfolding wrap_pass wrap_candidates start_idx
wrap_pass-IsAvailable s idx k h =
    let (w, j, lo, hi, b, q, c, r) =
      scan_words_sound s (wrap_candidates s) 0 (start_idx s / word_bits) idx h in
    record {
      managed = omega arith;
      free = subst (λ i. s.used i ≡ false) (sym q) (ground arith);
      unreserved = r;
    }

pub search-IsAvailable :
    (s : Frames) (idx : ℕ) → CursorIn s → search_frame s ≡ some idx → IsAvailable s idx
unfolding search_frame
search-IsAvailable s idx c h = elim (Option-cases (first_pass s)) [
  | inr (i, e) ↦ first_pass-IsAvailable s idx (ground arith)
  | inl e ↦ wrap_pass-IsAvailable s idx c (ground arith)
]

-- What `alloc` returns, by the functions it is made of.
pub alloc-IsAvailable :
    (s s' : Frames) (addr : ℕ)
    → CursorIn s
    → alloc s ≡ (some addr, s')
    → (idx : ℕ) × (addr ≡ idx * page) × IsAvailable s idx × (s' ≡ take_frame s idx)
unfolding alloc hand_out
alloc-IsAvailable s s' addr c h = elim (Option-cases (search_frame s)) [
  | inr (i, e) ↦ (i, ground arith, search-IsAvailable s i c e, ground arith)
  | inl e ↦ absurd (ground arith)
]

-- With the cursor inside the bitmap, `alloc` returns the address of a frame that is not frame 0, lies in
-- the managed memory and outside the kernel image, and was free. Afterwards this frame is in use, no other
-- frame's bit has changed, the cursor and its hint stand behind it, and the free count is one less.
pub alloc_sound :
    (s s' : Frames) (addr : ℕ)
    → CursorIn s
    → alloc s ≡ (some addr, s')
    → (idx : ℕ) × (addr ≡ idx * 4096)
      × (0 < idx)
      × (idx < s.total)
      × (s.used idx ≡ false)
      × ((addr < s.kernel_start) ⊎ (s.kernel_end ≤ addr))
      × ((i : ℕ) → s'.used i ≡ (s.used i || (i == idx)))
      × (s'.next_free ≡ idx + 1)
      × (s'.hint ≡ idx + 1)
      × (s'.free_count ≡ (s.free_count + 2 ^ 64 - 1) % 2 ^ 64)
      × (s'.total ≡ s.total)
unfolding take_frame is_reserved_frame
alloc_sound s s' addr c h =
    let (idx, q, a, e) = alloc-IsAvailable s s' addr c h in
    let outside = a.unreserved in
    (
      idx,
      q,
      ground (arith, outside),
      a.managed,
      a.free,
      ground (arith, outside, q),
      rw e (λ i. ground arith),
      rw e refl,
      rw e refl,
      rw e refl,
      rw e refl,
    )
