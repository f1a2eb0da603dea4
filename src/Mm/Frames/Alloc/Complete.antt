-- ===== src/Mm/Frames/Alloc/Complete.antt =====
-- Which free frames `alloc` finds, and which it misses (kernel/src/mm/phys_alloc.rs).
use bedrock_stack.Base.{
  ℕ, ◌+◌, ◌-◌, ◌*◌, ◌/◌, ◌%◌, ◌≤◌, ◌<◌, ◌≡◌, ◌≢◌, inl, inr, true, false, none, some, arith,
  Bool-cases, Option-cases, subst, sym, ltb, leb,
}
use bedrock_stack.Mm.Frames.{Frames, word_bits, total_words, is_reserved_frame}
use bedrock_stack.Mm.Frames.Alloc.{
  start_idx, last_mask, first_mask, first_candidates, wrap_candidates, first_pass, wrap_pass,
  search_frame, hand_out, alloc,
}
use bedrock_stack.Mm.Frames.Alloc.Scan.{scan_words_complete, scan_words_sound}
use bedrock_stack.Mm.Frames.Alloc.Sound.{CursorIn, IsAvailable, search-IsAvailable}

in_last_mask :
    (s : Frames) (f : ℕ) → f < s.total → last_mask s (f / word_bits) (f % word_bits) ≡ true
unfolding last_mask
in_last_mask s f h = ground arith

in_first_mask :
    (s : Frames) (f : ℕ) → start_idx s ≤ f → first_mask s (f / word_bits) (f % word_bits) ≡ true
unfolding first_mask
in_first_mask s f h = ground arith

split_idx : (f : ℕ) → (f / word_bits) * word_bits + f % word_bits ≡ f
split_idx f = omega arith

-- A pass that finds nothing has met no available frame at or behind the cursor.
first_pass_complete : (s : Frames) (f : ℕ) → IsAvailable s f → start_idx s ≤ f → first_pass s ≢ none
unfolding first_pass first_candidates
first_pass_complete s f a h e =
    let free : s.used ((f / word_bits) * word_bits + f % word_bits) ≡ false =
      subst (λ k. s.used k ≡ false) (sym (split_idx f)) a.free in
    let r =
      scan_words_complete s (first_candidates s) (start_idx s / word_bits)
        (total_words s - start_idx s / word_bits) (f / word_bits) (f % word_bits) e (omega arith)
        (omega arith) (omega arith)
        (ground (arith, in_last_mask s f a.managed, in_first_mask s f h, free)) in
    ground (arith, subst (λ k. is_reserved_frame s k ≡ true) (split_idx f) r, a.unreserved)

wrap_pass_complete :
    (s : Frames) (f : ℕ)
    → IsAvailable s f
    → f < (start_idx s / word_bits) * word_bits
    → wrap_pass s ≢ none
unfolding wrap_pass wrap_candidates
wrap_pass_complete s f a h e =
    let free : s.used ((f / word_bits) * word_bits + f % word_bits) ≡ false =
      subst (λ k. s.used k ≡ false) (sym (split_idx f)) a.free in
    let r =
      scan_words_complete s (wrap_candidates s) 0 (start_idx s / word_bits) (f / word_bits)
        (f % word_bits) e (omega arith) (omega arith) (omega arith)
        (ground (arith, in_last_mask s f a.managed, free)) in
    ground (arith, subst (λ k. is_reserved_frame s k ≡ true) (split_idx f) r, a.unreserved)

-- A frame before the cursor and in the cursor's word: neither pass looks at it.
abbrev pub InBlindSpot : Frames → ℕ → Type 0
InBlindSpot s f = ((start_idx s / word_bits) * word_bits ≤ f) × (f < start_idx s)

-- `alloc` succeeds whenever an available frame exists outside the part of the cursor's word that lies
-- before the cursor.
pub alloc_finds : (s : Frames) (f : ℕ) → IsAvailable s f → ¬ InBlindSpot s f → (alloc s).0 ≢ none
unfolding alloc hand_out search_frame
alloc_finds s f a out e = elim (Option-cases (first_pass s)) [
  | inr (i, q) ↦ ground arith
  | inl q ↦ elim (Bool-cases (leb (start_idx s) f)) [
    | inl behind ↦ first_pass_complete s f a (ground arith) q
    | inr before ↦ elim (Bool-cases (ltb f ((start_idx s / word_bits) * word_bits))) [
      | inl early ↦ elim (Option-cases (wrap_pass s)) [
        | inr (i, w) ↦ ground arith
        | inl w ↦ wrap_pass_complete s f a (ground arith) w
      ]
      | inr late ↦ out (ground arith, ground arith)
    ]
  ]
]

search_outside : (s : Frames) (idx : ℕ) → search_frame s ≡ some idx → ¬ InBlindSpot s idx
unfolding search_frame first_pass wrap_pass first_candidates first_mask
search_outside s idx h b = elim (Option-cases (first_pass s)) [
  | inr (i, e) ↦
      let (w, j, lo, hi, bj, q, c, r) =
        scan_words_sound s (first_candidates s) (start_idx s / word_bits)
          (total_words s - start_idx s / word_bits) idx (ground arith) in
      ground (arith, b, q)
  | inl e ↦
      let (w, j, lo, hi, bj, q, c, r) =
        scan_words_sound s (wrap_candidates s) 0 (start_idx s / word_bits) idx (ground arith) in
      omega arith
]

-- If every available frame lies in the cursor's word before the cursor, `alloc` reports that there is
-- none: it returns nothing and changes nothing.
pub alloc_misses :
    (s : Frames) → CursorIn s → ((f : ℕ) → IsAvailable s f → InBlindSpot s f) → alloc s ≡ (none, s)
unfolding alloc hand_out
alloc_misses s c all = elim (Option-cases (search_frame s)) [
  | inl e ↦ ground arith
  | inr (i, e) ↦ absurd (search_outside s i e (all i (search-IsAvailable s i c e)))
]
