-- ===== src/Mm/Frames/Tests.antt =====
-- Runs of the frame allocator of kernel/src/mm/phys_alloc.rs, and its theorems at them.
use bedrock_stack.Base.{
  ◌<◌, ◌⊎◌, ◌^◌, ◌||◌, ◌&&◌, leb, true, ℕ, ◌-◌, min, ◌≤◌, ◌+◌, ◌*◌, ◌%◌, ◌≡◌, ◌≢◌, refl, false, not,
  none, some, List, [], ◌∷◌, ltb, ◌==◌, arith, ok,
}
use bedrock_stack.Mm.Frames.{Frames, page, is_reserved_frame, range_overlaps_kernel}
use bedrock_stack.Mm.Frames.Alloc.{alloc, take_frame, start_idx}
use bedrock_stack.Mm.Frames.Alloc.Sound.{CursorIn, IsAvailable, alloc_sound}
use bedrock_stack.Mm.Frames.Alloc.Complete.{InBlindSpot, alloc_finds, alloc_misses}
use bedrock_stack.Mm.Frames.Count.Bits.{free_below}
use bedrock_stack.Mm.Frames.Release.{free}
use bedrock_stack.Mm.Frames.Release.Invariant.{IsValid, alloc-IsValid, free-IsValid}
use bedrock_stack.Mm.Frames.Contig.{
  Request, alloc_contig_core, take_run, try_alloc_contiguous, try_alloc_contiguous_below,
}
use bedrock_stack.Mm.Frames.Contig.Effect.{contig_sound}
use bedrock_stack.Mm.Frames.Contig.Carry.{contig_takes_used}
use bedrock_stack.Mm.Frames.Startup.{MemoryRegion, usable, new, built}

-- Frames 0 to 2 are in use: 1 and 2 hold the kernel image.
abbrev boot : Frames
boot = record {
  used = λ i. ltb i 3;
  total = 130;
  kernel_start = 4096;
  kernel_end = 12288;
  free_count = 127;
  hint = 3;
  next_free = 3;
}

boot-counted : 127 ≡ free_below boot.used 130
unfolding free_below
boot-counted = refl

boot-IsValid : IsValid boot
unfolding is_reserved_frame
boot-IsValid = record {
  small = omega arith;
  counted = boot-counted;
  cursor_in = omega arith;
  hinted = refl;
  reserved = λ i h r. ground (arith, r);
}

boot-CursorIn : CursorIn boot
boot-CursorIn = record { hint_in = omega arith; next_in = omega arith }

boot-alloc : alloc boot ≡ (some 12288, take_frame boot 3)
unfolding alloc is_reserved_frame
boot-alloc = refl

alloc_sound_example :
    (idx : ℕ) × (12288 ≡ idx * 4096)
    × (0 < idx)
    × (idx < 130)
    × (boot.used idx ≡ false)
    × ((12288 < 4096) ⊎ (12288 ≤ 12288))
    × ((i : ℕ) → (take_frame boot 3).used i ≡ (boot.used i || (i == idx)))
    × ((take_frame boot 3).next_free ≡ idx + 1)
    × ((take_frame boot 3).hint ≡ idx + 1)
    × ((take_frame boot 3).free_count ≡ (127 + 2 ^ 64 - 1) % 2 ^ 64)
    × ((take_frame boot 3).total ≡ 130)
alloc_sound_example = alloc_sound boot (take_frame boot 3) 12288 boot-CursorIn boot-alloc

frame_3 : IsAvailable boot 3
unfolding is_reserved_frame
frame_3 = record { managed = omega arith; free = refl; unreserved = refl }

not_blind : ¬ InBlindSpot boot 3
unfolding start_idx
not_blind (a, b) = omega (arith, a, b)

alloc_finds_example : (alloc boot).0 ≢ none
alloc_finds_example = alloc_finds boot 3 frame_3 not_blind

-- Frame 4 alone is free, and the cursor stands behind it.
abbrev behind : Frames
behind = record {
  used = λ i. not (i == 4);
  total = 8;
  kernel_start = 4096;
  kernel_end = 12288;
  free_count = 1;
  hint = 6;
  next_free = 6;
}

behind_blind : (f : ℕ) → IsAvailable behind f → InBlindSpot behind f
unfolding start_idx
behind_blind f a = ground (arith, a.free)

alloc_misses_example : alloc behind ≡ (none, behind)
alloc_misses_example =
    alloc_misses behind (record { hint_in = omega arith; next_in = omega arith }) behind_blind

alloc-IsValid_example : IsValid (alloc boot).1
alloc-IsValid_example = alloc-IsValid boot boot-IsValid

-- The state after frame 3 is handed out; a debug build.
abbrev taken : Frames
taken = (alloc boot).1

free-IsValid_example :
    (taken.total ≤ 3 → free true taken 12288 ≡ some taken)
    × (3 < taken.total
        → (◌≡◌ {A = ℕ} 3 0) ⊎ ((taken.kernel_start ≤ 3 * 4096) × (3 * 4096 < taken.kernel_end))
        → free true taken 12288 ≡ none)
    × (3 < taken.total
        → 0 < 3
        → (3 * 4096 < taken.kernel_start) ⊎ (taken.kernel_end ≤ 3 * 4096)
        → (t : Frames) × (free true taken 12288 ≡ some t)
          × IsValid t
          × ((i : ℕ) → t.used i ≡ (taken.used i && not (i == 3)))
          × (t.free_count ≡ taken.free_count + 1)
          × (t.next_free ≡ min 3 taken.next_free)
          × (t.total ≡ taken.total))
unfolding alloc is_reserved_frame take_frame
free-IsValid_example = free-IsValid true taken 12288 3 (alloc-IsValid boot boot-IsValid) refl refl

abbrev two : Request
two = record { count = 2; align = 4; hi_cap = 130 }

two_at_4 : alloc_contig_core boot two ≡ (ok 16384, take_run boot 4 2)
unfolding alloc_contig_core range_overlaps_kernel
two_at_4 = refl

contig_sound_example :
    (r : ℕ) × (16384 ≡ r * 4096)
    × (0 < r)
    × (r % 4 ≡ 0)
    × ((16384 + 2 * 4096 ≤ 4096) ⊎ (12288 ≤ 16384))
    × ((i : ℕ) → (take_run boot 4 2).used i ≡ (boot.used i || (leb r i && ltb i (r + 2))))
    × ((take_run boot 4 2).next_free ≡ r + 2)
    × ((take_run boot 4 2).hint ≡ r + 2)
    × ((take_run boot 4 2).free_count ≡ (127 + 2 ^ 64 - 2) % 2 ^ 64)
    × ((take_run boot 4 2).total ≡ 130)
contig_sound_example = contig_sound boot (take_run boot 4 2) two 16384 two_at_4

-- Frame 63, the last of its word, is free; frame 64 is in use.
abbrev gap : Frames
gap = record {
  used = λ i. not (i == 63);
  total = 128;
  kernel_start = 4096;
  kernel_end = 12288;
  free_count = 1;
  hint = 63;
  next_free = 63;
}

gap_cursor : start_idx gap ≡ 0 * 64 + 63
unfolding start_idx
gap_cursor = refl

gap_clear : range_overlaps_kernel gap (0 * 64 + 63) 2 ≡ false
unfolding range_overlaps_kernel
gap_clear = refl

contig_takes_used_example :
    try_alloc_contiguous gap 2 ≡ (ok ((0 * 64 + 63) * page), take_run gap (0 * 64 + 63) 2)
contig_takes_used_example = contig_takes_used gap 0 gap_cursor refl refl (omega arith) gap_clear

-- Frames 20 to 39, before the cursor, are free; the limit is frame 10. What is handed out lies above it.
abbrev low_full : Frames
low_full = record {
  used = λ i. ltb i 20;
  total = 130;
  kernel_start = 4096;
  kernel_end = 12288;
  free_count = 110;
  hint = 40;
  next_free = 40;
}

above_limit : try_alloc_contiguous_below low_full 2 40960 ≡ (ok (20 * page), take_run low_full 20 2)
unfolding try_alloc_contiguous_below range_overlaps_kernel
above_limit = refl

abbrev memory : List MemoryRegion
memory = record { base = 0; size = 262144; kind = usable } ∷ []

booted : new 16384 65536 memory 4096 12288 ≡ some (built 16384 memory 4096 12288)
unfolding new
booted = refl
