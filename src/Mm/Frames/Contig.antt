-- ===== src/Mm/Frames/Contig.antt =====
-- kernel/src/mm/phys_alloc.rs: contiguous allocation, `alloc_contig_core` and the functions on it.
pub mod Search
pub mod Run
pub mod Effect
pub mod Carry
use bedrock_stack.Base.{
  ℕ, zero, suc, ◌+◌, ◌-◌, ◌*◌, ◌/◌, ◌%◌, ◌^◌, max, min, Bool, true, false, not, ◌&&◌, ◌||◌, Option,
  none, some, if◌then◌else◌, ltb, leb, ◌==◌, Result, ok, err,
}
use bedrock_stack.Mm.Frames.{
  Frames, page, word_bits, sub64, set_range, range_overlaps_kernel, total_words,
}
use bedrock_stack.Mm.Frames.Alloc.{start_idx, alloc}
use bedrock_stack.Mm.Frames.Contig.Search.{Window, find_run}

pub data AllocError : Type 0 where
  no_frames : AllocError
  invalid_count : AllocError

-- `is_power_of_two`, for the values of `usize`: one of 2^0 .. 2^(n-1).
is_power_below : ℕ → ℕ → Bool
is_power_below a zero = false
is_power_below a (suc n) = (a == 2 ^ n) || is_power_below a n

unfoldable pub is_power_of_two : ℕ → Bool
unfolding is_power_below
is_power_of_two a = is_power_below a 64

-- What the caller asks for; `hi_cap` bounds the frames.
pub record Request : Type 0 where
  pub count : ℕ
  pub align : ℕ
  pub hi_cap : ℕ

-- One round of the main loop, for the window `lo .. hi`: a run, another window, or the end.
pub data Round : Type 0 where
  found : ℕ → Round
  again : ℕ → ℕ → Bool → Round
  gave_up : Round

-- The first window starts at the cursor; the second, tried once, ends there.
unfoldable pub wrap : Frames → Request → ℕ → Bool → Round
unfolding start_idx
wrap s q hi tried_wrap =
    if not tried_wrap && (hi == q.hi_cap) then again 0 (start_idx s) true else gave_up

unfoldable pub round : Frames → Request → ℕ → ℕ → Bool → Round
unfolding wrap find_run
round s q lo hi tried_wrap =
    elim (find_run (record { used = s.used; total = s.total; lo = lo; hi = hi }) q.count q.align) [
      | none ↦ wrap s q hi tried_wrap
      | some run_start ↦
          if range_overlaps_kernel s run_start q.count
          then (if ltb hi (run_start + 1 + q.count)
              then wrap s q hi tried_wrap
              else again (run_start + 1) hi tried_wrap)
          else found run_start
    ]

-- The frames `run_start .. run_start + count` are marked, and the cursor moves behind them. (The test
-- of the kernel range after the marking repeats `range_overlaps_kernel`, and never passes.)
unfoldable pub take_run : Frames → ℕ → ℕ → Frames
take_run s run_start count = record s {
  used = set_range true run_start count s.used;
  next_free = run_start + count;
  hint = run_start + count;
  free_count = sub64 s.free_count count;
}

-- The main loop, on fuel.
unfoldable pub search_run : Frames → Request → ℕ → ℕ → ℕ → Bool → Option (Option ℕ)
unfolding round
search_run s q zero lo hi tried_wrap = none
search_run s q (suc n) lo hi tried_wrap = elim (round s q lo hi tried_wrap) [
  | found run_start ↦ some (some run_start)
  | again lo' hi' t ↦ search_run s q n lo' hi' t
  | gave_up ↦ some none
]

-- Every round but the wrap moves `lo` up, and `lo` stays below the end of its window.
abbrev pub rounds : Frames → ℕ
rounds s = 2 * s.total + 4

unfoldable pub serve : Frames → Request → Option (Option ℕ) → Result AllocError ℕ × Frames
unfolding take_run
serve s q none = (err no_frames, s)
serve s q (some none) = (err no_frames, s)
serve s q (some (some run_start)) = (ok (run_start * page), take_run s run_start q.count)

unfoldable pub alloc_contig_core : Frames → Request → Result AllocError ℕ × Frames
unfolding serve search_run start_idx is_power_of_two
alloc_contig_core s q =
    if (q.count == 0) || ltb s.total q.count || ltb q.hi_cap q.count
    then (err invalid_count, s)
    else if (q.align == 0) || not (is_power_of_two q.align)
    then (err invalid_count, s)
    else serve s q (search_run s q (rounds s) (start_idx s) q.hi_cap false)

unfoldable pub try_alloc_contiguous : Frames → ℕ → Result AllocError ℕ × Frames
unfolding alloc_contig_core
try_alloc_contiguous s count =
    alloc_contig_core s (record { count = count; align = 1; hi_cap = s.total })

unfoldable pub try_alloc_contiguous_aligned : Frames → ℕ → ℕ → Result AllocError ℕ × Frames
unfolding alloc_contig_core
try_alloc_contiguous_aligned s count align =
    alloc_contig_core s (record { count = count; align = align; hi_cap = s.total })

unfoldable pub try_alloc_contiguous_below : Frames → ℕ → ℕ → Result AllocError ℕ × Frames
unfolding alloc_contig_core
try_alloc_contiguous_below s count max_paddr =
    let hi_cap = min (max_paddr / page) s.total in
    if (hi_cap == 0) || ltb hi_cap count
    then (err no_frames, s)
    else alloc_contig_core s (record { count = count; align = 1; hi_cap = hi_cap })

-- `alloc_contiguous` and `alloc_contiguous_checked` drop the error.
unfoldable pub alloc_contiguous : Frames → ℕ → Option ℕ × Frames
unfolding try_alloc_contiguous
alloc_contiguous s count =
    let (r, s') = try_alloc_contiguous s count in (elim r [ ok a ↦ some a | err e ↦ none ], s')

-- `alloc_frames` of the trait, with `Err(())` as `none`.
unfoldable pub alloc_frames : Frames → ℕ → Option ℕ × Frames
unfolding alloc_contiguous
alloc_frames s count = if count == 1 then alloc s else alloc_contiguous s count
