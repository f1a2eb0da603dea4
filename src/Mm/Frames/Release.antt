-- ===== src/Mm/Frames/Release.antt =====
-- kernel/src/mm/phys_alloc.rs: `free`, `free_frames` and `reserve_region`.
pub mod Invariant
use bedrock_stack.Base.{
  Option, none, some, ℕ, zero, suc, ◌+◌, ◌-◌, ◌*◌, ◌/◌, ◌%◌, ◌^◌, min, Bool, true, false, not, ◌&&◌,
  ◌||◌, if◌then◌else◌, ltb, leb, ◌==◌,
}
use bedrock_stack.Mm.Frames.{Frames, page, sub64, add64, set_bit, is_reserved_frame}

-- The cursor and its hint move back to the frame, if it is earlier. (The loop of compare-and-exchange
-- stores the smaller value.)
release : Frames → ℕ → Frames
release s idx = record s {
  used = set_bit false idx s.used;
  free_count = add64 s.free_count 1;
  next_free = if ltb idx s.next_free then idx else s.next_free;
  hint = if ltb idx s.hint then idx else s.hint;
}

-- A frame beyond the bitmap or a reserved one is left alone; a reserved one fails the debug assertion,
-- where `debug` says that those are compiled in. `none` is a failed assertion.
pub free : Bool → Frames → ℕ → Option Frames
unfolding release
free debug s addr =
    let idx = addr / page in
    if leb s.total idx
    then some s
    else if is_reserved_frame s idx
    then if debug then none else some s
    else some (release s idx)

-- `for i in i..i + n`
free_from : Bool → Frames → ℕ → ℕ → ℕ → Option Frames
unfolding free
free_from debug s addr i zero = some s
free_from debug s addr i (suc n) = elim (free debug s (addr + i * page)) [
  | none ↦ none
  | some t ↦ free_from debug t addr (i + 1) n
]

pub free_frames : Bool → Frames → ℕ → ℕ → Option Frames
unfolding free_from
free_frames debug s addr count = if count == 0 then some s else free_from debug s addr 0 count

-- `(end + 4095) / 4096` in `u64`, with the saturated end standing for all frames.
abbrev pub end_frame : ℕ → ℕ → ℕ
end_frame total end = if end == 2 ^ 64 - 1 then total else min ((end + 4095) % 2 ^ 64 / page) total

reserve_one : Frames → ℕ → Frames
reserve_one s frame =
    if ltb frame s.total && not (s.used frame)
    then record s { used = set_bit true frame s.used; free_count = sub64 s.free_count 1 }
    else s

-- `for frame in frame..frame + n`
reserve_from : Frames → ℕ → ℕ → Frames
unfolding reserve_one
reserve_from s frame zero = s
reserve_from s frame (suc n) = reserve_from (reserve_one s frame) (frame + 1) n

pub reserve_region : Frames → ℕ → ℕ → Frames
unfolding reserve_from
reserve_region s start end =
    let first = start / page in reserve_from s first (end_frame s.total end - first)

-- `addr.saturating_add(size)`
abbrev pub saturating_add : ℕ → ℕ → ℕ
saturating_add a b = min (a + b) (2 ^ 64 - 1)

pub reserve_range : Frames → ℕ → ℕ → Frames
unfolding reserve_region
reserve_range s addr size = reserve_region s addr (saturating_add addr size)
