-- ===== src/Mm/Frames.antt =====
-- kernel/src/mm/phys_alloc.rs: the bitmap allocator of physical frames, its state and its bits.
-- The bitmap is the function from a frame's index to its bit (1, `true`, is used); a word is the
-- function from a bit's position. Counters are `usize` and `u64` values with their wrap written out.
pub mod Alloc
pub mod Release
pub mod Count
pub mod Contig
pub mod Startup
mod Tests
use bedrock_stack.Base.{
  ℕ, ◌+◌, ◌-◌, ◌*◌, ◌/◌, ◌%◌, ◌^◌, min, Bool, true, false, ◌&&◌, ◌||◌, if◌then◌else◌, ltb, leb,
  ◌==◌,
}

pub record Frames : Type 0 where
  pub used : ℕ → Bool
  pub total : ℕ
  pub kernel_start : ℕ
  pub kernel_end : ℕ
  pub free_count : ℕ
  pub hint : ℕ
  pub next_free : ℕ

abbrev pub page : ℕ
page = 4096

abbrev pub word_bits : ℕ
word_bits = 64

-- `u64` and `usize` subtraction and addition.
abbrev pub sub64 : ℕ → ℕ → ℕ
sub64 a b = (a + 2 ^ 64 - b) % 2 ^ 64

abbrev pub add64 : ℕ → ℕ → ℕ
add64 a b = (a + b) % 2 ^ 64

-- `set_used` and `set_free` on the bits.
abbrev pub set_bit : Bool → ℕ → (ℕ → Bool) → ℕ → Bool
set_bit b idx bits i = if i == idx then b else bits i

-- Set a bit for `n` frames from `i` on.
pub set_range : Bool → ℕ → ℕ → (ℕ → Bool) → ℕ → Bool
set_range b i n bits j = if leb i j && ltb j (i + n) then b else bits j

-- `addr >= self.kernel_start && addr < self.kernel_end`
abbrev pub in_kernel : Frames → ℕ → Bool
in_kernel s addr = leb s.kernel_start addr && ltb addr s.kernel_end

unfoldable pub is_reserved_frame : Frames → ℕ → Bool
is_reserved_frame s idx = if idx == 0 then true else in_kernel s (idx * page)

unfoldable pub range_overlaps_kernel : Frames → ℕ → ℕ → Bool
range_overlaps_kernel s start_idx count =
    let addr = start_idx * page in
    let end = addr + count * page in
    if start_idx == 0 then true else ltb s.kernel_start end && ltb addr s.kernel_end

-- `(self.total_frames + 63) / 64`
abbrev pub total_words : Frames → ℕ
total_words s = (s.total + 63) / word_bits
