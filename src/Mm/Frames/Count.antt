-- ===== src/Mm/Frames/Count.antt =====
-- kernel/src/mm/phys_alloc.rs: `count_free_locked`, the scan that counts the free frames by words.
pub mod Bits
pub mod Exact
use bedrock_stack.Base.{
  ℕ, zero, suc, ◌+◌, ◌-◌, ◌*◌, ◌%◌, Bool, true, false, ◌&&◌, if◌then◌else◌, ltb, ◌==◌,
}
use bedrock_stack.Mm.Frames.{Frames, word_bits, total_words}

-- `w.count_ones()` over the lowest `n` bits.
count_ones : (ℕ → Bool) → ℕ → ℕ
count_ones w zero = 0
count_ones w (suc n) = count_ones w n + (if w n then 1 else 0)

word_mask : Frames → ℕ → ℕ → Bool
word_mask s wi bit =
    let rem = s.total % word_bits in
    if wi == total_words s - 1 then (if rem == 0 then true else ltb bit rem) else true

count_word : Frames → ℕ → ℕ
unfolding count_ones word_mask
count_word s wi =
    count_ones (word_mask s wi) word_bits
    - count_ones (λ bit. s.used (wi * word_bits + bit) && word_mask s wi bit) word_bits

-- The words `0 .. n`.
count_words : Frames → ℕ → ℕ
unfolding count_word
count_words s zero = 0
count_words s (suc n) = count_words s n + count_word s n

pub count_free_locked : Frames → ℕ
unfolding count_words
count_free_locked s = count_words s (total_words s)
