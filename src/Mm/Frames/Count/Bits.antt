-- ===== src/Mm/Frames/Count/Bits.antt =====
-- The number of free frames below a bound, and what setting bits does to it.
use bedrock_stack.Base.{
  ℕ, zero, suc, ◌+◌, ◌≤◌, ◌<◌, ◌≡◌, inl, inr, refl, Bool, true, false, if◌then◌else◌, ◌==◌, arith,
  Bool-cases,
}
use bedrock_stack.Mm.Frames.{set_bit}

unfoldable pub free_below : (ℕ → Bool) → ℕ → ℕ
free_below used zero = 0
free_below used (suc n) = free_below used n + (if used n then 0 else 1)

pub free_below-le : (used : ℕ → Bool) (n : ℕ) → free_below used n ≤ n
unfolding free_below
free_below-le used zero = omega arith
free_below-le used (suc n) = ground (arith, free_below-le used n)

-- A bit beyond the bound does not count.
free_below-set_beyond :
    (b : Bool) (used : ℕ → Bool) (i n : ℕ)
    → n ≤ i
    → free_below (set_bit b i used) n ≡ free_below used n
unfolding free_below
free_below-set_beyond b used i zero h = refl
free_below-set_beyond b used i (suc n) h = ground (arith, free_below-set_beyond b used i n)

-- Taking a free frame lowers the count by one.
pub free_below-take :
    (used : ℕ → Bool) (i n : ℕ)
    → i < n
    → used i ≡ false
    → free_below (set_bit true i used) n + 1 ≡ free_below used n
unfolding free_below
free_below-take used i zero h u = absurd (omega arith)
free_below-take used i (suc n) h u = elim (Bool-cases (n == i)) [
  | inl e ↦
      let same : n ≡ i = ground arith in
      ground (arith, free_below-set_beyond true used i n, same, u)
  | inr e ↦ ground (arith, free_below-take used i n (ground arith) u)
]

-- Freeing a used frame raises it by one.
pub free_below-release :
    (used : ℕ → Bool) (i n : ℕ)
    → i < n
    → used i ≡ true
    → free_below (set_bit false i used) n ≡ free_below used n + 1
unfolding free_below
free_below-release used i zero h u = absurd (omega arith)
free_below-release used i (suc n) h u = elim (Bool-cases (n == i)) [
  | inl e ↦
      let same : n ≡ i = ground arith in
      ground (arith, free_below-set_beyond false used i n, same, u)
  | inr e ↦ ground (arith, free_below-release used i n (ground arith) u)
]

pub free_below_mono : (used : ℕ → Bool) (n k : ℕ) → free_below used n ≤ free_below used (n + k)
unfolding free_below
free_below_mono used n zero = let e : n + 0 ≡ n = omega arith in rw e (omega arith)
free_below_mono used n (suc k) =
    let e : n + suc k ≡ suc (n + k) = omega arith in rw e (ground (arith, free_below_mono used n k))
