-- ===== src/Base/Distinct.antt =====
-- Lists of numbers without repetitions, and how long they can be.
use Prim.Native.Nat.{ℕ, zero, suc, ◌+◌, ◌≤◌, ◌<◌}
use mathlib.Core.Path.{◌≡◌, refl, subst}
use mathlib.Core.Bool.{Bool, false, not}
use mathlib.Core.Logic.{inl, inr}
use mathlib.Core.List.{List, [], ◌∷◌}
use native.Mathlib.Omega.{arith}
use bedrock_stack.Base.Tests.{◌==◌, Bool-cases}
use bedrock_stack.Base.Lists.{length, any, filter, All}

abbrev pub mem : ℕ → List ℕ → Bool
mem x xs = any (λ y. y == x) xs

abbrev pub IsDistinct : List ℕ → Type 0
IsDistinct [] = Unit
IsDistinct (x ∷ xs) = (mem x xs ≡ false) × IsDistinct xs

remove : ℕ → List ℕ → List ℕ
remove x xs = filter (λ y. not (y == x)) xs

remove_absent : (x : ℕ) (xs : List ℕ) → mem x xs ≡ false → remove x xs ≡ xs
unfolding remove
remove_absent x [] h = refl
remove_absent x (y ∷ ys) h = ground (arith, remove_absent x ys (ground arith), h)

mem-remove : (x z : ℕ) (xs : List ℕ) → mem z xs ≡ false → mem z (remove x xs) ≡ false
unfolding remove
mem-remove x z [] h = refl
mem-remove x z (y ∷ ys) h = ground (arith, mem-remove x z ys (ground arith), h)

remove-IsDistinct : (x : ℕ) (xs : List ℕ) → IsDistinct xs → IsDistinct (remove x xs)
unfolding remove
remove-IsDistinct x [] h = tt
remove-IsDistinct x (y ∷ ys) h = elim (Bool-cases (y == x)) [
  | inl e ↦ rw e (remove-IsDistinct x ys h.1)
  | inr e ↦ rw e (mem-remove x y ys h.0, remove-IsDistinct x ys h.1)
]

length-remove : (x : ℕ) (xs : List ℕ) → IsDistinct xs → length xs ≤ suc (length (remove x xs))
unfolding remove
length-remove x [] h = omega arith
length-remove x (y ∷ ys) h = elim (Bool-cases (y == x)) [
  | inl e ↦
      let eq : y ≡ x = ground arith in
      let absent : remove x ys ≡ ys = remove_absent x ys (subst (λ z. mem z ys ≡ false) eq h.0) in
      rw e (rw absent (omega arith))
  | inr e ↦ rw e (omega (arith, length-remove x ys h.1))
]

All-remove :
    (P Q : ℕ → Type 0) (x : ℕ) (xs : List ℕ)
    → ((y : ℕ) → (y == x) ≡ false → P y → Q y)
    → All P xs
    → All Q (remove x xs)
unfolding remove
All-remove P Q x [] f h = tt
All-remove P Q x (y ∷ ys) f h = elim (Bool-cases (y == x)) [
  | inl e ↦ rw e (All-remove P Q x ys f h.1)
  | inr e ↦ rw e (f y e h.0, All-remove P Q x ys f h.1)
]

-- Distinct numbers of an interval are no more than it has.
pub length-IsDistinct :
    (a n : ℕ) (xs : List ℕ) → IsDistinct xs → All (λ x. (a ≤ x) × (x < a + n)) xs → length xs ≤ n
length-IsDistinct a zero [] d h = omega arith
length-IsDistinct a zero (x ∷ xs) d h = absurd (omega (arith, h.0))
length-IsDistinct a (suc n) xs d h =
    let rest = length-IsDistinct a n (remove (a + n) xs) (remove-IsDistinct (a + n) xs d) (
      All-remove (λ x. (a ≤ x) × (x < a + suc n)) (λ x. (a ≤ x) × (x < a + n)) (a + n) xs
        (λ y e p. ground (arith, e, p)) h) in
    omega (arith, rest, length-remove (a + n) xs d)
