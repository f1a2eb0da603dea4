-- ===== src/Filesystems/Fat32/Alloc/Window.antt =====
-- kernel/src/filesystems/fstypes/fat32/alloc.rs: the contiguous window.
use bedrock_stack.Base.{
  ℕ, zero, suc, ◌+◌, ◌-◌, ◌%◌, ◌≤◌, ◌<◌, ◌≡◌, ◌≢◌, refl, ◌∙◌, ◌⊎◌, inl, inr, true, false, some,
  List, Bool-cases, ltb, ◌==◌, length, arith, subst,
}
use bedrock_stack.Filesystems.Fat32.Table.{set_bit}
use bedrock_stack.Filesystems.Fat32.Alloc.{Bits, window_index, window_free, reserve, find_window}
use bedrock_stack.Filesystems.Fat32.Alloc.Bitmap.{Took, Took-none, Took-cons}
use native.Mathlib.Nat.{mod-lt, mod-eq_of_lt, mod-eq-sub-mod}

-- A sum of less than twice the modulus.
pub mod_wrap : (x t : ℕ) → x < t + t → ((x < t) × (x % t ≡ x)) ⊎ ((t ≤ x) × (x % t ≡ x - t))
mod_wrap x t h = elim (Bool-cases (ltb x t)) [
  | inl e ↦ let lt : x < t = ground (arith, e) in inl (lt, mod-eq_of_lt lt)
  | inr e ↦
      let le : t ≤ x = ground (arith, e) in
      let lt : x - t < t = omega arith in inr (le, mod-eq-sub-mod le ∙ mod-eq_of_lt lt)
]

-- The window at `s` has its elements in the bitmap, and no two of them are one.
module _ (total count s : ℕ) (hs : s < total) (hc : count ≤ total) where
  window_inside : (k : ℕ) → k < count → window_index total count s k < total
  window_inside k h = elim (Bool-cases (ltb total (s + count))) [
    | inl e ↦ rw e (mod-lt (s + k) (omega arith))
    | inr e ↦ rw e (ground (arith, e))
  ]

  window_inj :
      (i j : ℕ) → i < j → j < count → window_index total count s i ≢ window_index total count s j
  window_inj i j h k = elim (Bool-cases (ltb total (s + count))) [
    | inl e ↦
        rw e (
          ground
            (arith, mod_wrap (s + i) total (omega arith), mod_wrap (s + j) total (omega arith)))
    | inr e ↦ rw e (λ q. absurd (omega (arith, q)))
  ]

window_free_sound :
    (bits : Bits) (f : ℕ → ℕ) (k n j : ℕ)
    → window_free bits f k n ≡ true
    → k ≤ j
    → j < k + n
    → bits (f j) ≡ false
unfolding window_free
window_free_sound bits f k zero j h le lt = absurd (omega arith)
window_free_sound bits f k (suc n) j h le lt = elim (Bool-cases (bits (f k))) [
  | inl e ↦ absurd (ground (arith, e, h))
  | inr e ↦ elim (Bool-cases (k == j)) [
    | inl q ↦ let eq : k ≡ j = ground arith in subst (λ z. bits (f z) ≡ false) eq e
    | inr q ↦
        window_free_sound bits f (k + 1) n j (ground (arith, e, h)) (ground arith) (omega arith)
  ]
]

reserve-Took :
    (total : ℕ) (f : ℕ → ℕ) (k n : ℕ) (bits : Bits)
    → ((j : ℕ) → k ≤ j → j < k + n → (f j < total) × (bits (f j) ≡ false))
    → ((i j : ℕ) → k ≤ i → i < j → j < k + n → f i ≢ f j)
    → Took total (reserve f k n bits).0 bits (reserve f k n bits).1
      × (length (reserve f k n bits).0 ≡ n)
unfolding reserve
reserve-Took total f k zero bits free inj = (Took-none total bits, refl)
reserve-Took total f k (suc n) bits free inj =
    let here = free k (omega arith) (omega arith) in
    let (t, len) =
      reserve-Took total f (k + 1) n (set_bit true (f k) bits)
        (λ j le lt.
          let there = free j (omega arith) (omega arith) in
          (there.0, ground (arith, there.1, inj k j (omega arith) (omega arith) (omega arith))))
        (λ i j le lt hi. inj i j (omega arith) lt (omega arith)) in
    (Took-cons total (f k) _ bits _ here.0 here.1 t, omega (arith, len))

pub find_window-Took :
    (bits bits' : Bits) (total count start off n : ℕ) (cs : List ℕ)
    → 1 ≤ total
    → count ≤ total
    → find_window bits total count start off n ≡ some (cs, bits')
    → Took total cs bits bits' × (length cs ≡ count)
unfolding find_window
find_window-Took bits bits' total count start off zero cs pos le h = absurd (ground (arith, h))
find_window-Took bits bits' total count start off (suc n) cs pos le h =
    let s = (start + off) % total in
    let f = window_index total count s in
    let inside = mod-lt (start + off) pos in
    elim (Bool-cases (window_free bits f 0 count)) [
      | inl e ↦
          let r =
            reserve-Took total f 0 count bits
              (λ j lo hi. (
                window_inside total count s inside le j (omega arith),
                window_free_sound bits f 0 count j e lo hi,
              ))
              (λ i j lo lt hi. window_inj total count s inside le i j lt (omega arith)) in
          let eq : reserve f 0 count bits ≡ (cs, bits') = ground (arith, e, h) in
          subst (λ o. Took total o.0 bits o.1 × (length o.0 ≡ count)) eq r
      | inr e ↦
          find_window-Took bits bits' total count start (off + 1) n cs pos le (ground (arith, e, h))
    ]
