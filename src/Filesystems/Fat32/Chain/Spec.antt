-- ===== src/Filesystems/Fat32/Chain/Spec.antt =====
-- kernel/src/filesystems/fstypes/fat32/cluster.rs: what a chain is in a table, as a relation between
-- its first cluster and its clusters in order.
use bedrock_stack.Base.{
  ℕ, suc, ◌+◌, ◌≤◌, ◌<◌, ◌≡◌, refl, ap, inl, inr, true, ◌==◌, List, [], ◌∷◌, Bool-cases, length,
  All, mem, IsDistinct, length-IsDistinct, arith, subst,
}
use bedrock_stack.Filesystems.Fat32.{Bpb, in_volume}
use bedrock_stack.Filesystems.Fat32.Geometry.{in_volume_bounds}
use bedrock_stack.Filesystems.Fat32.Table.{eoc_marker}

-- The list of the clusters of the chain that starts at a cluster; an end marker starts the empty one.
abbrev pub IsChain : (ℕ → ℕ) → Bpb → ℕ → List ℕ → Type 0
IsChain f b c [] = eoc_marker ≤ c
IsChain f b c (x ∷ xs) = (x ≡ c) × (in_volume b c ≡ true) × (c < eoc_marker) × IsChain f b (f c) xs

module _ (f : ℕ → ℕ) (b : Bpb) where
  unique :
      (c d : ℕ) (xs ys : List ℕ)
      → c ≡ d
      → IsChain f b c xs
      → IsChain f b d ys
      → length xs ≡ length ys
  unique c d [] [] e h k = refl
  unique c d [] (y ∷ ys) e h k = absurd (omega (arith, h, k.2, e))
  unique c d (x ∷ xs) [] e h k = absurd (omega (arith, h.2, k, e))
  unique c d (x ∷ xs) (y ∷ ys) e h k = ap suc (unique (f c) (f d) xs ys (ap f e) h.3 k.3)

  -- A cluster of a chain starts a chain that is no longer.
  suffix :
      (c d : ℕ) (xs : List ℕ)
      → IsChain f b c xs
      → mem d xs ≡ true
      → (ys : List ℕ) × IsChain f b d ys × (length ys ≤ length xs)
  suffix c d [] h m = absurd (ground (arith, m))
  suffix c d (x ∷ xs) h m = elim (Bool-cases (x == d)) [
    | inl e ↦
        let eq : c ≡ d = ground (arith, h.0, e) in
        (x ∷ xs, subst (λ z. IsChain f b z (x ∷ xs)) eq h, omega arith)
    | inr e ↦
        let (ys, k, le) = suffix (f c) d xs h.3 (ground (arith, m, e)) in (ys, k, omega (arith, le))
  ]

  pub IsChain-IsDistinct : (c : ℕ) (xs : List ℕ) → IsChain f b c xs → IsDistinct xs
  IsChain-IsDistinct c [] h = tt
  IsChain-IsDistinct c (x ∷ xs) h = (
    elim (Bool-cases (mem x xs)) [
      | inl m ↦
          let (ys, k, le) = suffix (f c) x xs h.3 m in
          absurd (omega (arith, le, unique x c ys (x ∷ xs) h.0 k h))
      | inr m ↦ m
    ],
    IsChain-IsDistinct (f c) xs h.3,
  )

  IsChain-bounds :
      (c : ℕ) (xs : List ℕ) → IsChain f b c xs → All (λ x. (2 ≤ x) × (x < 2 + b.total_clus)) xs
  IsChain-bounds c [] h = tt
  IsChain-bounds c (x ∷ xs) h =
      let k = in_volume_bounds b c h.1 in
      ((omega (arith, k, h.0), omega (arith, k, h.0)), IsChain-bounds (f c) xs h.3)

  pub length-IsChain : (c : ℕ) (xs : List ℕ) → IsChain f b c xs → length xs ≤ b.total_clus
  length-IsChain c xs h =
      length-IsDistinct 2 b.total_clus xs (IsChain-IsDistinct c xs h) (IsChain-bounds c xs h)

-- Tables that agree on the clusters of a list have the same chain there.
pub IsChain-ext :
    (f g : ℕ → ℕ) (b : Bpb) (c : ℕ) (xs : List ℕ)
    → All (λ x. f x ≡ g x) xs
    → IsChain f b c xs
    → IsChain g b c xs
IsChain-ext f g b c [] e h = h
IsChain-ext f g b c (x ∷ xs) e h = (
  h.0,
  h.1,
  h.2,
  IsChain-ext f g b (g c) xs e.1
      (subst (λ z. IsChain f b z xs) (subst (λ y. f y ≡ g y) h.0 e.0) h.3),
)
