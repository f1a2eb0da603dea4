-- ===== src/Filesystems/Fat32/Chain/Length.antt =====
-- kernel/src/filesystems/fstypes/fat32/cluster.rs: `chain_len` counts the clusters of the chain.
use bedrock_stack.Base.{
  ℕ, zero, suc, ◌+◌, ◌≤◌, ◌<◌, ◌≡◌, refl, sym, ap, ◌∙◌, inl, inr, true, false, List, [], ◌∷◌,
  Bool-cases, leb, length, ok, arith, subst,
}
use bedrock_stack.Filesystems.Fat32.{in_volume}
use bedrock_stack.Filesystems.Fat32.Geometry.{IsValid, in_volume_bounds}
use bedrock_stack.Filesystems.Fat32.Table.{Volume, tick, eoc_marker}
use bedrock_stack.Filesystems.Fat32.Table.Entry.{
  entry, entry-tick, Works, later, read_ok, read_cases,
}
use bedrock_stack.Filesystems.Fat32.Chain.{chain_len_loop, chain_len}
use bedrock_stack.Filesystems.Fat32.Chain.Spec.{IsChain, length-IsChain}

-- A round, by what the entry says.
module _ (n : ℕ) (v : Volume) (m k c : ℕ) (valid : IsValid n v.bpb) where
  len_end :
      in_volume v.bpb c ≡ true
      → v.fails v.accesses ≡ false
      → leb eoc_marker (entry v c) ≡ true
      → chain_len_loop (suc m) c k v ≡ (ok k, tick v)
  unfolding chain_len_loop
  len_end h w e = ground (arith, read_ok n v c valid h w, e)

  len_next :
      in_volume v.bpb c ≡ true
      → v.fails v.accesses ≡ false
      → leb eoc_marker (entry v c) ≡ false
      → chain_len_loop (suc m) c k v ≡ chain_len_loop m (entry v c) (k + 1) (tick v)
  unfolding chain_len_loop
  len_next h w e = ground (arith, read_ok n v c valid h w, e)

-- The loop on a chain, with `k` clusters counted and `m` rounds left.
loop-IsChain :
    (n : ℕ) (v : Volume) (f : ℕ → ℕ) (m k c : ℕ) (xs : List ℕ)
    → IsValid n v.bpb
    → Works v
    → ((d : ℕ) → entry v d ≡ f d)
    → IsChain f v.bpb c xs
    → c < eoc_marker
    → length xs ≤ m
    → (a : ℕ) × (chain_len_loop m c (k + 1) v ≡ (ok (k + length xs), later a v))
loop-IsChain n v f m k c [] valid works e h lt le = absurd (omega (arith, h, lt))
loop-IsChain n v f zero k c (x ∷ xs) valid works e h lt le = absurd (omega arith)
loop-IsChain n v f (suc m) k c (x ∷ []) valid works e h lt le = (
  v.accesses + 1,
  len_end n v m (k + 1) c valid h.1 (works v.accesses) (ground (arith, h.3, e c)),
)
loop-IsChain n v f (suc m) k c (x ∷ y ∷ xs) valid works e h lt le =
    let small : entry v c < eoc_marker = omega (arith, h.3.2, e c) in
    let chain = subst (λ z. IsChain f v.bpb z (y ∷ xs)) (sym (e c)) h.3 in
    let (a, r) =
      loop-IsChain n (tick v) f m (k + 1) (entry v c) (y ∷ xs) valid works
        (λ d. entry-tick v d ∙ e d) chain small (omega arith) in
    let count : k + 1 + length (y ∷ xs) ≡ k + length (x ∷ y ∷ xs) = omega arith in
    (
      a,
      len_next n v m (k + 1) c valid h.1 (works v.accesses) (ground arith)
          ∙ (r ∙ ap (λ z. (ok z, later a v)) count),
    )

-- What the loop returns is counted on a chain, whatever the device answers.
loop_sound :
    (n : ℕ) (v w : Volume) (f : ℕ → ℕ) (m k c r : ℕ)
    → IsValid n v.bpb
    → ((d : ℕ) → entry v d ≡ f d)
    → c < eoc_marker
    → chain_len_loop m c (k + 1) v ≡ (ok r, w)
    → (xs : List ℕ) × IsChain f v.bpb c xs × (r ≡ k + length xs)
unfolding chain_len_loop
loop_sound n v w f zero k c r valid e lt h = absurd (ground (arith, h))
loop_sound n v w f (suc m) k c r valid e lt h = elim (read_cases n v c valid) [
  | inr (x, a, q) ↦ absurd (ground (arith, q, h))
  | inl (hin, q) ↦ elim (Bool-cases (leb eoc_marker (entry v c))) [
    | inl t ↦ (c ∷ [], (refl, hin, lt, ground (arith, t, e c)), ground (arith, q, h, t))
    | inr t ↦
        let next : chain_len_loop m (entry v c) (k + 1 + 1) (tick v) ≡ (ok r, w) =
          ground (arith, q, h, t) in
        let (xs, chain, count) =
          loop_sound n (tick v) w f m (k + 1) (entry v c) r valid (λ d. entry-tick v d ∙ e d)
            (ground (arith, t)) next in
        (
          c ∷ xs,
          (refl, hin, lt, subst (λ z. IsChain f v.bpb z xs) (e c) chain),
          omega (arith, count),
        )
  ]
]

-- On a chain of a valid volume, with a device that answers, `chain_len` returns the chain's length and
-- leaves the volume as it was: it never gives up on a chain, however long.
pub chain_len-IsChain :
    (n : ℕ) (v : Volume) (c : ℕ) (xs : List ℕ)
    → IsValid n v.bpb
    → Works v
    → IsChain (entry v) v.bpb c xs
    → (a : ℕ) × (chain_len c v ≡ (ok (length xs), later a v))
unfolding chain_len
chain_len-IsChain n v c [] valid works h = (v.accesses, ground (arith, h))
chain_len-IsChain n v c (x ∷ xs) valid works h =
    let le = length-IsChain (entry v) v.bpb c (x ∷ xs) h in
    let k = in_volume_bounds v.bpb c h.1 in
    let (a, r) =
      loop-IsChain n v (entry v) (v.bpb.total_clus + 2) 0 c (x ∷ xs) valid works (λ d. refl) h h.2
        (omega (arith, le)) in
    (a, ground (arith, r, k, h.2))

-- A length that `chain_len` returns is that of a chain in the table, also where the device fails some
-- accesses and where the table has loops or entries out of range.
pub chain_len_sound :
    (n : ℕ) (v w : Volume) (c r : ℕ)
    → IsValid n v.bpb
    → 1 ≤ c
    → chain_len c v ≡ (ok r, w)
    → (xs : List ℕ) × IsChain (entry v) v.bpb c xs × (r ≡ length xs)
unfolding chain_len
chain_len_sound n v w c r valid pos h = elim (Bool-cases (leb eoc_marker c)) [
  | inl t ↦ ([], ground (arith, t), ground (arith, t, h))
  | inr t ↦
      let (xs, chain, count) =
        loop_sound n v w (entry v) (v.bpb.total_clus + 2) 0 c r valid (λ d. refl)
          (ground (arith, t)) (ground (arith, h, t)) in
      (xs, chain, omega (arith, count))
]
