-- ===== src/Filesystems/Fat32/Extend/Tail.antt =====
-- kernel/src/filesystems/fstypes/fat32/cluster.rs: what `extend_chain` starts with: one cluster
-- allocated, and the last cluster of the chain.
use bedrock_stack.Base.{
  ℕ, zero, suc, ◌+◌, ◌≤◌, ◌<◌, ◌≡◌, refl, sym, ap, ◌∙◌, ◌⊎◌, inl, inr, List, [], ◌∷◌, ◌++◌,
  Bool-cases, leb, length, ok, err, arith, subst, Result-cases,
}
use bedrock_stack.Unispace.{VfsError}
use bedrock_stack.Filesystems.Fat32.{Bpb}
use bedrock_stack.Filesystems.Fat32.Geometry.{IsValid}
use bedrock_stack.Filesystems.Fat32.Table.{Volume, tick, eoc_marker}
use bedrock_stack.Filesystems.Fat32.Table.Entry.{entry, entry-tick, later, read_cases, Agrees}
use bedrock_stack.Filesystems.Fat32.Chain.Spec.{IsChain}
use bedrock_stack.Filesystems.Fat32.Alloc.{alloc_clusters, alloc_cluster}
use bedrock_stack.Filesystems.Fat32.Alloc.Claim.{Claimed}
use bedrock_stack.Filesystems.Fat32.Alloc.Correct.{alloc_clusters-Claimed}
use bedrock_stack.Filesystems.Fat32.Extend.{tail_loop}

single : (cs : List ℕ) → length cs ≡ 1 → (c : ℕ) × (cs ≡ c ∷ [])
single [] h = absurd (omega (arith, h))
single (c ∷ []) h = (c, refl)
single (c ∷ d ∷ cs) h = absurd (omega (arith, h))

alloc_cluster_ok :
    (v w : Volume) (c : ℕ) → alloc_clusters 1 v ≡ (ok (c ∷ []), w) → alloc_cluster v ≡ (ok c, w)
unfolding alloc_cluster
alloc_cluster_ok v w c h = ground (arith, h)

alloc_cluster_err :
    (v w : Volume) (e : VfsError) → alloc_clusters 1 v ≡ (err e, w) → alloc_cluster v ≡ (err e, w)
unfolding alloc_cluster
alloc_cluster_err v w e h = ground (arith, h)

-- One cluster allocated, or an error.
pub alloc_cluster_cases :
    (n : ℕ) (v : Volume)
    → IsValid n v.bpb
    → Agrees v
    → ((c : ℕ) × (w : Volume) × (alloc_cluster v ≡ (ok c, w)) × Claimed (c ∷ []) v w)
      ⊎ ((e : VfsError) × (w : Volume) × (alloc_cluster v ≡ (err e, w)))
alloc_cluster_cases n v valid a =
    let w = (alloc_clusters 1 v).1 in
    elim (Result-cases (alloc_clusters 1 v).0) [
      | inr (e, q) ↦ inr (e, w, alloc_cluster_err v w e (ap (λ r. (r, w)) q))
      | inl (cs, q) ↦
          let p : alloc_clusters 1 v ≡ (ok cs, w) = ap (λ r. (r, w)) q in
          let (cl, len) = alloc_clusters-Claimed n 1 v w cs valid a (omega arith) p in
          let (c, one) = single cs len in
          inl (
            c,
            w,
            alloc_cluster_ok v w c (p ∙ ap (λ l. (ok l, w)) one),
            subst (λ l. Claimed l v w) one cl,
          )
    ]

ends :
    (f : ℕ → ℕ) (b : Bpb) (c x t : ℕ) (xs : List ℕ)
    → IsChain f b c (x ∷ xs)
    → eoc_marker ≤ f c
    → c ≡ t
    → x ∷ xs ≡ t ∷ []
ends f b c x t [] h end e = ap (λ z. z ∷ []) (h.0 ∙ e)
ends f b c x t (y ∷ xs) h end e = absurd (omega (arith, h.3.2, end))

-- The tail that the loop finds is the last cluster of the chain.
pub tail_loop-IsChain :
    (n m c t : ℕ) (v w : Volume) (f : ℕ → ℕ) (xs : List ℕ)
    → IsValid n v.bpb
    → ((d : ℕ) → entry v d ≡ f d)
    → IsChain f v.bpb c xs
    → c < eoc_marker
    → tail_loop m c v ≡ (ok t, w)
    → (pre : List ℕ) × (a : ℕ) × (xs ≡ pre ++ (t ∷ [])) × (w ≡ later a v)
unfolding tail_loop
tail_loop-IsChain n zero c t v w f xs valid e h lt q = absurd (ground (arith, q))
tail_loop-IsChain n (suc m) c t v w f [] valid e h lt q = absurd (omega (arith, h, lt))
tail_loop-IsChain n (suc m) c t v w f (x ∷ xs) valid e h lt q = elim (read_cases n v c valid) [
  | inr (y, a, r) ↦ absurd (ground (arith, r, q))
  | inl (hin, r) ↦ elim (Bool-cases (leb eoc_marker (entry v c))) [
    | inl end ↦
        let q' : tail_loop (suc m) c v ≡ (ok c, tick v) = ground (arith, r, end) in
        let same = sym q' ∙ q in
        let t_is : c ≡ t = ground (arith, same) in
        (
          [],
          v.accesses + 1,
          ends f v.bpb c x t xs h (ground (arith, end, e c)) t_is,
          sym (ap (λ r. r.1) same),
        )
    | inr more ↦
        let next : tail_loop m (entry v c) (tick v) ≡ (ok t, w) = ground (arith, r, q, more) in
        let (pre, a, s, z) =
          tail_loop-IsChain n m (entry v c) t (tick v) w f xs valid (λ d. entry-tick v d ∙ e d)
            (subst (λ y. IsChain f v.bpb y xs) (sym (e c)) h.3) (ground (arith, more)) next in
        (x ∷ pre, a, ap (λ l. x ∷ l) s, z)
  ]
]
