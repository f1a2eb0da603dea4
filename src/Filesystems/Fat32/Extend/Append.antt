-- ===== src/Filesystems/Fat32/Extend/Append.antt =====
-- kernel/src/filesystems/fstypes/fat32/cluster.rs: `extend_chain` on a chain.
use bedrock_stack.Base.{
  ℕ, zero, suc, ◌+◌, ◌≤◌, ◌<◌, ◌≡◌, refl, sym, ap, ◌∙◌, inl, inr, List, [], ◌∷◌, ◌++◌, length, ok,
  err, arith, subst, Result-cases,
}
use mathlib.Core.List.{append_assoc}
use bedrock_stack.Unispace.{VfsError}
use bedrock_stack.Filesystems.Fat32.Geometry.{IsValid}
use bedrock_stack.Filesystems.Fat32.Table.{Volume, tick, eoc_marker, write_fat_entry}
use bedrock_stack.Filesystems.Fat32.Table.Entry.{entry, put, later, write_cases, Agrees}
use bedrock_stack.Filesystems.Fat32.Chain.Spec.{IsChain}
use bedrock_stack.Filesystems.Fat32.Alloc.{alloc_cluster}
use bedrock_stack.Filesystems.Fat32.Extend.{zero_cluster, tail_loop, append_loop, extend_chain}
use bedrock_stack.Filesystems.Fat32.Extend.Data.{
  HasTable, put_cluster, write_cluster_cases, put_cluster-bpb,
}
use bedrock_stack.Filesystems.Fat32.Extend.Round.{linked, linked-bpb, linked-IsChain, linked-Agrees}
use bedrock_stack.Filesystems.Fat32.Extend.Tail.{alloc_cluster_cases, tail_loop-IsChain}

module _ (v u : Volume) (k t new : ℕ) (alloc : alloc_cluster v ≡ (ok new, u)) where
  append_zero_err :
      (e : VfsError) (a : ℕ)
      → zero_cluster new u ≡ (err e, later a u)
      → append_loop (suc k) t v ≡ (err e, later a u)
  unfolding append_loop
  append_zero_err e a h = ground (arith, alloc, h)

  append_write_err :
      (x y : Volume) (e : VfsError)
      → zero_cluster new u ≡ (ok tt, x)
      → write_fat_entry t new x ≡ (err e, y)
      → append_loop (suc k) t v ≡ (err e, y)
  unfolding append_loop
  append_write_err x y e h q = ground (arith, alloc, h, q)

  append_round :
      (x y : Volume)
      → zero_cluster new u ≡ (ok tt, x)
      → write_fat_entry t new x ≡ (ok tt, y)
      → append_loop (suc k) t v ≡ append_loop k new y
  unfolding append_loop
  append_round x y h q = ground (arith, alloc, h, q)

append_err :
    (v u : Volume) (k t : ℕ) (e : VfsError)
    → alloc_cluster v ≡ (err e, u)
    → append_loop (suc k) t v ≡ (err e, u)
unfolding append_loop
append_err v u k t e h = ground (arith, h)

-- A round that succeeds.
round_inv :
    (n k t new : ℕ) (v u w : Volume)
    → IsValid n u.bpb
    → alloc_cluster v ≡ (ok new, u)
    → append_loop (suc k) t v ≡ (ok tt, w)
    → append_loop k new (linked t new u) ≡ (ok tt, w)
unfolding linked zero_cluster
round_inv n k t new v u w valid alloc h = elim (write_cluster_cases u new (λ k i. 0)) [
  | inr (e, a, q) ↦ absurd (ground (arith, h, append_zero_err v u k t new alloc e a q))
  | inl (hin, q) ↦
      let x = put_cluster new (λ k i. 0) (tick u) in
      elim (write_cases n x t
        (subst (IsValid n) (sym (put_cluster-bpb new (λ k i. 0) (tick u))) valid) new) [
          | inr (e, a, r) ↦
              absurd (ground (arith, h, append_write_err v u k t new alloc x (later a x) e q r))
          | inl (_, r) ↦ sym (append_round v u k t new alloc x (put t new (tick x)) q r) ∙ h
        ]
]

append-IsChain :
    (n k c t : ℕ) (v w : Volume) (pre : List ℕ)
    → IsValid n v.bpb
    → HasTable v.bpb
    → v.bpb.total_clus + 2 ≤ eoc_marker
    → Agrees v
    → IsChain (entry v) v.bpb c (pre ++ (t ∷ []))
    → append_loop k t v ≡ (ok tt, w)
    → (new : List ℕ) × (length new ≡ k) × IsChain (entry w) w.bpb c (pre ++ (t ∷ new)) × Agrees w
unfolding append_loop
append-IsChain n zero c t v w pre valid table limit a h q =
    let e : v ≡ w = ap (λ r. r.1) q in
    ([], refl, subst (λ u. IsChain (entry u) u.bpb c (pre ++ (t ∷ []))) e h, subst Agrees e a)
append-IsChain n (suc k) c t v w pre valid table limit a h q =
    elim (alloc_cluster_cases n v valid a) [
      | inr (e, u, r) ↦ absurd (ground (arith, q, append_err v u k t e r))
      | inl (new, u, r, cl) ↦
          let x = linked t new u in
          let same = linked-bpb t new u ∙ cl.same_bpb in
          let next = round_inv n k t new v u w (subst (IsValid n) (sym cl.same_bpb) valid) r q in
          let chain =
            subst (λ b. IsChain (entry x) b c (pre ++ (t ∷ new ∷ []))) (sym same)
              (linked-IsChain n v u t new valid table limit cl c pre h) in
          let split = append_assoc pre (t ∷ []) (new ∷ []) in
          let (rest, len, longer, agree) =
            append-IsChain n k c new x w (pre ++ (t ∷ [])) (subst (IsValid n) (sym same) valid)
              (subst HasTable (sym same) table)
              (subst (λ b. b.total_clus + 2 ≤ eoc_marker) (sym same) limit)
              (linked-Agrees n v u t new valid table limit cl c pre h a)
              (subst (IsChain (entry x) x.bpb c) (sym split) chain) next in
          (
            new ∷ rest,
            ap suc len,
            subst (IsChain (entry w) w.bpb c) (append_assoc pre (t ∷ []) (new ∷ rest)) longer,
            agree,
          )
    ]

extend_tail :
    (v u : Volume) (c k t : ℕ)
    → tail_loop (v.bpb.total_clus + 3) c v ≡ (ok t, u)
    → extend_chain c k v ≡ append_loop k t u
unfolding extend_chain
extend_tail v u c k t h = ground (arith, h)

extend_err :
    (v u : Volume) (c k : ℕ) (e : VfsError)
    → tail_loop (v.bpb.total_clus + 3) c v ≡ (err e, u)
    → extend_chain c k v ≡ (err e, u)
unfolding extend_chain
extend_err v u c k e h = ground (arith, h)

same-IsChain :
    (a c : ℕ) (v u : Volume) (xs : List ℕ)
    → u ≡ later a v
    → IsChain (entry v) v.bpb c xs
    → IsChain (entry u) u.bpb c xs
unfolding entry
same-IsChain a c v u xs e h = subst (λ x. IsChain (entry x) x.bpb c xs) (sym e) h

same_Agrees : (a : ℕ) (v u : Volume) → u ≡ later a v → Agrees v → Agrees u
unfolding entry
same_Agrees a v u e h = subst Agrees (sym e) h

-- An `extend_chain` that succeeds, on a chain of a volume with no more clusters than 28 bits can number and a
-- table that has room for them, has put as many clusters as asked for behind the chain, which is
-- otherwise as before, and the bitmap agrees with the table.
pub extend_chain-IsChain :
    (n k c : ℕ) (v w : Volume) (xs : List ℕ)
    → IsValid n v.bpb
    → HasTable v.bpb
    → v.bpb.total_clus + 2 ≤ eoc_marker
    → Agrees v
    → c < eoc_marker
    → IsChain (entry v) v.bpb c xs
    → extend_chain c k v ≡ (ok tt, w)
    → (new : List ℕ) × (length new ≡ k) × IsChain (entry w) w.bpb c (xs ++ new) × Agrees w
extend_chain-IsChain n k c v w xs valid table limit a small h q =
    let r = tail_loop (v.bpb.total_clus + 3) c v in
    elim (Result-cases r.0) [
      | inr (e, p) ↦ absurd (ground (arith, q, extend_err v r.1 c k e (ap (λ z. (z, r.1)) p)))
      | inl (t, p) ↦
          let p' : tail_loop (v.bpb.total_clus + 3) c v ≡ (ok t, r.1) = ap (λ z. (z, r.1)) p in
          let (pre, b, split, same) =
            tail_loop-IsChain n (v.bpb.total_clus + 3) c t v r.1 (entry v) xs valid (λ d. refl) h
              small p' in
          let bpb : r.1.bpb ≡ v.bpb = ap (λ u. u.bpb) same in
          let (new, len, chain, agree) =
            append-IsChain n k c t r.1 w pre (subst (IsValid n) (sym bpb) valid)
              (subst HasTable (sym bpb) table)
              (subst (λ z. z.total_clus + 2 ≤ eoc_marker) (sym bpb) limit)
              (same_Agrees b v r.1 same a)
              (subst (IsChain (entry r.1) r.1.bpb c) split (same-IsChain b c v r.1 xs same h))
              (sym (extend_tail v r.1 c k t p') ∙ q) in
          let joined : xs ++ new ≡ pre ++ (t ∷ new) =
            ap (λ l. l ++ new) split ∙ append_assoc pre (t ∷ []) new in
          (new, len, subst (IsChain (entry w) w.bpb c) (sym joined) chain, agree)
    ]
