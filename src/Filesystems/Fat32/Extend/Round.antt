-- ===== src/Filesystems/Fat32/Extend/Round.antt =====
-- kernel/src/filesystems/fstypes/fat32/cluster.rs: a round of `extend_chain` puts a cluster behind the
-- last one of the chain.
use bedrock_stack.Base.{
  ℕ, ◌+◌, ◌-◌, ◌≤◌, ◌<◌, ◌≡◌, refl, sym, ap, ◌∙◌, inl, inr, Bool, true, false, not, List, [], ◌∷◌,
  ◌++◌, Bool-cases, ◌==◌, mem, arith, if◌then◌else◌, subst,
}
use bedrock_stack.Filesystems.Fat32.{Bpb, in_volume}
use bedrock_stack.Filesystems.Fat32.Geometry.{IsValid, in_volume_bounds}
use bedrock_stack.Filesystems.Fat32.Table.{Volume, tick, eoc_marker, put_entry}
use bedrock_stack.Filesystems.Fat32.Table.Entry.{
  entry, put, entry-put, entry-tick, bit_of, is_some, is_marked, has_bitmap, Agrees,
}
use bedrock_stack.Filesystems.Fat32.Chain.Spec.{IsChain, IsChain-IsDistinct}
use bedrock_stack.Filesystems.Fat32.Alloc.Claim.{Claimed}
use bedrock_stack.Filesystems.Fat32.Extend.{put_sectors}
use bedrock_stack.Filesystems.Fat32.Extend.Data.{HasTable, put_cluster, entry-put_cluster}

-- The last cluster of a chain.
pub last_cluster :
    (f : ℕ → ℕ) (b : Bpb) (c t : ℕ) (pre : List ℕ)
    → IsChain f b c (pre ++ (t ∷ []))
    → (in_volume b t ≡ true) × (eoc_marker ≤ f t)
last_cluster f b c t [] h =
    (subst (λ z. in_volume b z ≡ true) (sym h.0) h.1, subst (λ z. eoc_marker ≤ f z) (sym h.0) h.3)
last_cluster f b c t (x ∷ pre) h = last_cluster f b (f c) t pre h.3

mem-last : (x t : ℕ) (pre : List ℕ) → mem x (pre ++ (t ∷ [])) ≡ false → (x == t) ≡ false
mem-last x t [] h = ground (arith, h)
mem-last x t (p ∷ pre) h = mem-last x t pre (ground (arith, h))

head_above :
    (f : ℕ → ℕ) (b : Bpb) (c t : ℕ) (pre : List ℕ) → IsChain f b c (pre ++ (t ∷ [])) → 2 ≤ c
head_above f b c t [] h = (in_volume_bounds b c h.1).0
head_above f b c t (x ∷ pre) h = (in_volume_bounds b c h.1).0

IsChain-extend :
    (f g : ℕ → ℕ) (b : Bpb) (c t new : ℕ) (pre : List ℕ)
    → ((x : ℕ) → in_volume b x ≡ true → (x == t) ≡ false → (x == new) ≡ false → g x ≡ f x)
    → f new ≡ 0
    → g t ≡ new
    → eoc_marker ≤ g new
    → in_volume b new ≡ true
    → new < eoc_marker
    → IsChain f b c (pre ++ (t ∷ []))
    → IsChain g b c (pre ++ (t ∷ new ∷ []))
IsChain-extend f g b c t new [] same free link end hin lt h =
    let e : g c ≡ new = subst (λ z. g z ≡ new) h.0 link in
    (h.0, h.1, h.2, subst (λ z. IsChain g b z (new ∷ [])) (sym e) (refl, hin, lt, end))
IsChain-extend f g b c t new (x ∷ pre) same free link end hin lt h =
    let fresh = (IsChain-IsDistinct f b c (x ∷ (pre ++ (t ∷ []))) h).0 in
    let not_last = subst (λ z. (z == t) ≡ false) h.0 (mem-last x t pre fresh) in
    let above = head_above f b (f c) t pre h.3 in
    let not_new : (c == new) ≡ false = elim (Bool-cases (c == new)) [
      | inl e ↦ let eq : c ≡ new = ground (arith, e) in absurd (omega (arith, above, ap f eq, free))
      | inr e ↦ e
    ] in
    (
      h.0,
      h.1,
      h.2,
      subst (λ z. IsChain g b z (pre ++ (t ∷ new ∷ []))) (sym (same c h.1 not_last not_new))
          (IsChain-extend f g b (f c) t new pre same free link end hin lt h.3),
    )

-- The bit and the entry of a cluster, when `new` is marked and the entry of `t` names it.
agree_after :
    (d t new : ℕ) (m m' has : Bool) (e e' : ℕ)
    → m ≡ (if mem d (new ∷ []) then has else m')
    → has ≡ true
    → m' ≡ not (e' == 0)
    → e ≡ (if d == t then new else if d == new then eoc_marker else e')
    → 2 ≤ new
    → (d ≡ t → eoc_marker ≤ e')
    → m ≡ not (e == 0)
agree_after d t new m m' has e e' h k a q above last = ground (arith, h, k, a, q, above, last)

-- The state after a round that no access fails.
unfoldable pub linked : ℕ → ℕ → Volume → Volume
linked t new v = put t new (tick (put_cluster new (λ k i. 0) (tick v)))

pub linked-bpb : (t new : ℕ) (v : Volume) → (linked t new v).bpb ≡ v.bpb
unfolding linked put put_entry put_cluster put_sectors
linked-bpb t new v = refl

linked-bitmap : (t new : ℕ) (v : Volume) → (linked t new v).alloc_bitmap ≡ v.alloc_bitmap
unfolding linked put put_entry put_cluster put_sectors
linked-bitmap t new v = refl

module _ (n : ℕ) (v w : Volume) (t new : ℕ) (valid : IsValid n v.bpb) (table : HasTable v.bpb)
    (limit : v.bpb.total_clus + 2 ≤ eoc_marker) (cl : Claimed (new ∷ []) v w) where
  inside : in_volume v.bpb new ≡ true
  inside = cl.fresh.0.0

  pub below : new < eoc_marker
  below = omega (arith, in_volume_bounds v.bpb new inside, limit)

  entry-linked :
      (d : ℕ)
      → in_volume v.bpb d ≡ true
      → entry (linked t new w) d
        ≡ (if d == t then new else if d == new then eoc_marker else entry v d)
  unfolding linked
  entry-linked d h =
      let data' =
        entry-put_cluster n (tick w) new d (λ k i. 0) (subst (IsValid n) (sym cl.same_bpb) valid)
          (subst HasTable (sym cl.same_bpb) table)
          (subst (λ b. in_volume b new ≡ true) (sym cl.same_bpb) inside)
          (subst (λ b. in_volume b d ≡ true) (sym cl.same_bpb) h) in
      ground (
        arith,
        entry-put (tick (put_cluster new (λ k i. 0) (tick w))) t d new,
        entry-tick (put_cluster new (λ k i. 0) (tick w)) d,
        data',
        entry-tick w d,
        cl.entries d,
        below,
      )

  differ : (c : ℕ) (pre : List ℕ) → IsChain (entry v) v.bpb c (pre ++ (t ∷ [])) → (new == t) ≡ false
  differ c pre h = elim (Bool-cases (new == t)) [
    | inl e ↦
        let eq : new ≡ t = ground (arith, e) in
        let l = last_cluster (entry v) v.bpb c t pre h in
        absurd (omega (arith, l.1, ap (entry v) eq, cl.fresh.0.1))
    | inr e ↦ e
  ]

  pub linked-IsChain :
      (c : ℕ) (pre : List ℕ)
      → IsChain (entry v) v.bpb c (pre ++ (t ∷ []))
      → IsChain (entry (linked t new w)) v.bpb c (pre ++ (t ∷ new ∷ []))
  linked-IsChain c pre h =
      let l = last_cluster (entry v) v.bpb c t pre h in
      let et = entry-linked t l.0 in
      let en = entry-linked new inside in
      IsChain-extend (entry v) (entry (linked t new w)) v.bpb c t new pre
        (λ x hx a b. ground (arith, entry-linked x hx, a, b)) cl.fresh.0.1 (ground (arith, et))
        (ground (arith, en, differ c pre h)) inside below h

  pub linked-Agrees :
      (c : ℕ) (pre : List ℕ)
      → IsChain (entry v) v.bpb c (pre ++ (t ∷ []))
      → Agrees v
      → Agrees (linked t new w)
  linked-Agrees c pre h a k d hd =
      let l = last_cluster (entry v) v.bpb c t pre h in
      let inside_d = subst (λ b. in_volume b d ≡ true) (linked-bpb t new w ∙ cl.same_bpb) hd in
      let has = sym cl.same_kind ∙ (sym (ap is_some (linked-bitmap t new w)) ∙ k) in
      let mark = ap (λ o. bit_of o (d - 2)) (linked-bitmap t new w) ∙ cl.bits d inside_d in
      let above = in_volume_bounds v.bpb new inside in
      agree_after d t new (is_marked (linked t new w) d) (is_marked v d) (has_bitmap v)
        (entry (linked t new w) d) (entry v d) mark has (a has d inside_d) (entry-linked d inside_d)
        above.0 (λ e. subst (λ z. eoc_marker ≤ entry v z) (sym e) l.1)
