-- ===== src/Filesystems/Fat32/Chain/Truncate.antt =====
-- kernel/src/filesystems/fstypes/fat32/cluster.rs: `truncate_chain` keeps the first clusters of a chain
-- and frees the rest.
use bedrock_stack.Base.{
  ℕ, suc, ◌+◌, ◌-◌, ◌≤◌, ◌<◌, ◌≡◌, refl, sym, ap, ◌∙◌, inl, inr, true, false, some, List, [], ◌∷◌,
  ◌++◌, Bool-cases, ◌==◌, length, mem, IsDistinct, All, ok, arith, if◌then◌else◌, subst,
}
use bedrock_stack.Filesystems.Fat32.{Bpb, in_volume}
use bedrock_stack.Filesystems.Fat32.Geometry.{IsValid, in_volume_bounds}
use bedrock_stack.Filesystems.Fat32.Table.{Volume, tick, eoc_marker, put_entry}
use bedrock_stack.Filesystems.Fat32.Table.Entry.{
  entry, put, entry-put, entry-tick, entry-later, Works, later, read_ok, write_ok,
}
use bedrock_stack.Filesystems.Fat32.Chain.{free_chain, skip, cut, truncate_chain}
use bedrock_stack.Filesystems.Fat32.Chain.Spec.{IsChain, IsChain-ext, IsChain-IsDistinct}
use bedrock_stack.Filesystems.Fat32.Chain.FreeLoop.{free_chain-Freed}

-- A step over a cluster whose chain goes on.
skip_next :
    (n : ℕ) (v : Volume) (m c : ℕ)
    → IsValid n v.bpb
    → Works v
    → in_volume v.bpb c ≡ true
    → entry v c < eoc_marker
    → skip (suc m) c v ≡ skip m (entry v c) (tick v)
unfolding skip
skip_next n v m c valid works h lt = ground (arith, read_ok n v c valid h (works v.accesses), lt)

-- The head of a chain that is not empty.
head_is :
    (f : ℕ → ℕ) (b : Bpb) (c d : ℕ) (pre zs : List ℕ)
    → IsChain f b c (pre ++ (d ∷ zs))
    → c < eoc_marker
head_is f b c d [] zs h = h.2
head_is f b c d (x ∷ pre) zs h = h.2

skip-IsChain :
    (n : ℕ) (v : Volume) (f : ℕ → ℕ) (c d : ℕ) (pre zs : List ℕ)
    → IsValid n v.bpb
    → Works v
    → ((z : ℕ) → entry v z ≡ f z)
    → IsChain f v.bpb c (pre ++ (d ∷ zs))
    → (a : ℕ) × (skip (length pre) c v ≡ (ok (some d), later a v)) × IsChain f v.bpb d (d ∷ zs)
unfolding skip
skip-IsChain n v f c d [] zs valid works e h = (
  v.accesses,
  ap (λ z. (ok (some z), v)) (sym h.0),
  subst (λ z. IsChain f v.bpb z (d ∷ zs)) (sym h.0) h,
)
skip-IsChain n v f c d (x ∷ pre) zs valid works e h =
    let lt : entry v c < eoc_marker = omega (arith, head_is f v.bpb (f c) d pre zs h.3, e c) in
    let (a, q, r) =
      skip-IsChain n (tick v) f (entry v c) d pre zs valid works (λ z. entry-tick v z ∙ e z)
        (subst (λ z. IsChain f v.bpb z (pre ++ (d ∷ zs))) (sym (e c)) h.3) in
    (a, skip_next n v (length pre) c valid works h.1 lt ∙ q, r)

-- The chain up to a cluster whose entry became an end marker.
IsChain-cut :
    (f g : ℕ → ℕ) (b : Bpb) (c d : ℕ) (pre zs : List ℕ)
    → IsChain f b c (pre ++ (d ∷ zs))
    → All (λ x. g x ≡ f x) pre
    → eoc_marker ≤ g d
    → IsChain g b c (pre ++ (d ∷ []))
IsChain-cut f g b c d [] zs h e end = (h.0, h.1, h.2, subst (λ z. eoc_marker ≤ g z) h.0 end)
IsChain-cut f g b c d (x ∷ pre) zs h e end = (
  h.0,
  h.1,
  h.2,
  subst (λ z. IsChain g b z (pre ++ (d ∷ []))) (sym (subst (λ z. g z ≡ f z) h.0 e.0))
      (IsChain-cut f g b (f c) d pre zs h.3 e.1 end),
)

mem-append_right : (x : ℕ) (pre ys : List ℕ) → mem x (pre ++ ys) ≡ false → mem x ys ≡ false
mem-append_right x [] ys h = h
mem-append_right x (p ∷ pre) ys h = mem-append_right x pre ys (ground (arith, h))

apart : (pre ys : List ℕ) → IsDistinct (pre ++ ys) → All (λ x. mem x ys ≡ false) pre
apart [] ys h = tt
apart (x ∷ pre) ys h = (mem-append_right x pre ys h.0, apart pre ys h.1)

All-map : (P Q : ℕ → Type 0) (xs : List ℕ) → ((x : ℕ) → P x → Q x) → All P xs → All Q xs
All-map P Q [] f h = tt
All-map P Q (x ∷ xs) f h = (f x h.0, All-map P Q xs f h.1)

cut_end :
    (n : ℕ) (v : Volume) (d : ℕ)
    → IsValid n v.bpb
    → Works v
    → in_volume v.bpb d ≡ true
    → eoc_marker ≤ entry v d
    → cut d v ≡ (ok tt, tick v)
unfolding cut
cut_end n v d valid works h end = ground (arith, read_ok n v d valid h (works v.accesses), end)

cut_rest :
    (n : ℕ) (v : Volume) (d : ℕ)
    → IsValid n v.bpb
    → Works v
    → in_volume v.bpb d ≡ true
    → entry v d < eoc_marker
    → cut d v ≡ free_chain (entry v d) (put d eoc_marker (tick (tick v)))
unfolding cut
cut_rest n v d valid works h lt = ground (
  arith,
  read_ok n v d valid h (works v.accesses),
  write_ok n (tick v) d valid eoc_marker h (works (v.accesses + 1)),
  lt,
)

put-same :
    (n d x : ℕ) (v : Volume)
    → IsValid n v.bpb
    → Works v
    → IsValid n (put d x (tick (tick v))).bpb
      × Works (put d x (tick (tick v)))
      × ((put d x (tick (tick v))).bpb ≡ v.bpb)
unfolding put put_entry
put-same n d x v valid works = (valid, works, refl)

-- The entries after the cut.
abbrev AfterCut : ℕ → List ℕ → Volume → Volume → Type 0
AfterCut d zs v w =
    (w.bpb ≡ v.bpb)
    × (eoc_marker ≤ entry w d)
    × ((z : ℕ) → (z == d) ≡ false → entry w z ≡ (if mem z zs then 0 else entry v z))

kept :
    (v : Volume) (d : ℕ) (xs : List ℕ)
    → mem d xs ≡ false
    → All (λ x. entry v x ≡ entry (put d eoc_marker (tick (tick v))) x) xs
kept v d [] h = tt
kept v d (x ∷ xs) h = (
  ground (arith, entry-put (tick (tick v)) d x eoc_marker, entry-later (v.accesses + 1 + 1) v x, h),
  kept v d xs (ground (arith, h)),
)

cut-AfterCut :
    (n : ℕ) (v : Volume) (d : ℕ) (zs : List ℕ)
    → IsValid n v.bpb
    → Works v
    → IsChain (entry v) v.bpb d (d ∷ zs)
    → (w : Volume) × (cut d v ≡ (ok tt, w)) × AfterCut d zs v w
cut-AfterCut n v d [] valid works h = (
  tick v,
  cut_end n v d valid works h.1 h.3,
  (refl, ground (arith, entry-tick v d, h.3), λ z ne. entry-tick v z),
)
cut-AfterCut n v d (y ∷ zs) valid works h =
    let u = put d eoc_marker (tick (tick v)) in
    let (valid', works', same) = put-same n d eoc_marker v valid works in
    let fresh = (IsChain-IsDistinct (entry v) v.bpb d (d ∷ y ∷ zs) h).0 in
    let chain =
      subst (λ b. IsChain (entry u) b (entry v d) (y ∷ zs)) (sym same)
        (IsChain-ext (entry v) (entry u) v.bpb (entry v d) (y ∷ zs) (kept v d (y ∷ zs) fresh)
          h.3) in
    let (w, e, f) = free_chain-Freed n u (entry v d) (y ∷ zs) valid' works' chain in
    (
      w,
      cut_rest n v d valid works h.1 h.3.2 ∙ e,
      (
        f.same_bpb ∙ same,
        ground (arith, f.entries d, entry-put (tick (tick v)) d d eoc_marker, fresh),
        λ z ne. ground (
          arith,
          f.entries z,
          entry-put (tick (tick v)) d z eoc_marker,
          entry-later (v.accesses + 1 + 1) v z,
          ne,
        ),
      ),
    )

IsChain-later :
    (a d : ℕ) (v : Volume) (xs : List ℕ)
    → IsChain (entry v) v.bpb d xs
    → IsChain (entry (later a v)) v.bpb d xs
unfolding entry
IsChain-later a d v xs h = h

head_inside :
    (f : ℕ → ℕ) (b : Bpb) (c d : ℕ) (pre zs : List ℕ)
    → IsChain f b c (pre ++ (d ∷ zs))
    → in_volume b c ≡ true
head_inside f b c d [] zs h = h.1
head_inside f b c d (x ∷ pre) zs h = h.1

other_than : (z d : ℕ) (zs : List ℕ) → mem d zs ≡ false → mem z zs ≡ true → (z == d) ≡ false
other_than z d zs h m = elim (Bool-cases (z == d)) [
  | inl e ↦
      let eq : z ≡ d = ground (arith, e) in
      absurd (ground (arith, h, subst (λ y. mem y zs ≡ true) eq m))
  | inr e ↦ e
]

truncate_is :
    (v w : Volume) (m c d : ℕ)
    → 2 ≤ c
    → skip m c v ≡ (ok (some d), w)
    → truncate_chain c (m + 1) v ≡ cut d w
unfolding truncate_chain
truncate_is v w m c d h e = let less : m + 1 - 1 ≡ m = omega arith in ground (arith, h, e, less)

-- `truncate_chain` to the clusters up to `d`, of a chain that goes on with `zs`, on a device that answers: it
-- succeeds, what is left is the chain of those clusters, the entries of the others are free, and no
-- entry outside the chain differs.
pub truncate_chain-IsChain :
    (n : ℕ) (v : Volume) (c d : ℕ) (pre zs : List ℕ)
    → IsValid n v.bpb
    → Works v
    → IsChain (entry v) v.bpb c (pre ++ (d ∷ zs))
    → (w : Volume) × (truncate_chain c (length pre + 1) v ≡ (ok tt, w))
      × IsChain (entry w) w.bpb c (pre ++ (d ∷ []))
      × ((z : ℕ) → mem z zs ≡ true → entry w z ≡ 0)
      × ((z : ℕ) → mem z (d ∷ zs) ≡ false → entry w z ≡ entry v z)
truncate_chain-IsChain n v c d pre zs valid works h =
    let (a, q, r) = skip-IsChain n v (entry v) c d pre zs valid works (λ z. refl) h in
    let (w, e, t) = cut-AfterCut n (later a v) d zs valid works (IsChain-later a d v (d ∷ zs) r) in
    let distinct = IsChain-IsDistinct (entry v) v.bpb c (pre ++ (d ∷ zs)) h in
    let fresh = (IsChain-IsDistinct (entry v) v.bpb d (d ∷ zs) r).0 in
    let same : (z : ℕ) → mem z (d ∷ zs) ≡ false → entry w z ≡ entry v z =
      λ z m. ground (arith, t.2 z (ground (arith, m)), entry-later a v z, m) in
    let two = (in_volume_bounds v.bpb c (head_inside (entry v) v.bpb c d pre zs h)).0 in
    let chain =
      IsChain-cut (entry v) (entry w) v.bpb c d pre zs h
        (All-map (λ x. mem x (d ∷ zs) ≡ false) (λ x. entry w x ≡ entry v x) pre same
          (apart pre (d ∷ zs) distinct))
        t.1 in
    (
      w,
      truncate_is v (later a v) (length pre) c d two q ∙ e,
      subst (λ b. IsChain (entry w) b c (pre ++ (d ∷ []))) (sym t.0) chain,
      λ z m. ground (arith, t.2 z (other_than z d zs fresh m), m),
      same,
    )
