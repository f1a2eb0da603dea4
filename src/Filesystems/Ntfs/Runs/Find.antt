-- ===== src/Filesystems/Ntfs/Runs/Find.antt =====
-- A decoded run list covers its clusters in order, and the search finds the run of each
-- (kernel/src/filesystems/fstypes/ntfs/runs.rs).
use bedrock_stack.Base.{
  ℕ, zero, suc, ◌+◌, ◌-◌, ◌/◌, ◌%◌, ◌^◌, ◌≤◌, ◌<◌, ◌≡◌, ◌≢◌, refl, ap, subst, ◌⊎◌, inl, inr, min,
  true, false, Option, none, some, List, [], ◌∷◌, ltb, leb, ◌==◌, arith, Bool-cases, Result-cases,
  length, take, drop, get_elem?, Result, ok, err, length-drop,
}
use bedrock_stack.Unispace.{VfsError}
use bedrock_stack.Filesystems.Ntfs.Runs.{
  pos, Run, Cursor, max_runs, decode_pair, cons_run, decode_loop, decode_mapping_pairs,
  partition_point, find, next_lcn,
}

-- The runs are not empty, and each starts where the one before ends, the first at `a`.
abbrev pub IsChain : ℕ → List Run → Type 0
IsChain a [] = Unit
IsChain a (r ∷ rs) = (r.vcn ≡ a) × (0 < r.len) × IsChain (a + r.len) rs

-- The clusters of all runs.
abbrev pub total : List Run → ℕ
total [] = 0
total (r ∷ rs) = r.len + total rs

List-cases : (xs : List ℕ) → (xs ≡ []) ⊎ ((x : ℕ) × (rest : List ℕ) × (xs ≡ x ∷ rest))
List-cases [] = inl refl
List-cases (x ∷ xs) = inr (x, xs, refl)

decode_pair_lem :
    (base hdr : ℕ) (bytes : List ℕ) (c c' : Cursor) (r : Run)
    → decode_pair base hdr bytes c ≡ ok (r, c')
    → (r.vcn ≡ base + c.next_vcn)
      × (0 < r.len)
      × (c'.next_vcn ≡ c.next_vcn + r.len)
      × (length c'.rest ≤ length bytes)
unfolding decode_pair
decode_pair_lem base hdr bytes c c' r h =
    elim (Result-cases (next_lcn (hdr / 16) (take (hdr / 16) (drop (hdr % 16) bytes)) c.last_lcn)) [
      | inr (x, e) ↦ absurd (ground (arith, e, h))
      | inl (l, e) ↦
          let left : drop (hdr % 16 + hdr / 16) bytes ≡ c'.rest = ground (arith, e, h) in
          (
            ground (arith, e, h),
            ground (arith, e, h),
            ground (arith, e, h),
            subst (λ x. length x ≤ length bytes) left
                (omega (arith, length-drop (hdr % 16 + hdr / 16) bytes)),
          )
    ]

cons_run-ok :
    (r : Run) (o : Option (Result VfsError (List Run))) (rs : List Run)
    → cons_run r o ≡ some (ok rs)
    → (rest : List Run) × (o ≡ some (ok rest)) × (rs ≡ r ∷ rest)
cons_run-ok r none rs h = absurd (ground (arith, h))
cons_run-ok r (some (err e)) rs h = absurd (ground (arith, h))
cons_run-ok r (some (ok rest)) rs h = (rest, refl, ground (arith, h))

decode_loop-IsChain :
    (base n k : ℕ) (c : Cursor) (rs : List Run)
    → decode_loop base n k c ≡ some (ok rs)
    → IsChain (base + c.next_vcn) rs
unfolding decode_loop
decode_loop-IsChain base zero k c rs h = absurd (ground (arith, h))
decode_loop-IsChain base (suc n) k c rs h = elim (Bool-cases (leb max_runs k)) [
  | inl many ↦ absurd (ground (arith, many, h))
  | inr few ↦ elim (List-cases c.rest) [
    | inl e ↦ absurd (ground (arith, few, e, h))
    | inr (hdr, bytes, e) ↦ elim (Bool-cases (hdr == 0)) [
      | inl end ↦
          let same : [] ≡ rs = ground (arith, few, e, end, h) in
          subst (IsChain (base + c.next_vcn)) same tt
      | inr more ↦ elim (Result-cases (decode_pair base hdr bytes c)) [
        | inr (x, f) ↦ absurd (ground (arith, few, e, more, f, h))
        | inl ((r, c'), f) ↦
            let (rest, g, q) =
              cons_run-ok r (decode_loop base n (k + 1) c') rs
                (ground (arith, few, e, more, f, h)) in
            let (at, filled, next, shorter) = decode_pair_lem base hdr bytes c c' r f in
            let follows : base + c'.next_vcn ≡ base + c.next_vcn + r.len = omega (arith, next) in
            rw q (
              at,
              filled,
              subst (λ a. IsChain a rest) follows (decode_loop-IsChain base n (k + 1) c' rest g),
            )
      ]
    ]
  ]
]

cons_run-none : (r : Run) (o : Option (Result VfsError (List Run))) → cons_run r o ≡ none → o ≡ none
cons_run-none r none h = refl
cons_run-none r (some (err e)) h = absurd (ground (arith, h))
cons_run-none r (some (ok rest)) h = absurd (ground (arith, h))

decode_loop_ends : (base n k : ℕ) (c : Cursor) → length c.rest < n → decode_loop base n k c ≢ none
unfolding decode_loop
decode_loop_ends base zero k c h e = omega (arith, h)
decode_loop_ends base (suc n) k c h z = elim (Bool-cases (leb max_runs k)) [
  | inl many ↦ ground (arith, many, z)
  | inr few ↦ elim (List-cases c.rest) [
    | inl e ↦ ground (arith, few, e, z)
    | inr (hdr, bytes, e) ↦ elim (Bool-cases (hdr == 0)) [
      | inl end ↦ ground (arith, few, e, end, z)
      | inr more ↦ elim (Result-cases (decode_pair base hdr bytes c)) [
        | inr (x, f) ↦ ground (arith, few, e, more, f, z)
        | inl ((r, c'), f) ↦
            let (at, filled, next, shorter) = decode_pair_lem base hdr bytes c c' r f in
            let longer : length c.rest ≡ suc (length bytes) = ap length e in
            decode_loop_ends base n (k + 1) c' (omega (arith, h, shorter, longer))
              (cons_run-none r (decode_loop base n (k + 1) c') (ground (arith, few, e, more, f, z)))
      ]
    ]
  ]
]

before-partition_point :
    (vcn a : ℕ) (rs : List Run) → IsChain a rs → vcn < a → partition_point vcn rs ≡ 0
unfolding partition_point
before-partition_point vcn a [] h k = refl
before-partition_point vcn a (r ∷ rs) h k = ground (arith, h.0, k)

-- The run of a cluster is the last one that does not start behind it.
find_run :
    (vcn a : ℕ) (rs : List Run)
    → IsChain a rs
    → a ≤ vcn
    → vcn < a + total rs
    → (r : Run) × (partition_point vcn rs ≢ 0)
      × (get_elem? rs (partition_point vcn rs - 1) ≡ some r)
      × (r.vcn ≤ vcn)
      × (vcn < r.vcn + r.len)
unfolding partition_point
find_run vcn a [] h l k = absurd (omega (arith, l, k))
find_run vcn a (r ∷ rs) (q, filled, tail) l k = elim (Bool-cases (ltb vcn (a + r.len))) [
  | inl here ↦
      let zero_behind = before-partition_point vcn (a + r.len) rs tail (ground arith) in
      let starts : leb r.vcn vcn ≡ true = ground (arith, q, l) in
      (
        r,
        rw (starts, zero_behind) (λ e. omega (arith, e)),
        rw (starts, zero_behind) refl,
        omega (arith, q, l),
        ground (arith, q),
      )
  | inr later ↦
      let (x, nz, g, lo, hi) = find_run vcn (a + r.len) rs tail (ground arith) (omega (arith, k)) in
      let starts : leb r.vcn vcn ≡ true = ground (arith, q, l) in
      let step : suc (partition_point vcn rs) - 1 ≡ suc (partition_point vcn rs - 1) =
        omega (arith, nz) in
      (x, rw starts (λ e. omega (arith, e)), rw (starts, step) g, lo, hi)
]

-- Decoding mapping pairs ends, whatever the bytes are.
pub decode_mapping_pairs_ends :
    (bytes : List ℕ) (base_vcn : ℕ) → decode_mapping_pairs bytes base_vcn ≢ none
unfolding decode_mapping_pairs
decode_mapping_pairs_ends bytes base_vcn =
    decode_loop_ends base_vcn (length bytes + 1) 0
      (record { rest = bytes; next_vcn = 0; last_lcn = pos 0 }) (omega arith)

-- A run list decoded from mapping pairs covers the clusters from `base_vcn` on without gap or overlap,
-- and the search by an offset in one of these clusters, short of the last of a `u64`, finds the run
-- that holds it.
pub find-decode_mapping_pairs :
    (bytes : List ℕ) (base_vcn : ℕ) (runs : List Run) (offset cluster_size : ℕ)
    → decode_mapping_pairs bytes base_vcn ≡ some (ok runs)
    → base_vcn ≤ offset / cluster_size
    → offset / cluster_size < base_vcn + total runs
    → offset / cluster_size < 2 ^ 64 - 1
    → IsChain base_vcn runs
      × ((r : Run) × (find runs offset cluster_size ≡ some r)
          × (r.vcn ≤ offset / cluster_size)
          × (offset / cluster_size < r.vcn + r.len))
unfolding decode_mapping_pairs find
find-decode_mapping_pairs bytes base_vcn runs offset cluster_size h lo hi top =
    let at : base_vcn + 0 ≡ base_vcn = omega arith in
    let chain : IsChain base_vcn runs =
      subst (λ a. IsChain a runs) at
        (decode_loop-IsChain base_vcn (length bytes + 1) 0
          (record { rest = bytes; next_vcn = 0; last_lcn = pos 0 }) runs h) in
    let (r, nz, g, l, k) = find_run (offset / cluster_size) base_vcn runs chain lo hi in
    let some_run : (partition_point (offset / cluster_size) runs == 0) ≡ false =
      ground (arith, nz) in
    let inside : ltb (offset / cluster_size) (min (r.vcn + r.len) (2 ^ 64 - 1)) ≡ true =
      ground (arith, k, top) in
    (chain, (r, rw (some_run, g, inside) refl, l, k))
