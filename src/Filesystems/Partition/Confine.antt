-- ===== src/Filesystems/Partition/Confine.antt =====
-- The device of a partition confines its requests (kernel/src/filesystems/partition/mod.rs).
use bedrock_stack.Base.{
  ◌+◌, ◌^◌, ◌≤◌, ◌<◌, ◌≡◌, refl, ap, ◌⊎◌, inl, inr, true, List, [], ◌∷◌, map, ltb, arith,
  Bool-cases, Result-cases, Result, ok, All,
}
use bedrock_stack.Filesystems.Partition.{
  Error, Completions, IoRequest, PartitionDevice, adjust, adjust_all, submit,
}

-- The request of a partition as the underlying device gets it.
abbrev pub shift : PartitionDevice → IoRequest → IoRequest
shift d r = record r { lba = d.start_lba + r.lba }

-- All sectors of the request belong to the partition.
abbrev pub IsConfined : PartitionDevice → IoRequest → Type 0
IsConfined d r = (d.start_lba ≤ r.lba) × (r.lba + r.count ≤ d.start_lba + d.sector_count)

adjust_lem :
    (d : PartitionDevice) (r r' : IoRequest)
    → adjust d (d.start_lba + d.sector_count) r ≡ ok r'
    → (r' ≡ shift d r) × IsConfined d (shift d r)
unfolding adjust
adjust_lem d r r' h = (ground (arith, h), (ground (arith, h), ground (arith, h)))

adjust_all_lem :
    (d : PartitionDevice) (rs rs' : List IoRequest)
    → adjust_all d (d.start_lba + d.sector_count) rs ≡ ok rs'
    → (rs' ≡ map (shift d) rs) × All (IsConfined d) (map (shift d) rs)
unfolding adjust_all
adjust_all_lem d [] rs' h = (ground (arith, h), tt)
adjust_all_lem d (r ∷ rs) rs' h = elim (Result-cases (adjust d (d.start_lba + d.sector_count) r)) [
  | inr (x, e) ↦ absurd (ground (arith, e, h))
  | inl (a, e) ↦ elim (Result-cases (adjust_all d (d.start_lba + d.sector_count) rs)) [
    | inr (x, f) ↦ absurd (ground (arith, e, f, h))
    | inl (moved, f) ↦
        let (same, inside) = adjust_lem d r a e in
        let (sames, insides) = adjust_all_lem d rs moved f in
        (ground (arith, e, f, h, same, sames), (inside, insides))
  ]
]

-- Requests to a partition reach the underlying device only with every sector inside the partition, each
-- moved by the partition's start; otherwise the device is not asked at all, whatever it would answer.
pub submit-IsConfined :
    (inner : List IoRequest → Result Error Completions) (d : PartitionDevice) (rs : List IoRequest)
    → ((submit inner d rs ≡ inner (map (shift d) rs)) × All (IsConfined d) (map (shift d) rs))
      ⊎ ((other : List IoRequest → Result Error Completions)
          → submit other d rs ≡ submit inner d rs)
unfolding submit
submit-IsConfined inner d [] = inr (λ other. refl)
submit-IsConfined inner d (r ∷ rs) =
    elim (Bool-cases (ltb (d.start_lba + d.sector_count) (2 ^ 64))) [
      | inr over ↦ inr (λ other. rw over refl)
      | inl fits ↦ elim (Result-cases (adjust_all d (d.start_lba + d.sector_count) (r ∷ rs))) [
        | inr (x, e) ↦ inr (λ other. rw (fits, e) refl)
        | inl (moved, e) ↦
            let (same, inside) = adjust_all_lem d (r ∷ rs) moved e in
            inl (rw (fits, e) (ap inner same), inside)
      ]
    ]

adjust-ok :
    (d : PartitionDevice) (r : IoRequest)
    → d.start_lba + d.sector_count < 2 ^ 64
    → (0 < r.count) × (r.lba + r.count ≤ d.sector_count)
    → adjust d (d.start_lba + d.sector_count) r ≡ ok (shift d r)
unfolding adjust
adjust-ok d r h k = ground (arith, h, k)

adjust_all-ok :
    (d : PartitionDevice) (rs : List IoRequest)
    → d.start_lba + d.sector_count < 2 ^ 64
    → All (λ r. (0 < r.count) × (r.lba + r.count ≤ d.sector_count)) rs
    → adjust_all d (d.start_lba + d.sector_count) rs ≡ ok (map (shift d) rs)
unfolding adjust_all
adjust_all-ok d [] h a = refl
adjust_all-ok d (r ∷ rs) h a = rw (adjust-ok d r h a.0, adjust_all-ok d rs h a.1) refl

-- Requests that are not empty and lie inside the partition are all passed on.
pub submit_passes :
    (inner : List IoRequest → Result Error Completions) (d : PartitionDevice) (r : IoRequest)
    (rs : List IoRequest)
    → d.start_lba + d.sector_count < 2 ^ 64
    → All (λ q. (0 < q.count) × (q.lba + q.count ≤ d.sector_count)) (r ∷ rs)
    → submit inner d (r ∷ rs) ≡ inner (map (shift d) (r ∷ rs))
unfolding submit
submit_passes inner d r rs h a =
    let fits : ltb (d.start_lba + d.sector_count) (2 ^ 64) ≡ true = ground (arith, h) in
    rw (fits, adjust_all-ok d (r ∷ rs) h a) refl
