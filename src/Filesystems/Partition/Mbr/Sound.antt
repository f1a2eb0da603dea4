-- ===== src/Filesystems/Partition/Mbr/Sound.antt =====
-- What the partitions that the parser of kernel/src/filesystems/partition/mbr.rs returns satisfy.
use bedrock_stack.Base.{
  ℕ, zero, suc, ◌+◌, ◌≤◌, ◌<◌, ◌≡◌, ap, subst, ◌⊎◌, inl, inr, false, ◌||◌, none, some, List, [],
  ◌∷◌, ◌++◌, ◌==◌, arith, Bool-cases, Option-cases, Result-cases, ok, All, All-append, Any, length,
  length-append,
}
use bedrock_stack.Filesystems.Partition.{PartitionInfo, BlockDevice, Sector, read_sector}
use bedrock_stack.Filesystems.Partition.Mbr.{
  MbrEntry, Table, Chain, entry_at, entry_info, add_primaries, add_logical, next_record,
  has_signature, walk_chain, add_logicals, parse, max_ebr_chain,
}
use bedrock_stack.Filesystems.Partition.Mbr.Primary.{
  IsInside, IsExtent, IsPrimary, LiesIn, HasExtent, IsTable, Any-append_left, add_primaries-IsTable,
  no_table, no_table-IsTable,
}

-- A logical partition that the chain finds.
logical_info : Chain → MbrEntry → PartitionInfo
logical_info c e =
    entry_info c.logical_num (c.next_ebr_lba + e.lba_start)
      (c.next_ebr_lba + e.lba_start + e.sector_count) e.sector_count e.partition_type false

add_logical_lem :
    (dev limit : ℕ) (e : MbrEntry) (c c' : Chain)
    → add_logical dev limit e c ≡ ok c'
    → (c' ≡ c)
      ⊎ ((0 < e.sector_count)
          × (c.next_ebr_lba + e.lba_start + e.sector_count ≤ dev)
          × (c.next_ebr_lba + e.lba_start + e.sector_count ≤ limit)
          × (c'.next_ebr_lba ≡ c.next_ebr_lba)
          × (c'.found ≡ c.found ++ (logical_info c e ∷ [])))
unfolding add_logical logical_info
add_logical_lem dev limit e c c' h =
    elim (Bool-cases ((e.partition_type == 0) || (e.sector_count == 0))) [
      | inl s ↦ inl (ground (arith, h, s))
      | inr n ↦ inr (
        ground (arith, n),
        ground (arith, h, n),
        ground (arith, h, n),
        ground (arith, h, n),
        ground (arith, h, n),
      )
    ]

next_record_lem :
    (base : ℕ) (e : MbrEntry) (c c' : Chain)
    → next_record base e c ≡ ok (some c')
    → (base ≤ c'.next_ebr_lba) × (c'.found ≡ c.found)
unfolding next_record
next_record_lem base e c c' h = ground (arith, h)

-- The partitions found while the chain in the extent from `b` to `e` is walked.
record IsFound (dev b e n : ℕ) (ps : List PartitionInfo) : Type 0 where
  inside : All (IsInside dev) ps
  placed : All (λ p. IsPrimary p ⊎ LiesIn b e p) ps
  extent : Any (IsExtent b e) ps
  bounded : length ps ≤ n

weaken_bound :
    (dev b e n m : ℕ) (ps : List PartitionInfo)
    → n ≤ m
    → IsFound dev b e n ps
    → IsFound dev b e m ps
weaken_bound dev b e n m ps h v = record {
  inside = v.inside;
  placed = v.placed;
  extent = v.extent;
  bounded = omega (arith, v.bounded, h);
}

logical-IsFound :
    (dev b limit n : ℕ) (e : MbrEntry) (c c' : Chain)
    → b ≤ c.next_ebr_lba
    → IsFound dev b limit n c.found
    → add_logical dev limit e c ≡ ok c'
    → IsFound dev b limit (n + 1) c'.found
unfolding logical_info
logical-IsFound dev b limit n e c c' at v h = elim (add_logical_lem dev limit e c c' h) [
  | inl q ↦ rw q (weaken_bound dev b limit n (n + 1) c.found (omega arith) v)
  | inr (pos, fits, room, next, ps) ↦
      let p : PartitionInfo = logical_info c e in
      rw ps (record {
        inside = All-append (IsInside dev) c.found (p ∷ []) v.inside (
          record { not_empty = pos; extent = omega (arith, pos); fits = omega (arith, pos, fits) },
          tt,
        );
        placed =
            All-append (λ x. IsPrimary x ⊎ LiesIn b limit x) c.found (p ∷ []) v.placed
              (inr (omega (arith, at), room), tt);
        extent = Any-append_left (IsExtent b limit) c.found (p ∷ []) v.extent;
        bounded = omega (arith, v.bounded, length-append c.found (p ∷ []));
      })
]

add_logical-next :
    (dev limit : ℕ) (e : MbrEntry) (c c' : Chain)
    → add_logical dev limit e c ≡ ok c'
    → c'.next_ebr_lba ≡ c.next_ebr_lba
add_logical-next dev limit e c c' h = elim (add_logical_lem dev limit e c c' h) [
  | inl q ↦ ap (λ x. x.next_ebr_lba) q
  | inr (pos, fits, room, next, ps) ↦ next
]

walk_chain-IsFound :
    (device : BlockDevice) (b limit n m : ℕ) (c : Chain) (ps : List PartitionInfo)
    → b ≤ c.next_ebr_lba
    → IsFound device.sector_count b limit m c.found
    → walk_chain device b limit n c ≡ ok ps
    → IsFound device.sector_count b limit (m + n) ps
unfolding walk_chain
walk_chain-IsFound device b limit zero m c ps at v h =
    let same : c.found ≡ ps = ground (arith, h) in
    subst (IsFound device.sector_count b limit (m + 0)) same
      (weaken_bound device.sector_count b limit m (m + 0) c.found (omega arith) v)
walk_chain-IsFound device b limit (suc n) m c ps at v h =
    elim (Result-cases (read_sector device c.next_ebr_lba)) [
      | inr (x, e) ↦ absurd (ground (arith, e, h))
      | inl (ebr, e) ↦ elim (Bool-cases (has_signature ebr)) [
        | inr off ↦
            let same : c.found ≡ ps = ground (arith, e, off, h) in
            subst (IsFound device.sector_count b limit (m + suc n)) same
              (weaken_bound device.sector_count b limit m (m + suc n) c.found (omega arith) v)
        | inl on ↦
            elim (Result-cases (add_logical device.sector_count limit (entry_at ebr 446) c)) [
              | inr (x, f) ↦ absurd (ground (arith, e, on, f, h))
              | inl (c', f) ↦
                  let w =
                    logical-IsFound device.sector_count b limit m (entry_at ebr 446) c c' at v f in
                  elim (Result-cases (next_record b (entry_at ebr 462) c')) [
                    | inr (x, g) ↦ absurd (ground (arith, e, on, f, g, h))
                    | inl (none, g) ↦
                        let same : c'.found ≡ ps = ground (arith, e, on, f, g, h) in
                        subst (IsFound device.sector_count b limit (m + suc n)) same (
                          weaken_bound device.sector_count b limit (m + 1) (m + suc n) c'.found
                            (omega arith) w)
                    | inl (some c'', g) ↦
                        let (after, found) = next_record_lem b (entry_at ebr 462) c' c'' g in
                        weaken_bound device.sector_count b limit (m + 1 + n) (m + suc n) ps
                          (omega arith)
                          (walk_chain-IsFound device b limit n (m + 1) c'' ps after (rw found w)
                            (ground (arith, e, on, f, g, h)))
                  ]
            ]
      ]
    ]

-- A partition is a primary one, or lies in an extended partition of the table.
abbrev pub IsPlaced : List PartitionInfo → PartitionInfo → Type 0
IsPlaced ps p = (p.number < 5) ⊎ ((b : ℕ) × (e : ℕ) × Any (IsExtent b e) ps × LiesIn b e p)

All-map :
    (P Q : PartitionInfo → Type 0)
    → ((p : PartitionInfo) → P p → Q p)
    → (ps : List PartitionInfo) → All P ps
    → All Q ps
All-map P Q f [] h = tt
All-map P Q f (p ∷ ps) h = (f p h.0, All-map P Q f ps h.1)

primaries-IsFound :
    (dev b e : ℕ) (t : Table)
    → IsTable dev 4 t
    → t.ext ≡ some (b, e)
    → IsFound dev b e 4 t.partitions
unfolding HasExtent
primaries-IsFound dev b e t v x = record {
  inside = v.inside;
  placed =
      All-map IsPrimary (λ p. IsPrimary p ⊎ LiesIn b e p) (λ p q. inl q) t.partitions v.primary;
  extent = subst (λ o. HasExtent o t.partitions) x v.extent;
  bounded = v.bounded;
}

add_logicals_sound :
    (device : BlockDevice) (t : Table) (ps : List PartitionInfo)
    → IsTable device.sector_count 4 t
    → add_logicals device t ≡ ok ps
    → All (IsInside device.sector_count) ps × All (IsPlaced ps) ps × (length ps ≤ 104)
unfolding add_logicals
add_logicals_sound device t ps v h = elim (Option-cases t.ext) [
  | inl n ↦
      let same : t.partitions ≡ ps = ground (arith, n, h) in
      subst (λ x. All (IsInside device.sector_count) x × All (IsPlaced x) x × (length x ≤ 104)) same
        (
          v.inside,
          All-map IsPrimary (IsPlaced t.partitions) (λ p q. inl q) t.partitions v.primary,
          omega (arith, v.bounded),
        )
  | inr ((b, e), x) ↦
      let f =
        walk_chain-IsFound device b e max_ebr_chain 4
          (record { next_ebr_lba = b; logical_num = 5; found = t.partitions }) ps (omega arith)
          (primaries-IsFound device.sector_count b e t v x) (ground (arith, x, h)) in
      (
        f.inside,
        All-map (λ p. IsPrimary p ⊎ LiesIn b e p) (IsPlaced ps)
            (λ p q. elim q [ inl k ↦ inl k | inr k ↦ inr (b, e, f.extent, k) ]) ps f.placed,
        omega (arith, f.bounded),
      )
]

-- Every partition that the parser returns is not empty and lies inside the device, every logical one
-- lies inside an extended partition of the table, and there are at most 104, whatever the disk holds.
pub parse_sound :
    (device : BlockDevice) (mbr : Sector) (ps : List PartitionInfo)
    → parse device mbr ≡ ok ps
    → All (IsInside device.sector_count) ps × All (IsPlaced ps) ps × (length ps ≤ 104)
unfolding parse no_table
parse_sound device mbr ps h =
    elim (Result-cases (add_primaries device.sector_count mbr 0 4 no_table)) [
      | inr (x, e) ↦ absurd (ground (arith, e, h))
      | inl (t, e) ↦
          add_logicals_sound device t ps
            (add_primaries-IsTable device.sector_count mbr 0 4 0 no_table t (omega arith)
              (no_table-IsTable device.sector_count) e)
            (ground (arith, e, h))
    ]
