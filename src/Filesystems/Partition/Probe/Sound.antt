-- ===== src/Filesystems/Partition/Probe/Sound.antt =====
-- What every partition table satisfies that `probe` returns (kernel/src/filesystems/partition/mod.rs).
use bedrock_stack.Base.{
  ℕ, zero, suc, ◌+◌, ◌-◌, ◌*◌, ◌/◌, ◌%◌, ◌^◌, ◌<◌, ◌≡◌, refl, true, List, [], ◌∷◌, ltb, leb, arith,
  Bool-cases, Result-cases, inl, inr, Result, ok, err, ◌>>=◌, All, subst, sym, ap, ◌∙◌, str_eq,
}
use bedrock_stack.Filesystems.Partition.{
  Error, PartitionInfo, BlockDevice, Sector, read_sector, read_sectors, check_overlaps,
  real_partitions,
}
use bedrock_stack.Filesystems.Partition.Overlap.{IsDisjoint, Pairwise, check_overlaps-IsDisjoint}
use bedrock_stack.Filesystems.Partition.Mbr
use bedrock_stack.Filesystems.Partition.Mbr.{has_signature}
use bedrock_stack.Filesystems.Partition.Mbr.Primary.{IsInside}
use bedrock_stack.Filesystems.Partition.Mbr.Sound.{parse_sound}
use bedrock_stack.Filesystems.Partition.Gpt
use bedrock_stack.Filesystems.Partition.Gpt.{
  add_entries, entry_info, parse_entries, parse_at, bytes_at, zero_guid,
}
use bedrock_stack.Filesystems.Partition.Probe.{
  PartitionTable, mbr, gpt, partitions, has_protective, checked, replace_error, read_table, probe,
}

entry_info-IsInside :
    (b : Sector) (i off dev : ℕ)
    → dev < 2 ^ 64
    → leb (entry_info b i off).start_lba (entry_info b i off).end_lba ≡ true
    → ltb (entry_info b i off).end_lba dev ≡ true
    → IsInside dev (entry_info b i off)
unfolding entry_info
entry_info-IsInside b i off dev small h k =
    inside (Gpt.u64_at b (off + 32)) (Gpt.u64_at b (off + 40)) h k
  where
    inside :
        (start end : ℕ)
        → leb start end ≡ true
        → ltb end dev ≡ true
        → IsInside dev (record (entry_info b i off) {
          start_lba = start;
          end_lba = end;
          size_sectors = (end - start + 1) % 2 ^ 64;
        })
    inside start end l r = record {
      not_empty = ground (arith, small, l, r);
      extent = ground (arith, small, l, r);
      fits = ground (arith, r);
    }

add_entries-IsInside :
    (dev : ℕ) (b : Sector) (len size i n : ℕ) (ps : List PartitionInfo)
    → dev < 2 ^ 64
    → add_entries dev b len size i n ≡ ok ps
    → All (IsInside dev) ps
unfolding add_entries
add_entries-IsInside dev b len size i zero ps small h =
    let none_left : [] ≡ ps = ground (arith, h) in subst (All (IsInside dev)) none_left tt
add_entries-IsInside dev b len size i (suc n) ps small h =
    elim (Bool-cases (ltb len (i * size + 128))) [
      | inl short ↦
          let none_left : [] ≡ ps = ground (arith, short, h) in
          subst (All (IsInside dev)) none_left tt
      | inr whole ↦ elim (Bool-cases (str_eq (bytes_at b (i * size) 16) zero_guid)) [
        | inl unused ↦
            add_entries-IsInside dev b len size (i + 1) n ps small
              (ground (arith, whole, unused, h))
        | inr used ↦
            elim (Bool-cases
              (leb (entry_info b i (i * size)).start_lba (entry_info b i (i * size)).end_lba)) [
                | inr bad ↦ absurd (ground (arith, whole, used, bad, h))
                | inl order ↦ elim (Bool-cases (ltb (entry_info b i (i * size)).end_lba dev)) [
                  | inr out ↦ absurd (ground (arith, whole, used, order, out, h))
                  | inl inside ↦ elim (Result-cases (add_entries dev b len size (i + 1) n)) [
                    | inr (x, e) ↦ absurd (ground (arith, whole, used, order, inside, e, h))
                    | inl (rest, e) ↦
                        let all : entry_info b i (i * size) ∷ rest ≡ ps =
                          ground (arith, whole, used, order, inside, e, h) in
                        subst (All (IsInside dev)) all (
                          entry_info-IsInside b i (i * size) dev small order inside,
                          add_entries-IsInside dev b len size (i + 1) n rest small e,
                        )
                  ]
                ]
              ]
      ]
    ]

-- What follows a step of a run that succeeds.
after_step :
    {A B : Type 0} (m : Result Error A) (f : A → Result Error B) (b : B)
    → (m >>= f) ≡ ok b
    → (a : A) × (m ≡ ok a) × (f a ≡ ok b)
after_step (ok a) f b h = (a, refl, h)
after_step (err e) f b h = absurd (ground (arith, h))

parse_entries-IsInside :
    (device : BlockDevice) (lba num size crc : ℕ) (ps : List PartitionInfo)
    → device.sector_count < 2 ^ 64
    → parse_entries device lba num size crc ≡ ok ps
    → All (IsInside device.sector_count) ps
unfolding parse_entries
parse_entries-IsInside device lba num size crc ps small h =
    elim (Result-cases (read_sectors device lba ((num * size + 511) / 512))) [
      | inr (x, e) ↦ absurd (ground (arith, e, h))
      | inl (entries, e) ↦
          add_entries-IsInside device.sector_count entries ((num * size + 511) / 512 * 512) size 0
            num ps small (ground (arith, e, h))
    ]

parse_at-IsInside :
    (device : BlockDevice) (lba : ℕ) (ps : List PartitionInfo)
    → device.sector_count < 2 ^ 64
    → parse_at device lba ≡ ok ps
    → All (IsInside device.sector_count) ps
unfolding parse_at
parse_at-IsInside device lba ps small h = elim (Result-cases (read_sector device lba)) [
  | inr (x, e) ↦ absurd (ground (arith, e, h))
  | inl (b, e) ↦
      parse_entries-IsInside device (Gpt.u64_at b 72) (Mbr.u32_at b 80) (Mbr.u32_at b 84)
        (Mbr.u32_at b 88) ps small (ground (arith, e, h))
]

gpt-IsInside :
    (device : BlockDevice) (ps : List PartitionInfo)
    → device.sector_count < 2 ^ 64
    → Gpt.parse device ≡ ok ps
    → All (IsInside device.sector_count) ps
unfolding Gpt.parse
gpt-IsInside device ps small h = elim (Result-cases (parse_at device 1)) [
  | inl (a, e) ↦ parse_at-IsInside device 1 ps small (e ∙ ground (arith, e, h))
  | inr (x, e) ↦ elim (Result-cases (parse_at device (device.sector_count - 1))) [
    | inl (a, f) ↦
        parse_at-IsInside device (device.sector_count - 1) ps small (f ∙ ground (arith, e, f, h))
    | inr (y, f) ↦ absurd (ground (arith, e, f, h))
  ]
]

-- A table of partitions that may be used: each inside the device, no two with a common sector.
abbrev pub IsTable : ℕ → List PartitionInfo → Type 0
IsTable dev ps = All (IsInside dev) ps × Pairwise IsDisjoint (real_partitions ps)

checked-IsTable :
    (dev : ℕ) (make : List PartitionInfo → PartitionTable) (ps : List PartitionInfo)
    (t : PartitionTable)
    → ((qs : List PartitionInfo) → partitions (make qs) ≡ qs)
    → All (IsInside dev) ps
    → checked make ps ≡ ok t
    → IsTable dev (partitions t)
checked-IsTable dev make ps t same inside h =
    let (u, e, k) = after_step (check_overlaps ps) (λ _. ok (make ps)) t h in
    let made : make ps ≡ t = ground (arith, k) in
    let all : ps ≡ partitions t = sym (same ps) ∙ ap partitions made in
    subst (IsTable dev) all (inside, check_overlaps-IsDisjoint ps e)

replaced_ok :
    {A : Type 0} (e : Error) (m : Result Error A) (a : A) → replace_error e m ≡ ok a → m ≡ ok a
replaced_ok e (ok x) a h = h
replaced_ok e (err x) a h = absurd (ground (arith, h))

-- What `probe` does with the first sector.
read_table_sound :
    (device : BlockDevice) (b : Sector) (t : PartitionTable)
    → device.sector_count < 2 ^ 64
    → read_table device b ≡ ok t
    → IsTable device.sector_count (partitions t)
unfolding read_table
read_table_sound device b t small h = elim (Bool-cases (has_protective b)) [
  | inr plain ↦
      let (ps, f, g) = after_step (Mbr.parse device b) (checked mbr) t (ground (arith, plain, h)) in
      checked-IsTable device.sector_count mbr ps t (λ q. refl) (parse_sound device b ps f).0 g
  | inl guarded ↦ elim (Result-cases (Gpt.parse device)) [
    | inl (ps, f) ↦
        checked-IsTable device.sector_count gpt ps t (λ q. refl) (gpt-IsInside device ps small f)
          (ground (arith, guarded, f, h))
    | inr (x, f) ↦
        let (ps, g, l) =
          after_step (replace_error x (Mbr.parse device b)) (checked mbr) t
            (ground (arith, guarded, f, h)) in
        checked-IsTable device.sector_count mbr ps t (λ q. refl)
          (parse_sound device b ps (replaced_ok x (Mbr.parse device b) ps g)).0 l
  ]
]

-- Every table that `probe` returns, from either format, holds only partitions that are not empty and lie
-- inside the device, and no two of those that may be mounted share a sector.
pub probe_sound :
    (device : BlockDevice) (t : PartitionTable)
    → device.sector_count < 2 ^ 64
    → probe device ≡ ok t
    → IsTable device.sector_count (partitions t)
unfolding probe
probe_sound device t small h = elim (Result-cases (read_sector device 0)) [
  | inr (x, e) ↦ absurd (ground (arith, e, h))
  | inl (b, e) ↦ read_table_sound device b t small (ground (arith, e, h))
]
