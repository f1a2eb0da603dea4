-- ===== src/Filesystems/Partition/Mbr.antt =====
-- kernel/src/filesystems/partition/mbr.rs: the partition table of a master boot record, with the chain
-- of extended boot records.
pub mod Primary
pub mod Sound
use bedrock_stack.Base.{
  ℕ, zero, suc, ◌+◌, ◌-◌, ◌*◌, ◌^◌, Bool, true, false, not, ◌&&◌, ◌||◌, Option, none, some, List,
  [], ◌∷◌, ◌++◌, if◌then◌else◌, ltb, leb, ◌==◌, Result, ok, err, guard, ok_or, ◌>>=◌, ◌>>◌,
}
use bedrock_stack.Filesystems.Partition.{
  Error, partition_range_overflow, partition_beyond_device, ebr_chain_overflow,
  logical_beyond_device, logical_outside_extent, PartitionInfo, BlockDevice, Sector, checked_add,
  read_sector,
}

-- The fields of `MbrEntry` that the parser reads.
pub record MbrEntry : Type 0 where
  pub partition_type : ℕ
  pub lba_start : ℕ
  pub sector_count : ℕ

-- `u32::from_le` of the bytes at `off`.
abbrev pub u32_at : Sector → ℕ → ℕ
u32_at b off = b off + 2 ^ 8 * b (off + 1) + 2 ^ 16 * b (off + 2) + 2 ^ 24 * b (off + 3)

abbrev pub entry_at : Sector → ℕ → MbrEntry
entry_at b off = record {
  partition_type = b (off + 4);
  lba_start = u32_at b (off + 8);
  sector_count = u32_at b (off + 12);
}

abbrev pub is_ext : ℕ → Bool
is_ext typ = (typ == 5) || (typ == 15)

abbrev pub max_ebr_chain : ℕ
max_ebr_chain = 100

-- `partitions`, and `ext_base_lba` with `ext_end_excl`, which are set together.
pub record Table : Type 0 where
  pub partitions : List PartitionInfo
  pub ext : Option (ℕ × ℕ)

-- The entry of a partition from `start_lba` to `end_excl`.
abbrev pub entry_info : ℕ → ℕ → ℕ → ℕ → ℕ → Bool → PartitionInfo
entry_info number start_lba end_excl sector_count typ extended = record {
  number = number;
  start_lba = start_lba;
  end_lba = end_excl - 1;
  size_sectors = sector_count;
  partition_type = some typ;
  guid_type = none;
  guid_unique = none;
  name = none;
  is_extended = extended;
}

abbrev pub is_skipped : MbrEntry → Bool
is_skipped e = (e.partition_type == 0) || (e.partition_type == 238) || (e.sector_count == 0)

-- One round of the loop over the four slots.
unfoldable pub add_primary : ℕ → Sector → ℕ → Table → Result Error Table
add_primary dev_sectors mbr i t =
    let e = entry_at mbr (446 + i * 16) in
    if is_skipped e
    then ok t
    else ok_or (checked_add e.lba_start e.sector_count) partition_range_overflow >>= λ end_excl.
        guard (leb end_excl dev_sectors) partition_beyond_device
        >> ok (record {
          partitions =
              t.partitions
              ++ (entry_info (i + 1) e.lba_start end_excl e.sector_count e.partition_type
                    (is_ext e.partition_type)
                  ∷ []);
          ext = if is_ext e.partition_type then some (e.lba_start, end_excl) else t.ext;
        })

-- `for i in i..i + n`
unfoldable pub add_primaries : ℕ → Sector → ℕ → ℕ → Table → Result Error Table
unfolding add_primary
add_primaries dev_sectors mbr i zero t = ok t
add_primaries dev_sectors mbr i (suc n) t =
    add_primary dev_sectors mbr i t >>= λ t'. add_primaries dev_sectors mbr (i + 1) n t'

-- The state of the loop over the chain.
pub record Chain : Type 0 where
  pub next_ebr_lba : ℕ
  pub logical_num : ℕ
  pub found : List PartitionInfo

-- The first entry of an extended boot record: a logical partition, if it has one.
unfoldable pub add_logical : ℕ → ℕ → MbrEntry → Chain → Result Error Chain
add_logical dev_sectors ext_limit e c =
    if (e.partition_type == 0) || (e.sector_count == 0)
    then ok c
    else ok_or (checked_add c.next_ebr_lba e.lba_start) ebr_chain_overflow >>= λ abs_lba.
        ok_or (checked_add abs_lba e.sector_count) partition_range_overflow >>= λ end_excl.
        guard (leb end_excl dev_sectors) logical_beyond_device
        >> (guard (leb end_excl ext_limit) logical_outside_extent
            >> ok (record {
              next_ebr_lba = c.next_ebr_lba;
              logical_num = c.logical_num + 1;
              found =
                  c.found
                  ++ (entry_info c.logical_num abs_lba end_excl e.sector_count e.partition_type
                        false
                      ∷ []);
            }))

-- The second entry: where the next record lies, or `none` at the end of the chain.
unfoldable pub next_record : ℕ → MbrEntry → Chain → Result Error (Option Chain)
next_record ext_base e c =
    if (e.partition_type == 0) || (e.lba_start == 0)
    then ok none
    else ok_or (checked_add ext_base e.lba_start) ebr_chain_overflow >>= λ next.
        ok (some (record c { next_ebr_lba = next }))

abbrev pub has_signature : Sector → Bool
has_signature b = (b 510 == 85) && (b 511 == 170)

-- `while chain_count < MAX_EBR_CHAIN`: `n` rounds are left.
unfoldable pub walk_chain : BlockDevice → ℕ → ℕ → ℕ → Chain → Result Error (List PartitionInfo)
unfolding read_sector add_logical next_record
walk_chain device ext_base ext_limit zero c = ok c.found
walk_chain device ext_base ext_limit (suc n) c = read_sector device c.next_ebr_lba >>= λ ebr.
    elim (has_signature ebr) [
      | false ↦ ok c.found
      | true ↦ add_logical device.sector_count ext_limit (entry_at ebr 446) c >>= λ c'.
          next_record ext_base (entry_at ebr 462) c' >>= λ next. elim next [
            | none ↦ ok c'.found
            | some c'' ↦ walk_chain device ext_base ext_limit n c''
          ]
    ]

unfoldable pub add_logicals : BlockDevice → Table → Result Error (List PartitionInfo)
unfolding walk_chain
add_logicals device t = elim t.ext [
  | none ↦ ok t.partitions
  | some ext ↦
      walk_chain device ext.0 ext.1 max_ebr_chain
        (record { next_ebr_lba = ext.0; logical_num = 5; found = t.partitions })
]

unfoldable pub parse : BlockDevice → Sector → Result Error (List PartitionInfo)
unfolding add_primaries add_logicals
parse device mbr =
    add_primaries device.sector_count mbr 0 4 (record { partitions = []; ext = none }) >>= λ t.
    add_logicals device t
