-- ===== src/Filesystems/Partition.antt =====
-- kernel/src/filesystems/partition/mod.rs: partitions of a block device, and the device that confines
-- its requests to one partition. The underlying device is a parameter: what it answers to a read.
pub mod Mbr
pub mod Confine
pub mod Overlap
pub mod Gpt
pub mod Probe
mod Tests
use bedrock_stack.Base.{
  ℕ, ◌+◌, ◌-◌, ◌*◌, ◌^◌, Bool, true, false, not, ◌&&◌, Option, none, some, List, [], ◌∷◌,
  if◌then◌else◌, ltb, leb, ◌==◌, Result, ok, err, guard, ok_or, ◌>>=◌, ◌>>◌, Str,
}

-- The messages of the partition code, a constructor for each.
pub data Error : Type 0 where
  partition_range_overflow : Error
  partition_beyond_device : Error
  ebr_chain_overflow : Error
  logical_beyond_device : Error
  logical_outside_extent : Error
  request_range_overflow : Error
  lba_out_of_range : Error
  lba_overflow : Error
  overlapping_partitions : Error
  sector_read_error : Error
  multi_sector_read_error : Error
  no_signature : Error
  gpt_signature_not_found : Error
  gpt_header_size : Error
  gpt_header_lba_mismatch : Error
  gpt_header_crc_mismatch : Error
  gpt_entry_size : Error
  gpt_too_many_entries : Error
  gpt_entry_table_too_large : Error
  gpt_entry_table_out_of_range : Error
  gpt_entries_crc_mismatch : Error
  gpt_range_invalid : Error
  gpt_beyond_device : Error
  device_error : ℕ → Error

pub record PartitionInfo : Type 0 where
  pub number : ℕ
  pub start_lba : ℕ
  pub end_lba : ℕ
  pub size_sectors : ℕ
  pub partition_type : Option ℕ
  pub guid_type : Option Str
  pub guid_unique : Option Str
  pub name : Option Str
  pub is_extended : Bool

-- `IoCompletions`
pub record Completions : Type 0 where
  pub completed : ℕ
  pub errors : ℕ

abbrev pub all_ok : Completions → Bool
all_ok c = (c.errors == 0) && not (c.completed == 0)

-- The bytes of a sector, or of several, by their offset.
abbrev pub Sector : Type 0
Sector = ℕ → ℕ

-- A block device, as far as the partition code reads it: the answer to a read of some sectors.
pub record BlockDevice : Type 0 where
  pub sector_count : ℕ
  pub submit_read : ℕ → ℕ → Result Error (Completions × Sector)

-- `u64::checked_add`
abbrev pub checked_add : ℕ → ℕ → Option ℕ
checked_add a b = if ltb (a + b) (2 ^ 64) then some (a + b) else none

unfoldable pub read_sector : BlockDevice → ℕ → Result Error Sector
read_sector device lba =
    device.submit_read lba 1 >>= λ (c, bytes). guard (all_ok c) sector_read_error >> ok bytes

unfoldable pub read_sectors : BlockDevice → ℕ → ℕ → Result Error Sector
read_sectors device lba count = device.submit_read lba count >>= λ (c, bytes).
    guard (all_ok c) multi_sector_read_error >> ok bytes

-- A request, without its buffer, which is passed on as it is.
pub record IoRequest : Type 0 where
  pub lba : ℕ
  pub count : ℕ
  pub is_write : Bool

pub record PartitionDevice : Type 0 where
  pub start_lba : ℕ
  pub sector_count : ℕ

unfoldable pub new : PartitionInfo → PartitionDevice
new info = record { start_lba = info.start_lba; sector_count = info.size_sectors }

-- One round of the loop of `submit`.
unfoldable pub adjust : PartitionDevice → ℕ → IoRequest → Result Error IoRequest
adjust d partition_end r =
    ok_or (checked_add r.lba r.count) request_range_overflow >>= λ request_end.
    guard (leb request_end d.sector_count) lba_out_of_range
    >> (ok_or (checked_add d.start_lba r.lba) lba_overflow >>= λ lba.
        guard (not (leb partition_end lba && not (r.count == 0))) lba_out_of_range
        >> ok (record r { lba = lba }))

unfoldable pub adjust_all : PartitionDevice → ℕ → List IoRequest → Result Error (List IoRequest)
unfolding adjust
adjust_all d partition_end [] = ok []
adjust_all d partition_end (r ∷ rs) =
    adjust d partition_end r >>= λ r'. adjust_all d partition_end rs >>= λ rs'. ok (r' ∷ rs')

-- `submit`, with the underlying device's answer to the requests as a parameter.
unfoldable pub submit :
    (List IoRequest → Result Error Completions)
    → PartitionDevice
    → List IoRequest
    → Result Error Completions
unfolding adjust_all
submit inner d [] = ok (record { completed = 0; errors = 0 })
submit inner d (r ∷ rs) =
    ok_or (checked_add d.start_lba d.sector_count) partition_range_overflow >>= λ partition_end.
    adjust_all d partition_end (r ∷ rs) >>= inner

-- The partitions that may be mounted.
abbrev pub is_real : PartitionInfo → Bool
is_real p = not p.is_extended && ltb 0 p.size_sectors

-- A stable sort, as `sort_by_key` is.
unfoldable pub insert_by_start : PartitionInfo → List PartitionInfo → List PartitionInfo
insert_by_start p [] = p ∷ []
insert_by_start p (q ∷ qs) =
    let rest = insert_by_start p qs in if leb p.start_lba q.start_lba then p ∷ q ∷ qs else q ∷ rest

unfoldable pub sort_by_start : List PartitionInfo → List PartitionInfo
unfolding insert_by_start
sort_by_start [] = []
sort_by_start (p ∷ ps) = insert_by_start p (sort_by_start ps)

-- `for w in sorted.windows(2)`
unfoldable pub check_windows : List PartitionInfo → Result Error (Unit {0})
check_windows [] = ok tt
check_windows (a ∷ []) = ok tt
check_windows (a ∷ b ∷ rest) =
    ok_or (checked_add a.start_lba a.size_sectors) partition_range_overflow >>= λ a_end.
    guard (leb a_end b.start_lba) overlapping_partitions >> check_windows (b ∷ rest)

unfoldable pub real_partitions : List PartitionInfo → List PartitionInfo
real_partitions [] = []
real_partitions (p ∷ ps) = let rest = real_partitions ps in if is_real p then p ∷ rest else rest

unfoldable pub check_overlaps : List PartitionInfo → Result Error (Unit {0})
unfolding check_windows sort_by_start real_partitions
check_overlaps parts = check_windows (sort_by_start (real_partitions parts))
