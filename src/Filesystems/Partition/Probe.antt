-- ===== src/Filesystems/Partition/Probe.antt =====
-- kernel/src/filesystems/partition/mod.rs: `probe`, which reads the partition table of a device.
pub mod Sound
use bedrock_stack.Base.{
  ℕ, zero, suc, ◌+◌, ◌-◌, ◌*◌, ◌/◌, ◌%◌, ◌^◌, ◌≤◌, ◌<◌, ◌≡◌, refl, Bool, true, false, not, ◌&&◌,
  ◌||◌, Option, none, some, List, [], ◌∷◌, if◌then◌else◌, ltb, leb, ◌==◌, arith, Bool-cases,
  Result-cases, ◌⊎◌, inl, inr, Result, ok, err, guard, ◌>>=◌, ◌>>◌, All, subst, sym, ap, ◌∙◌,
  str_eq,
}
use bedrock_stack.Filesystems.Partition.{
  Error, no_signature, PartitionInfo, BlockDevice, Sector, read_sector, read_sectors,
  check_overlaps, real_partitions,
}
use bedrock_stack.Filesystems.Partition.Overlap.{IsDisjoint, Pairwise, check_overlaps-IsDisjoint}
use bedrock_stack.Filesystems.Partition.Mbr
use bedrock_stack.Filesystems.Partition.Mbr.{has_signature}
use bedrock_stack.Filesystems.Partition.Mbr.Primary.{IsInside}
use bedrock_stack.Filesystems.Partition.Mbr.Sound.{parse_sound}
use bedrock_stack.Filesystems.Partition.Gpt
use bedrock_stack.Filesystems.Partition.Gpt.{
  add_entries, entry_info, parse_entries, parse_at, bytes_at, zero_guid,
}

pub data PartitionTable : Type 0 where
  mbr : List PartitionInfo → PartitionTable
  gpt : List PartitionInfo → PartitionTable

abbrev pub partitions : PartitionTable → List PartitionInfo
partitions (mbr ps) = ps
partitions (gpt ps) = ps

-- Some slot of the master boot record has the type of a protective entry.
abbrev pub has_protective : Sector → Bool
has_protective b = (b 450 == 238) || (b 466 == 238) || (b 482 == 238) || (b 498 == 238)

abbrev pub checked :
    (List PartitionInfo → PartitionTable) → List PartitionInfo → Result Error PartitionTable
checked make ps = check_overlaps ps >> ok (make ps)

abbrev pub replace_error : {A : Type 0} → Error → Result Error A → Result Error A
replace_error e (ok a) = ok a
replace_error e (err _) = err e

-- What is done with a first sector that has the signature.
unfoldable pub read_table : BlockDevice → Sector → Result Error PartitionTable
unfolding Gpt.parse Mbr.parse check_overlaps
read_table device b =
    if has_protective b
    then elim (Gpt.parse device) [
      | ok ps ↦ checked gpt ps
      | err e ↦ replace_error e (Mbr.parse device b) >>= checked mbr
    ]
    else Mbr.parse device b >>= checked mbr

unfoldable pub probe : BlockDevice → Result Error PartitionTable
unfolding read_sector read_table
probe device =
    read_sector device 0 >>= λ b. guard (has_signature b) no_signature >> read_table device b
