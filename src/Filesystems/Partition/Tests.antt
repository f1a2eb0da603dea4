-- ===== src/Filesystems/Partition/Tests.antt =====
-- Runs of the partition code of kernel/src/filesystems/partition, and its theorems at them.
use bedrock_stack.Base.{
  ℕ, ◌+◌, ◌≤◌, ◌≡◌, refl, ◌⊎◌, true, false, List, [], ◌∷◌, map, if◌then◌else◌, ◌==◌, arith, Result,
  ok, All, length,
}
use bedrock_stack.Filesystems.Partition.{
  Error, Completions, Sector, BlockDevice, IoRequest, PartitionDevice, PartitionInfo, submit,
  check_overlaps, real_partitions,
}
use bedrock_stack.Filesystems.Partition.Confine.{shift, IsConfined, submit-IsConfined}
use bedrock_stack.Filesystems.Partition.Overlap.{IsDisjoint, Pairwise, check_overlaps-IsDisjoint}
use bedrock_stack.Filesystems.Partition.Mbr.{parse, entry_info}
use bedrock_stack.Filesystems.Partition.Mbr.Primary.{IsInside}
use bedrock_stack.Filesystems.Partition.Mbr.Sound.{IsPlaced, parse_sound}
use bedrock_stack.Filesystems.Partition.Gpt.{crc32}
use bedrock_stack.Filesystems.Partition.Probe.{mbr, probe}
use bedrock_stack.Filesystems.Partition.Probe.Sound.{IsTable, probe_sound}

-- A sector with these bytes at these offsets, and zeros elsewhere.
abbrev sector : List (ℕ × ℕ) → Sector
sector [] i = 0
sector (x ∷ xs) i = let rest = sector xs i in if i == x.0 then x.1 else rest

-- A partition of 1000 sectors from 2048 on, and an extended one of 4000 from 4096 on.
abbrev boot_record : Sector
boot_record = sector (
    (510, 85)
    ∷ (511, 170)
    ∷ (450, 7)
    ∷ (455, 8)
    ∷ (458, 232)
    ∷ (459, 3)
    ∷ (466, 5)
    ∷ (471, 16)
    ∷ (474, 160)
    ∷ (475, 15)
    ∷ [])

-- A logical partition of 100 sectors, 63 behind the record.
abbrev ebr : Sector
ebr = sector ((510, 85) ∷ (511, 170) ∷ (450, 131) ∷ (454, 63) ∷ (458, 100) ∷ [])

abbrev disk : BlockDevice
disk = record {
  sector_count = 10000;
  submit_read =
      λ lba n. ok (record { completed = 1; errors = 0 }, if lba == 4096 then ebr else boot_record);
}

abbrev table : List PartitionInfo
table =
    entry_info 1 2048 3048 1000 7 false
    ∷ entry_info 2 4096 8096 4000 5 true
    ∷ entry_info 5 4159 4259 100 131 false
    ∷ []

disk-table : parse disk boot_record ≡ ok table
unfolding parse
disk-table = refl

parse_sound_example :
    All (IsInside disk.sector_count) table × All (IsPlaced table) table × (length table ≤ 104)
parse_sound_example = parse_sound disk boot_record table disk-table

table_accepted : check_overlaps table ≡ ok tt
unfolding check_overlaps
table_accepted = refl

check_overlaps-IsDisjoint_example : Pairwise IsDisjoint (real_partitions table)
check_overlaps-IsDisjoint_example = check_overlaps-IsDisjoint table table_accepted

abbrev first : PartitionDevice
first = record { start_lba = 2048; sector_count = 1000 }

abbrev one_read : IoRequest
one_read = record { lba = 992; count = 8; is_write = false }

abbrev answer : List IoRequest → Result Error Completions
answer rs = ok (record { completed = length rs; errors = 0 })

submit-IsConfined_example :
    ((submit answer first (one_read ∷ []) ≡ answer (map (shift first) (one_read ∷ [])))
      × All (IsConfined first) (map (shift first) (one_read ∷ [])))
    ⊎ ((other : List IoRequest → Result Error Completions)
        → submit other first (one_read ∷ []) ≡ submit answer first (one_read ∷ []))
submit-IsConfined_example = submit-IsConfined answer first (one_read ∷ [])

-- The check sum of the bytes of "123456789".
check_sum : crc32 (λ i. 49 + i) 9 ≡ 0xCBF43926
unfolding crc32
check_sum = refl

disk_probed : probe disk ≡ ok (mbr table)
unfolding probe
disk_probed = refl

probe_sound_example : IsTable disk.sector_count table
probe_sound_example = probe_sound disk (mbr table) (omega arith) disk_probed
