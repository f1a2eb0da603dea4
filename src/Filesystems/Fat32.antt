-- ===== src/Filesystems/Fat32.antt =====
-- kernel/src/filesystems/fstypes/fat32/bpb.rs: the parameter block of a FAT32 volume and the places it
-- gives to clusters and to entries of the table. The answer of the device to a read of sector 0 and
-- its number of sectors are parameters. What a failed parse prints is left out.
pub mod Geometry
pub mod Table
pub mod Chain
pub mod Alloc
pub mod Extend
pub mod Mount
mod Tests
use bedrock_stack.Base.{
  ℕ, ◌+◌, ◌-◌, ◌*◌, ◌/◌, ◌%◌, ◌^◌, Bool, true, false, not, ◌&&◌, ◌||◌, List, [], ◌∷◌, if◌then◌else◌,
  ltb, leb, ◌==◌, any, Result, ok, err, guard, ◌>>=◌, ◌>>◌,
}
use bedrock_stack.Unispace.{VfsError, invalid_device, invalid_input}

-- The bytes of a sector by their offset.
abbrev pub Sector : Type 0
Sector = ℕ → ℕ

abbrev pub sector_size : ℕ
sector_size = 512

pub record Bpb : Type 0 where
  pub bytes_per_sec : ℕ
  pub sec_per_clus : ℕ
  pub rsvd_sec_cnt : ℕ
  pub num_fats : ℕ
  pub fat_sz32 : ℕ
  pub root_clus : ℕ
  pub fsinfo_sec : ℕ
  pub byts_per_clus : ℕ
  pub first_data_sec : ℕ
  pub total_clus : ℕ
  pub ext_flags : ℕ

-- `u16::from_le_bytes` and `u32::from_le_bytes` of the bytes at an offset.
abbrev pub le16 : Sector → ℕ → ℕ
le16 s i = s i + 256 * s (i + 1)

abbrev pub le32 : Sector → ℕ → ℕ
le32 s i = s i + 256 * s (i + 1) + 65536 * s (i + 2) + 16777216 * s (i + 3)

-- `u8::is_power_of_two`
unfoldable pub is_power_of_two : ℕ → Bool
is_power_of_two n = any (λ p. n == p) (1 ∷ 2 ∷ 4 ∷ 8 ∷ 16 ∷ 32 ∷ 64 ∷ 128 ∷ [])

-- The sectors of the volume: 16 bits, or 32 where those are zero.
unfoldable pub total_sectors : Sector → ℕ
total_sectors s = if le16 s 19 == 0 then le32 s 32 else le16 s 19

unfoldable pub data_start : Sector → ℕ
data_start s = le16 s 14 + s 16 * le32 s 36

-- `(total_data_sectors / sec_per_clus as u64) as u32`
unfoldable pub data_clusters : Sector → ℕ
unfolding total_sectors data_start
data_clusters s = (total_sectors s - data_start s) / s 13 % 2 ^ 32

unfoldable pub bpb_of : Sector → Bpb
unfolding data_start data_clusters
bpb_of s = record {
  bytes_per_sec = le16 s 11;
  sec_per_clus = s 13;
  rsvd_sec_cnt = le16 s 14;
  num_fats = s 16;
  fat_sz32 = le32 s 36;
  root_clus = le32 s 44;
  fsinfo_sec = le16 s 48;
  byts_per_clus = le16 s 11 * s 13;
  first_data_sec = data_start s;
  total_clus = data_clusters s;
  ext_flags = le16 s 40;
}

-- The checks in the order of the source.
unfoldable pub check_bpb : ℕ → Sector → Result VfsError Bpb
unfolding is_power_of_two total_sectors data_start data_clusters bpb_of
check_bpb sector_count s =
    guard ((s 510 == 85) && (s 511 == 170)) invalid_device
    >> (guard ((le16 s 17 == 0) && (le16 s 22 == 0) && not (le32 s 36 == 0)) invalid_device
        >> (guard (le16 s 11 == sector_size) invalid_input
            >> (guard (not (s 13 == 0) && is_power_of_two (s 13) && leb (s 13) 128) invalid_input
                >> (guard (not (le16 s 14 == 0)) invalid_input
                    >> (guard (not (s 16 == 0)) invalid_input
                        >> (guard (leb 2 (le32 s 44)) invalid_input
                            >> (guard (ltb (data_start s) (total_sectors s)) invalid_input
                                >> (guard (leb (total_sectors s) sector_count) invalid_input
                                    >> (guard (ltb (le32 s 44) (2 + data_clusters s)) invalid_input
                                        >> ok (bpb_of s))))))))))

unfoldable pub parse_bpb : Result VfsError Sector → ℕ → Result VfsError Bpb
unfolding check_bpb
parse_bpb sector0 sector_count = sector0 >>= check_bpb sector_count

-- The subtraction stops at 0, as `saturating_sub` does.
unfoldable pub cluster_to_lba : Bpb → ℕ → ℕ
cluster_to_lba b cluster = b.first_data_sec + (cluster - 2) * b.sec_per_clus

unfoldable pub active_fat_idx : Bpb → ℕ
active_fat_idx b = if b.ext_flags / 128 % 2 == 0 then 0 else b.ext_flags % 16

unfoldable pub fat_sector_lba : Bpb → ℕ → ℕ → ℕ
fat_sector_lba b fat_num sector_idx = b.rsvd_sec_cnt + fat_num * b.fat_sz32 + sector_idx

-- `cluster < 2 || cluster as u64 >= 2u64 + total_clus as u64`, negated.
abbrev pub in_volume : Bpb → ℕ → Bool
in_volume b cluster = leb 2 cluster && ltb cluster (2 + b.total_clus)

unfoldable pub fat_entry_position : Bpb → ℕ → Result VfsError (ℕ × ℕ)
fat_entry_position b cluster =
    guard (in_volume b cluster) invalid_input
    >> ok (cluster * 4 / b.bytes_per_sec % 2 ^ 32, cluster * 4 % b.bytes_per_sec)

unfoldable pub fsinfo_is_valid : Bpb → Bool
fsinfo_is_valid b = not (b.fsinfo_sec == 0) && not (b.fsinfo_sec == 65535)
