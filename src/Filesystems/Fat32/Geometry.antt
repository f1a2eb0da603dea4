-- ===== src/Filesystems/Fat32/Geometry.antt =====
-- kernel/src/filesystems/fstypes/fat32/bpb.rs: what a parsed parameter block guarantees of the sectors
-- of clusters and of table entries.
pub mod Parse
mod Tests
use bedrock_stack.Base.{ℕ, ◌+◌, ◌-◌, ◌*◌, ◌%◌, ◌^◌, ◌≤◌, ◌<◌, ◌≡◌, true, ok, arith}
use bedrock_stack.Filesystems.Fat32.{
  Bpb, cluster_to_lba, active_fat_idx, fat_sector_lba, in_volume, fat_entry_position,
}
use native.Mathlib.Nat.{mul-le-mul_right}

pub record IsValid (sectors : ℕ) (b : Bpb) : Type 0 where
  pub sector : b.bytes_per_sec ≡ 512
  pub cluster_sectors : (1 ≤ b.sec_per_clus) × (b.sec_per_clus ≤ 128)
  pub cluster_bytes : b.byts_per_clus ≡ 512 * b.sec_per_clus
  pub reserved : 1 ≤ b.rsvd_sec_cnt
  pub fats : (1 ≤ b.num_fats) × (1 ≤ b.fat_sz32)
  pub data_after_fats : b.first_data_sec ≡ b.rsvd_sec_cnt + b.num_fats * b.fat_sz32
  pub root : (2 ≤ b.root_clus) × (b.root_clus < 2 + b.total_clus)
  pub data_fits : b.first_data_sec + b.total_clus * b.sec_per_clus ≤ sectors
  pub counts : b.total_clus + 2 < 2 ^ 32

pub in_volume_bounds : (b : Bpb) (c : ℕ) → in_volume b c ≡ true → (2 ≤ c) × (c < 2 + b.total_clus)
in_volume_bounds b c h = ground arith

-- The sectors of the earlier of two clusters end before those of the later begin.
pub lba-before :
    (b : Bpb) (c d : ℕ) → 2 ≤ c → c < d → cluster_to_lba b c + b.sec_per_clus ≤ cluster_to_lba b d
unfolding cluster_to_lba
lba-before b c d h k =
    let le : (c - 2) + 1 ≤ d - 2 = omega arith in omega (arith, mul-le-mul_right b.sec_per_clus le)

pub cluster_after_fats : (b : Bpb) (c : ℕ) → b.first_data_sec ≤ cluster_to_lba b c
unfolding cluster_to_lba
cluster_after_fats b c = omega arith

-- Every cluster of a valid block has its sectors between the start of the data and the end of the
-- device, and two clusters have no sector in common.
pub cluster_to_lba-bounds :
    (n : ℕ) (b : Bpb) (c d : ℕ)
    → IsValid n b
    → in_volume b c ≡ true
    → in_volume b d ≡ true
    → c < d
    → (b.first_data_sec ≤ cluster_to_lba b c)
      × (cluster_to_lba b c + b.sec_per_clus ≤ cluster_to_lba b d)
      × (cluster_to_lba b d + b.sec_per_clus ≤ n)
unfolding cluster_to_lba
cluster_to_lba-bounds n b c d v hc hd lt =
    let kc = in_volume_bounds b c hc in
    let kd = in_volume_bounds b d hd in
    let le : (d - 2) + 1 ≤ b.total_clus = omega (arith, kd) in
    (
      omega arith,
      lba-before b c d kc.0 lt,
      omega (arith, mul-le-mul_right b.sec_per_clus le, v.data_fits),
    )

-- A position in the table: its bytes lie in one sector, and with the sector they give the cluster
-- back, so that no two clusters share a byte.
pub fat_entry_position-bytes :
    (n : ℕ) (b : Bpb) (c i o : ℕ)
    → IsValid n b
    → fat_entry_position b c ≡ ok (i, o)
    → (in_volume b c ≡ true) × (512 * i + o ≡ 4 * c) × (o + 4 ≤ 512) × (o % 4 ≡ 0)
unfolding fat_entry_position
fat_entry_position-bytes n b c i o v h =
    let count = v.counts in let sec = v.sector in ground (arith, h, count, sec)

-- Where the table has an entry for every cluster, the entry's sector lies behind the reserved sectors
-- and before the data.
pub fat_entry_position-bounds :
    (n : ℕ) (b : Bpb) (c i o : ℕ)
    → IsValid n b
    → 2 + b.total_clus ≤ 128 * b.fat_sz32
    → active_fat_idx b < b.num_fats
    → fat_entry_position b c ≡ ok (i, o)
    → (b.rsvd_sec_cnt ≤ fat_sector_lba b (active_fat_idx b) i)
      × (fat_sector_lba b (active_fat_idx b) i < b.first_data_sec)
unfolding fat_sector_lba
fat_entry_position-bounds n b c i o v room active h =
    let (hc, e, o4, m) = fat_entry_position-bytes n b c i o v h in
    let kc = in_volume_bounds b c hc in
    let small : i < b.fat_sz32 = omega (arith, kc, e) in
    let le : active_fat_idx b + 1 ≤ b.num_fats = omega arith in
    (omega arith, omega (arith, mul-le-mul_right b.fat_sz32 le, v.data_after_fats, small))
