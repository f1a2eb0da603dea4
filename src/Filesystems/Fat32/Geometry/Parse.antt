-- ===== src/Filesystems/Fat32/Geometry/Parse.antt =====
-- kernel/src/filesystems/fstypes/fat32/bpb.rs: which sectors `parse_bpb` accepts, and what it returns.
use bedrock_stack.Base.{
  ℕ, ◌+◌, ◌-◌, ◌*◌, ◌/◌, ◌%◌, ◌^◌, ◌≤◌, ◌<◌, ◌≡◌, refl, ap, subst, sym, inl, inr, Bool, true, false,
  ◌==◌, Bool-cases, Result, ok, guard, ◌>>◌, arith,
}
use bedrock_stack.Unispace.{VfsError}
use bedrock_stack.Filesystems.Fat32.{
  Sector, Bpb, le16, le32, is_power_of_two, total_sectors, data_start, data_clusters, bpb_of,
  check_bpb, parse_bpb,
}
use native.Mathlib.Nat.{div-mul-le_self, mod-le, div-le_self, mul-le-mul_right}
use bedrock_stack.Filesystems.Fat32.Geometry.{IsValid}

-- What the bytes of a sector say of a volume of at most `sectors` sectors that is FAT32 and no other FAT.
pub record IsFat32 (sectors : ℕ) (s : Sector) : Type 0 where
  pub signature : (s 510 ≡ 85) × (s 511 ≡ 170)
  pub no_fat16_root : le16 s 17 ≡ 0
  pub no_fat16_table : le16 s 22 ≡ 0
  pub table : 0 < le32 s 36
  pub sector : le16 s 11 ≡ 512
  pub cluster_sectors : (k : ℕ) × (k ≤ 7) × (s 13 ≡ 2 ^ k)
  pub reserved : 0 < le16 s 14
  pub tables : 0 < s 16
  pub data_starts : le16 s 14 + s 16 * le32 s 36 < total_sectors s
  pub on_device : total_sectors s ≤ sectors

-- The fields of a block, by the bytes they are read from.
pub record IsRead (s : Sector) (b : Bpb) : Type 0 where
  pub cluster_sectors : b.sec_per_clus ≡ s 13
  pub reserved : b.rsvd_sec_cnt ≡ le16 s 14
  pub tables : b.num_fats ≡ s 16
  pub table_sectors : b.fat_sz32 ≡ le32 s 36
  pub root : b.root_clus ≡ le32 s 44
  pub info : b.fsinfo_sec ≡ le16 s 48
  pub flags : b.ext_flags ≡ le16 s 40
  pub clusters : b.total_clus ≡ (total_sectors s - b.first_data_sec) / s 13

guard-inv :
    {A : Type 0} (c : Bool) (e : VfsError) (k : Result VfsError A) (a : A)
    → (guard c e >> k) ≡ ok a
    → (c ≡ true) × (k ≡ ok a)
guard-inv true e k a h = (refl, h)
guard-inv false e k a h = absurd (ground (arith, h))

le_trans : {a b c : ℕ} → a ≤ b → b ≤ c → a ≤ c
le_trans h k = omega arith

mul_pos : (a b : ℕ) → 1 ≤ a → 1 ≤ b → 1 ≤ a * b
mul_pos a b h k = le_trans k (omega (arith, mul-le-mul_right b h))

-- The quotient, cut to 32 bits, fits below the dividend.
div_fits : (n d : ℕ) → n / d % 2 ^ 32 * d ≤ n
div_fits n d = le_trans (mul-le-mul_right d (mod-le (n / d) (2 ^ 32))) (div-mul-le_self n d)

data_clusters_le : (s : Sector) → data_clusters s ≤ total_sectors s - data_start s
unfolding data_clusters
data_clusters_le s = le_trans (mod-le _ (2 ^ 32)) (div-le_self _ (s 13))

data_clusters_fit : (s : Sector) → data_clusters s * s 13 ≤ total_sectors s - data_start s
unfolding data_clusters
data_clusters_fit s = div_fits (total_sectors s - data_start s) (s 13)

unfoldable pub IsBytes : Sector → Type 0
IsBytes s = (i : ℕ) → s i < 256

total_sectors_bound : (s : Sector) → IsBytes s → total_sectors s < 2 ^ 32
unfolding total_sectors IsBytes
total_sectors_bound s h = ground (arith, h 19, h 20, h 32, h 33, h 34, h 35)

data_start_bound : (s : Sector) → 1 ≤ le16 s 14 → 1 ≤ s 16 → 1 ≤ le32 s 36 → 2 ≤ data_start s
unfolding data_start
data_start_bound s h k l = omega (arith, mul_pos (s 16) (le32 s 36) k l)

data_start-is : (s : Sector) → data_start s ≡ le16 s 14 + s 16 * le32 s 36
unfolding data_start
data_start-is s = refl

-- What the checks of a successful parse establish of the bytes.
record Checked (sectors : ℕ) (s : Sector) : Type 0 where
  sector : le16 s 11 ≡ 512
  cluster_sectors : (1 ≤ s 13) × (s 13 ≤ 128)
  reserved : 1 ≤ le16 s 14
  fats : (1 ≤ s 16) × (1 ≤ le32 s 36)
  root : (2 ≤ le32 s 44) × (le32 s 44 < 2 + data_clusters s)
  extent : (data_start s < total_sectors s) × (total_sectors s ≤ sectors)

checked : (n : ℕ) (s : Sector) (b : Bpb) → check_bpb n s ≡ ok b → Checked n s × (b ≡ bpb_of s)
unfolding check_bpb
checked n s b h = (
  record {
    sector = ground (arith, h);
    cluster_sectors = ground (arith, h);
    reserved = ground (arith, h);
    fats = ground (arith, h);
    root = ground (arith, h);
    extent = ground (arith, h);
  },
  ground (arith, h),
)

power_of_two_below : (n : ℕ) → is_power_of_two n ≡ true → (k : ℕ) × (k ≤ 7) × (n ≡ 2 ^ k)
unfolding is_power_of_two
power_of_two_below n h = elim (Bool-cases (n == 1)) [
  | inl e ↦ (0, omega arith, ground (arith, e))
  | inr e0 ↦ elim (Bool-cases (n == 2)) [
    | inl e ↦ (1, omega arith, ground (arith, e))
    | inr e1 ↦ elim (Bool-cases (n == 4)) [
      | inl e ↦ (2, omega arith, ground (arith, e))
      | inr e2 ↦ elim (Bool-cases (n == 8)) [
        | inl e ↦ (3, omega arith, ground (arith, e))
        | inr e3 ↦ elim (Bool-cases (n == 16)) [
          | inl e ↦ (4, omega arith, ground (arith, e))
          | inr e4 ↦ elim (Bool-cases (n == 32)) [
            | inl e ↦ (5, omega arith, ground (arith, e))
            | inr e5 ↦ elim (Bool-cases (n == 64)) [
              | inl e ↦ (6, omega arith, ground (arith, e))
              | inr e6 ↦ (7, omega arith, ground (arith, h, e0, e1, e2, e3, e4, e5, e6))
            ]
          ]
        ]
      ]
    ]
  ]
]

accepted : (n : ℕ) (s : Sector) (b : Bpb) → check_bpb n s ≡ ok b → IsFat32 n s
unfolding check_bpb data_start
accepted n s b h = record {
  signature = ground (arith, h);
  no_fat16_root = ground (arith, h);
  no_fat16_table = ground (arith, h);
  table = ground (arith, h);
  sector = ground (arith, h);
  cluster_sectors = power_of_two_below (s 13) (ground (arith, h));
  reserved = ground (arith, h);
  tables = ground (arith, h);
  data_starts = ground (arith, h);
  on_device = ground (arith, h);
}

-- The count of clusters, which the source casts to 32 bits, loses nothing.
clusters_exact :
    (s : Sector) → IsBytes s → data_clusters s ≡ (total_sectors s - data_start s) / s 13
unfolding data_clusters
clusters_exact s bytes =
    let total = total_sectors_bound s bytes in
    let le = div-le_self (total_sectors s - data_start s) (s 13) in omega (arith, total, le)

bpb_of-IsRead : (s : Sector) → IsBytes s → IsRead s (bpb_of s)
unfolding bpb_of
bpb_of-IsRead s bytes = record {
  cluster_sectors = refl;
  reserved = refl;
  tables = refl;
  table_sectors = refl;
  root = refl;
  info = refl;
  flags = refl;
  clusters = clusters_exact s bytes;
}

bpb_of-IsValid : (n : ℕ) (s : Sector) → IsBytes s → Checked n s → IsValid n (bpb_of s)
unfolding bpb_of
bpb_of-IsValid n s bytes c =
    let fit = data_clusters_fit s in
    let le = data_clusters_le s in
    let total = total_sectors_bound s bytes in
    let start = data_start_bound s c.reserved c.fats.0 c.fats.1 in
    record {
      sector = c.sector;
      cluster_sectors = c.cluster_sectors;
      cluster_bytes = ap (λ x. x * s 13) c.sector;
      reserved = c.reserved;
      fats = c.fats;
      data_after_fats = data_start-is s;
      root = c.root;
      data_fits = omega (arith, fit, c.extent);
      counts = omega (arith, le, c.extent, total, start);
    }

-- A sector that is accepted has the marks of a FAT32 volume: the signature, no root directory and no table
-- of an older FAT, sectors of 512 bytes, a power of two of at most 128 sectors in a cluster, reserved
-- sectors and tables, and data behind them that begin and end on the device. The block that is returned
-- has the fields of the sector and is valid: the clusters it counts end within the device, the root is one
-- of them, and a count of clusters and two more is a `u32`. (The table need not have room for them.)
pub parse_bpb-IsValid :
    (n : ℕ) (s : Sector) (b : Bpb)
    → IsBytes s
    → parse_bpb (ok s) n ≡ ok b
    → IsFat32 n s × IsRead s b × IsValid n b
unfolding parse_bpb
parse_bpb-IsValid n s b bytes h =
    let (c, e) = checked n s b h in
    (
      accepted n s b h,
      subst (IsRead s) (sym e) (bpb_of-IsRead s bytes),
      subst (IsValid n) (sym e) (bpb_of-IsValid n s bytes c),
    )
