-- ===== src/Filesystems/Fat32/Geometry/Tests.antt =====
-- A parameter block of kernel/src/filesystems/fstypes/fat32/bpb.rs, and the theorems at it.
use bedrock_stack.Base.{◌≡◌, refl, ok, err, arith, if◌then◌else◌, ◌==◌}
use bedrock_stack.Unispace.{invalid_device}
use bedrock_stack.Filesystems.Fat32.{Sector, Bpb, parse_bpb, fat_entry_position, fat_sector_lba}
use bedrock_stack.Filesystems.Fat32.Geometry.{IsValid}
use bedrock_stack.Filesystems.Fat32.Geometry.Parse.{IsFat32, IsRead, IsBytes, parse_bpb-IsValid}

-- One cluster has one sector, one table of one sector stands behind one reserved sector; 8 sectors.
abbrev sector : Sector
sector i =
    if i == 12
    then 2
    else if i == 13
    then 1
    else if i == 14
    then 1
    else if i == 16
    then 1
    else if i == 19
    then 8
    else if i == 36
    then 1
    else if i == 44
    then 2
    else if i == 510
    then 85
    else if i == 511
    then 170
    else 0

abbrev bpb : Bpb
bpb = record {
  bytes_per_sec = 512;
  sec_per_clus = 1;
  rsvd_sec_cnt = 1;
  num_fats = 1;
  fat_sz32 = 1;
  root_clus = 2;
  fsinfo_sec = 0;
  byts_per_clus = 512;
  first_data_sec = 2;
  total_clus = 6;
  ext_flags = 0;
}

parsed : parse_bpb (ok sector) 8 ≡ ok bpb
unfolding parse_bpb
parsed = refl

unsigned : parse_bpb (ok (λ i. 0)) 8 ≡ err invalid_device
unfolding parse_bpb
unsigned = refl

-- A table of one sector has 128 entries; the parser accepts 200 clusters with it, and the entry of
-- cluster 130 is in the first sector of the data.
abbrev short_table : Sector
short_table i = if i == 19 then 202 else sector i

abbrev short_bpb : Bpb
short_bpb = record bpb { total_clus = 200 }

short_parsed : parse_bpb (ok short_table) 202 ≡ ok short_bpb
unfolding parse_bpb
short_parsed = refl

entry_in_data : fat_entry_position short_bpb 130 ≡ ok (1, 8)
unfolding fat_entry_position
entry_in_data = refl

entry_sector_in_data : fat_sector_lba short_bpb 0 1 ≡ short_bpb.first_data_sec
unfolding fat_sector_lba
entry_sector_in_data = refl

sector-IsBytes : IsBytes sector
unfolding IsBytes
sector-IsBytes i = ground arith

parse_bpb-IsValid_example : IsFat32 8 sector × IsRead sector bpb × IsValid 8 bpb
parse_bpb-IsValid_example = parse_bpb-IsValid 8 sector bpb sector-IsBytes parsed
