-- ===== src/Filesystems/Fat32/Mount.antt =====
-- kernel/src/filesystems/fstypes/fat32/alloc.rs (`scan_free_clusters`, `write_fsinfo`) and mount.rs: the
-- bitmap built from the table, the file system information sector, and the flag of a volume in use.
pub mod Scan
pub mod Chunks
pub mod Info
use bedrock_stack.Base.{
  ℕ, zero, suc, ◌+◌, ◌-◌, ◌*◌, ◌/◌, ◌%◌, ◌^◌, min, Bool, true, false, not, ◌&&◌, ◌||◌, Option, none,
  some, if◌then◌else◌, ltb, leb, ◌==◌, Result, ok, err,
}
use bedrock_stack.Unispace.{VfsError, io_error}
use bedrock_stack.Filesystems.Fat32.{
  Sector, Bpb, le32, active_fat_idx, fat_sector_lba, fsinfo_is_valid,
}
use bedrock_stack.Filesystems.Fat32.Table.{
  Volume, Action, and_then, return, tick, with_access, put_le32, set_bit, map_bits,
}

abbrev pub bitmap_max_clusters : ℕ
bitmap_max_clusters = 16777216

abbrev pub max_sectors_per_io : ℕ
max_sectors_per_io = 504

-- The count of free clusters and the bitmap so far.
abbrev pub Counted : Type 0
Counted = ℕ × Option (ℕ → Bool)

-- The entry `i` of the table's sector number `sec`.
unfoldable pub scan_entry : Bpb → ℕ → Sector → ℕ → Counted → Counted
scan_entry b sec s i (count, bits) =
    let idx = sec * 128 + i in
    if ltb idx 2 || ltb (2 + b.total_clus - 1) idx
    then (count, bits)
    else if le32 s (i * 4) % 2 ^ 28 == 0
    then (count + 1, bits)
    else (count, map_bits (set_bit true (idx - 2)) bits)

-- `for i in i..i + n`
unfoldable pub scan_sector : Bpb → ℕ → Sector → ℕ → ℕ → Counted → Counted
unfolding scan_entry
scan_sector b sec s i zero acc = acc
scan_sector b sec s i (suc n) acc = scan_sector b sec s (i + 1) n (scan_entry b sec s i acc)

-- The sectors from `sec` on, `n` of them.
unfoldable pub scan_chunk : Bpb → (ℕ → Sector) → ℕ → ℕ → ℕ → Counted → Counted
unfolding scan_sector
scan_chunk b sectors first_lba sec zero acc = acc
scan_chunk b sectors first_lba sec (suc n) acc =
    scan_chunk b sectors first_lba (sec + 1) n
      (scan_sector b sec (sectors (first_lba + sec)) 0 128 acc)

-- `while done < nsec`, on fuel: a read for each chunk.
unfoldable pub scan_chunks : ℕ → ℕ → ℕ → Counted → Action Counted
unfolding scan_chunk with_access
scan_chunks zero first_lba done acc v = (ok acc, v)
scan_chunks (suc n) first_lba done acc v = elim (ltb done v.bpb.fat_sz32) [
  | false ↦ (ok acc, v)
  | true ↦
      let chunk = min max_sectors_per_io (v.bpb.fat_sz32 - done) in
      with_access
        (λ w.
          scan_chunks n first_lba (done + chunk)
            (scan_chunk w.bpb w.sectors first_lba done chunk acc) w)
        v
]

unfoldable pub scan_free_clusters : Action ℕ
unfolding scan_chunks
scan_free_clusters v =
    let first_lba = fat_sector_lba v.bpb (active_fat_idx v.bpb) 0 in
    let bitmap = if leb v.bpb.total_clus bitmap_max_clusters then some (λ i. false) else none in
    and_then (scan_chunks v.bpb.fat_sz32 first_lba 0 (0, bitmap))
      (λ acc w. (ok acc.0, record w { alloc_bitmap = acc.1 })) v

abbrev pub fsinfo_lead_sig : ℕ
fsinfo_lead_sig = 1096897106

abbrev pub fsinfo_struct_sig : ℕ
fsinfo_struct_sig = 1631679090

abbrev pub fsinfo_trail_sig : ℕ
fsinfo_trail_sig = 2857697280

abbrev pub put_sector : ℕ → Sector → Volume → Volume
put_sector lba s v = record v { sectors = λ l. if l == lba then s else v.sectors l }

unfoldable pub info_sector : Volume → Sector → Sector
unfolding put_le32
info_sector v s = put_le32 508 fsinfo_trail_sig (
    put_le32 492 v.next_alloc_hint (
      put_le32 488 v.free_clus_count
        (put_le32 484 fsinfo_struct_sig (put_le32 0 fsinfo_lead_sig s))))

unfoldable pub write_fsinfo : Action (Unit {0})
unfolding with_access info_sector
write_fsinfo v =
    if fsinfo_is_valid v.bpb
    then with_access
        (with_access
          λ w. (ok tt, put_sector w.bpb.fsinfo_sec (info_sector w (w.sectors w.bpb.fsinfo_sec)) w))
        v
    else (ok tt, v)

-- The hint that `mount` takes from the sector, where its two signatures are right.
unfoldable pub hint_of : Bpb → Sector → ℕ → ℕ
hint_of b s hint =
    if (le32 s 0 == fsinfo_lead_sig)
      && (le32 s 484 == fsinfo_struct_sig)
      && leb 2 (le32 s 492)
      && ltb (le32 s 492) (2 + b.total_clus)
    then le32 s 492
    else hint

-- A read that fails leaves the hint.
unfoldable pub load_hint : Volume → Volume
unfolding hint_of
load_hint v =
    if fsinfo_is_valid v.bpb
    then if v.fails v.accesses then tick v else record (tick v) {
      next_alloc_hint = hint_of v.bpb (v.sectors v.bpb.fsinfo_sec) v.next_alloc_hint;
    }
    else v
