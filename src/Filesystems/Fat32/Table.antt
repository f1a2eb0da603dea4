-- ===== src/Filesystems/Fat32/Table.antt =====
-- kernel/src/filesystems/fstypes/fat32/fat.rs, and the state of mount.rs that the table, the chains
-- and the allocator share. The sectors are those of the device with the cached ones in their place;
-- what the device answers to each access is a parameter, a field of the state.
pub mod Entry
use bedrock_stack.Base.{
  ℕ, ◌+◌, ◌-◌, ◌*◌, ◌/◌, ◌%◌, ◌^◌, Bool, true, false, ◌&&◌, Option, none, some, if◌then◌else◌, ltb,
  leb, ◌==◌, Result, ok, err,
}
use bedrock_stack.Unispace.{VfsError, io_error}
use bedrock_stack.Filesystems.Fat32.{
  Sector, Bpb, le32, fat_entry_position, active_fat_idx, fat_sector_lba,
}

-- `Fat32SuperBlock`. A bit of the bitmap has the index of a cluster less 2; `fails n` says whether the
-- device fails the access number `n`.
pub record Volume : Type 0 where
  pub bpb : Bpb
  pub sectors : ℕ → Sector
  pub alloc_bitmap : Option (ℕ → Bool)
  pub next_alloc_hint : ℕ
  pub free_clus_count : ℕ
  pub fails : ℕ → Bool
  pub accesses : ℕ

abbrev pub eoc_marker : ℕ
eoc_marker = 268435448

abbrev pub free_cluster : ℕ
free_cluster = 0

-- A result and the state that is left, after an error too.
abbrev pub Action : Type 0 → Type 0
Action A = Volume → Result VfsError A × Volume

abbrev pub and_then : {A B : Type 0} → Action A → (A → Action B) → Action B
and_then m k v = let (r, w) = m v in elim r [ ok a ↦ k a w | err e ↦ (err e, w) ]

abbrev pub return : {A : Type 0} → A → Action A
return a v = (ok a, v)

abbrev pub tick : Volume → Volume
tick v = record v { accesses = v.accesses + 1 }

-- An access to the device through the cache, then the rest.
unfoldable pub with_access : {A : Type 0} → Action A → Action A
with_access k v = if v.fails v.accesses then (err io_error, tick v) else k (tick v)

-- The low byte first.
abbrev pub le_byte : ℕ → ℕ → ℕ
le_byte value k =
    if k == 0
    then value % 256
    else if k == 1
    then value / 256 % 256
    else if k == 2
    then value / 65536 % 256
    else value / 16777216 % 256

-- `sector[offset..offset + 4].copy_from_slice(&value.to_le_bytes())`
unfoldable pub put_le32 : ℕ → ℕ → Sector → Sector
put_le32 offset value s i =
    if leb offset i && ltb i (offset + 4) then le_byte value (i - offset) else s i

unfoldable pub put_entry : ℕ → ℕ → ℕ → Volume → Volume
unfolding put_le32
put_entry lba offset value v = record v {
  sectors = λ l. if l == lba then put_le32 offset (value % 2 ^ 28) (v.sectors l) else v.sectors l;
}

unfoldable pub read_fat_entry : ℕ → Action ℕ
unfolding with_access
read_fat_entry cluster v = elim (fat_entry_position v.bpb cluster) [
  | err e ↦ (err e, v)
  | ok (sector_idx, offset) ↦
      let lba = fat_sector_lba v.bpb (active_fat_idx v.bpb) sector_idx in
      with_access (λ w. (ok (le32 (w.sectors lba) offset % 2 ^ 28), w)) v
]

unfoldable pub write_fat_entry : ℕ → ℕ → Action (Unit {0})
unfolding with_access put_entry
write_fat_entry cluster value v = elim (fat_entry_position v.bpb cluster) [
  | err e ↦ (err e, v)
  | ok (sector_idx, offset) ↦
      let lba = fat_sector_lba v.bpb (active_fat_idx v.bpb) sector_idx in
      with_access (λ w. (ok tt, put_entry lba offset value w)) v
]

-- A bit of the bitmap set or cleared.
abbrev pub set_bit : Bool → ℕ → (ℕ → Bool) → ℕ → Bool
set_bit b i bits j = if j == i then b else bits j

abbrev pub map_bits : ((ℕ → Bool) → ℕ → Bool) → Option (ℕ → Bool) → Option (ℕ → Bool)
map_bits f none = none
map_bits f (some bits) = some (f bits)

abbrev pub with_bits : ((ℕ → Bool) → ℕ → Bool) → Volume → Volume
with_bits f v = record v { alloc_bitmap = map_bits f v.alloc_bitmap }
