-- ===== src/Filesystems/Partition/Gpt.antt =====
-- kernel/src/filesystems/partition/gpt.rs: the partition table with globally unique identifiers, with the
-- check sum of kernel/src/filesystems/partition/mod.rs.
use Prim.Native.Nat.{bit_xor}
use bedrock_stack.Base.{
  ℕ, zero, suc, ◌+◌, ◌-◌, ◌*◌, ◌/◌, ◌%◌, ◌^◌, Bool, true, false, not, ◌&&◌, ◌||◌, Option, none,
  some, List, [], ◌∷◌, if◌then◌else◌, ltb, leb, ◌==◌, Str, str_eq, Result, ok, err, guard, ◌>>=◌,
  ◌>>◌,
}
use bedrock_stack.Filesystems.Partition.{
  Error, gpt_signature_not_found, gpt_header_size, gpt_header_lba_mismatch, gpt_header_crc_mismatch,
  gpt_entry_size, gpt_too_many_entries, gpt_entry_table_out_of_range, gpt_entries_crc_mismatch,
  gpt_range_invalid, gpt_beyond_device, PartitionInfo, BlockDevice, Sector, read_sector,
  read_sectors,
}
use bedrock_stack.Filesystems.Partition.Mbr.{u32_at}

abbrev pub u64_at : Sector → ℕ → ℕ
u64_at b off = u32_at b off + 2 ^ 32 * u32_at b (off + 4)

-- The `n` bytes at `off`.
abbrev pub bytes_at : Sector → ℕ → ℕ → Str
bytes_at b off zero = []
bytes_at b off (suc n) = b off ∷ bytes_at b (off + 1) n

-- The inner loop of `crc32`, `n` bits.
unfoldable pub crc_bits : ℕ → ℕ → ℕ
crc_bits zero crc = crc
crc_bits (suc n) crc = crc_bits n (if crc % 2 == 1 then bit_xor (crc / 2) 0xEDB88320 else crc / 2)

unfoldable pub crc_bytes : Sector → ℕ → ℕ → ℕ → ℕ
unfolding crc_bits
crc_bytes b i zero crc = crc
crc_bytes b i (suc n) crc = crc_bytes b (i + 1) n (crc_bits 8 (bit_xor crc (b i)))

-- The check sum of the first `n` bytes.
unfoldable pub crc32 : Sector → ℕ → ℕ
unfolding crc_bytes
crc32 b n = bit_xor (crc_bytes b 0 n 0xFFFFFFFF) 0xFFFFFFFF

-- The header with its own check sum as zeros.
abbrev pub crc_buf : Sector → Sector
crc_buf b i = if leb 16 i && ltb i 20 then 0 else b i

-- "EFI PART"
abbrev pub signature : Str
signature = 69 ∷ 70 ∷ 73 ∷ 32 ∷ 80 ∷ 65 ∷ 82 ∷ 84 ∷ []

abbrev pub u16_at : Sector → ℕ → ℕ
u16_at b off = b off + 2 ^ 8 * b (off + 1)

abbrev pub is_high : ℕ → Bool
is_high u = leb 0xD800 u && leb u 0xDBFF

abbrev pub is_low : ℕ → Bool
is_low u = leb 0xDC00 u && leb u 0xDFFF

abbrev pub pair_value : ℕ → ℕ → ℕ
pair_value u u2 = (u - 0xD800) * 2 ^ 10 + (u2 - 0xDC00) + 0x10000

-- The loop of `decode_utf16_le` over the 36 units at `off`, on fuel; a string is the list of its code
-- points here.
unfoldable pub decode_units : Sector → ℕ → ℕ → ℕ → List ℕ
decode_units b off i zero = []
decode_units b off i (suc n) =
    let u = u16_at b (off + 2 * i) in
    let u2 = u16_at b (off + 2 * (i + 1)) in
    let paired = is_high u && ltb (i + 1) 36 && is_low u2 in
    let rest = decode_units b off (if paired then i + 2 else i + 1) n in
    if leb 36 i || (u == 0)
    then []
    else if paired
    then pair_value u u2 ∷ rest
    else if is_high u || is_low u
    then 0xFFFD ∷ rest
    else u ∷ rest

abbrev pub decode_utf16_le : Sector → ℕ → List ℕ
unfolding decode_units
decode_utf16_le b off = decode_units b off 0 36

abbrev pub non_empty : List ℕ → Option (List ℕ)
non_empty [] = none
non_empty (x ∷ xs) = some (x ∷ xs)

-- The entry `i`, at `off`.
unfoldable pub entry_info : Sector → ℕ → ℕ → PartitionInfo
entry_info b i off = record {
  number = i + 1;
  start_lba = u64_at b (off + 32);
  end_lba = u64_at b (off + 40);
  size_sectors = (u64_at b (off + 40) - u64_at b (off + 32) + 1) % 2 ^ 64;
  partition_type = none;
  guid_type = some (bytes_at b off 16);
  guid_unique = some (bytes_at b (off + 16) 16);
  name = non_empty (decode_utf16_le b (off + 56));
  is_extended = false;
}

abbrev pub zero_guid : Str
zero_guid = bytes_at (λ _. 0) 0 16

-- `for i in i..i + n`, with `len` the bytes that were read.
unfoldable pub add_entries : ℕ → Sector → ℕ → ℕ → ℕ → ℕ → Result Error (List PartitionInfo)
unfolding entry_info
add_entries dev_sectors b len entry_size i zero = ok []
add_entries dev_sectors b len entry_size i (suc n) =
    let off = i * entry_size in
    let p = entry_info b i off in
    elim (ltb len (off + 128)) [
      | true ↦ ok []
      | false ↦ elim (str_eq (bytes_at b off 16) zero_guid) [
        | true ↦ add_entries dev_sectors b len entry_size (i + 1) n
        | false ↦
            guard (leb p.start_lba p.end_lba) gpt_range_invalid
            >> (guard (ltb p.end_lba dev_sectors) gpt_beyond_device
                >> (add_entries dev_sectors b len entry_size (i + 1) n >>= λ rest. ok (p ∷ rest)))
      ]
    ]

-- The end of the entry table lies on the device.
abbrev pub table_fits : ℕ → ℕ → ℕ → Bool
table_fits dev_sectors entry_lba sectors =
    ltb (entry_lba + sectors) (2 ^ 64) && leb (entry_lba + sectors) dev_sectors

-- The entries, with their place, number, size and check sum from the header. (Their size in bytes is at
-- most 2^24, so the checked product never overflows.)
unfoldable pub parse_entries : BlockDevice → ℕ → ℕ → ℕ → ℕ → Result Error (List PartitionInfo)
unfolding read_sectors crc32 add_entries
parse_entries device entry_lba num_entries entry_size crc =
    let sectors = (num_entries * entry_size + 511) / 512 in
    guard (leb 128 entry_size && leb entry_size 4096) gpt_entry_size
    >> (guard (not (num_entries == 0) && leb num_entries 4096) gpt_too_many_entries
        >> (guard (table_fits device.sector_count entry_lba sectors) gpt_entry_table_out_of_range
            >> (read_sectors device entry_lba sectors >>= λ entries.
                guard (crc32 entries (num_entries * entry_size) == crc) gpt_entries_crc_mismatch
                >> add_entries device.sector_count entries (sectors * 512) entry_size 0
                    num_entries)))

unfoldable pub parse_at : BlockDevice → ℕ → Result Error (List PartitionInfo)
unfolding read_sector crc32 parse_entries
parse_at device hdr_lba = read_sector device hdr_lba >>= λ b.
    let header_size = u32_at b 12 in
    guard (str_eq (bytes_at b 0 8) signature) gpt_signature_not_found
    >> (guard (leb 92 header_size && leb header_size 512) gpt_header_size
        >> (guard (u64_at b 24 == hdr_lba) gpt_header_lba_mismatch
            >> (guard (crc32 (crc_buf b) header_size == u32_at b 16) gpt_header_crc_mismatch
                >> parse_entries device (u64_at b 72) (u32_at b 80) (u32_at b 84) (u32_at b 88))))

-- The primary header at sector 1, else the backup in the last sector.
unfoldable pub parse : BlockDevice → Result Error (List PartitionInfo)
unfolding parse_at
parse device = elim (parse_at device 1) [
  | ok ps ↦ ok ps
  | err primary ↦
      if device.sector_count == 0
      then err primary
      else elim (parse_at device (device.sector_count - 1)) [ ok ps ↦ ok ps | err e ↦ err primary ]
]
