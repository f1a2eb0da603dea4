-- ===== src/Filesystems/Fat32/Alloc.antt =====
-- kernel/src/filesystems/fstypes/fat32/alloc.rs: clusters allocated from the bitmap, or from the table
-- where the volume has no bitmap. A candidate is its cluster; its word and bit in the bitmap are those
-- of the cluster's index.
pub mod Bitmap
pub mod Window
pub mod Choose
pub mod Write
pub mod Scan
pub mod Claim
pub mod Promise
pub mod Correct
pub mod Full
use bedrock_stack.Base.{
  ℕ, zero, suc, ◌+◌, ◌-◌, ◌%◌, ◌^◌, Bool, true, false, not, ◌&&◌, Option, none, some, List, [], ◌∷◌,
  if◌then◌else◌, ltb, leb, ◌==◌, length, is_empty, Result, ok, err,
}
use bedrock_stack.Unispace.{VfsError, io_error, no_space}
use bedrock_stack.Filesystems.Fat32.{Bpb}
use bedrock_stack.Filesystems.Fat32.Table.{
  Volume, Action, and_then, return, eoc_marker, free_cluster, read_fat_entry, write_fat_entry,
  set_bit, with_bits,
}

abbrev pub Bits : Type 0
Bits = ℕ → Bool

-- The element `k` of the window at `s`, which wraps around where it reaches beyond the end.
abbrev pub window_index : ℕ → ℕ → ℕ → ℕ → ℕ
window_index total count s k = if ltb total (s + count) then (s + k) % total else s + k

-- `for k in k..k + n`: no bit of the window is set.
unfoldable pub window_free : Bits → (ℕ → ℕ) → ℕ → ℕ → Bool
window_free bits f k zero = true
window_free bits f k (suc n) = elim (bits (f k)) [
  | true ↦ false
  | false ↦ window_free bits f (k + 1) n
]

-- The window's bits are set, and its clusters pushed.
unfoldable pub reserve : (ℕ → ℕ) → ℕ → ℕ → Bits → List ℕ × Bits
reserve f k zero bits = ([], bits)
reserve f k (suc n) bits =
    let (cs, bits') = reserve f (k + 1) n (set_bit true (f k) bits) in ((2 + f k) ∷ cs, bits')

-- `for off in off..off + n`
unfoldable pub find_window : Bits → ℕ → ℕ → ℕ → ℕ → ℕ → Option (List ℕ × Bits)
unfolding window_free reserve
find_window bits total count start off zero = none
find_window bits total count start off (suc n) =
    let f = window_index total count ((start + off) % total) in
    elim (window_free bits f 0 count) [
      | true ↦ some (reserve f 0 count bits)
      | false ↦ find_window bits total count start (off + 1) n
    ]

-- `for off in off..off + n`, until `want` clusters more are found.
unfoldable pub gather : ℕ → ℕ → ℕ → ℕ → ℕ → Bits → List ℕ × Bits
gather total start want off zero bits = ([], bits)
gather total start zero off (suc n) bits = ([], bits)
gather total start (suc want) off (suc n) bits =
    let i = (start + off) % total in
    elim (bits i) [
      | true ↦ gather total start (suc want) (off + 1) n bits
      | false ↦
          let (cs, bits') = gather total start want (off + 1) n (set_bit true i bits) in
          ((2 + i) ∷ cs, bits')
    ]

unfoldable pub clear_all : List ℕ → Bits → Bits
clear_all [] bits = bits
clear_all (c ∷ cs) bits = clear_all cs (set_bit false (c - 2) bits)

-- The candidates, or an error with the bits as they were.
unfoldable pub choose : ℕ → ℕ → ℕ → Bits → Result VfsError (List ℕ) × Bits
unfolding find_window gather clear_all
choose total count hint bits =
    let start = (hint - 2) % total in
    elim (if leb count total then find_window bits total count start 0 total else none) [
      | some (cs, bits') ↦
          if length cs == count then (ok cs, bits') else (err io_error, clear_all cs bits')
      | none ↦
          let (cs, bits') = gather total start count 0 total bits in
          if ltb (length cs) count then (err no_space, clear_all cs bits') else (ok cs, bits')
    ]

-- The clusters written before the first error, and the error.
abbrev pub Written : Type 0
Written = (Option VfsError × List ℕ) × Volume

abbrev pub push_written : ℕ → Written → Written
push_written c ((e, out), v) = ((e, c ∷ out), v)

unfoldable pub write_eocs : List ℕ → Volume → Written
write_eocs [] v = ((none, []), v)
write_eocs (c ∷ cs) v =
    let (r, w) = write_fat_entry c eoc_marker v in
    elim r [ err e ↦ ((some e, []), w) | ok u ↦ push_written c (write_eocs cs w) ]

-- `let _ = self.write_fat_entry(c, FREE_CLUSTER)` for each.
unfoldable pub rewrite_free : List ℕ → Volume → Volume
rewrite_free [] v = v
rewrite_free (c ∷ cs) v = rewrite_free cs (write_fat_entry c free_cluster v).1

abbrev pub last : List ℕ → Option ℕ
last [] = none
last (c ∷ []) = some c
last (c ∷ d ∷ cs) = last (d ∷ cs)

-- The hint moves past the last cluster, and the counter, a `u32`, down.
abbrev pub advance : Option ℕ → ℕ → ℕ
advance none hint = hint
advance (some c) hint = if ltb (c + 1) 2 then 2 else c + 1

unfoldable pub settle : List ℕ → ℕ → Volume → Volume
settle out count v = record v {
  next_alloc_hint = advance (last out) v.next_alloc_hint;
  free_clus_count = (v.free_clus_count + 2 ^ 32 - count) % 2 ^ 32;
}

-- The candidates are written to the table.
unfoldable pub commit : List ℕ → ℕ → Action (List ℕ)
unfolding write_eocs rewrite_free settle clear_all
commit cs count v =
    let ((e, out), w) = write_eocs cs v in
    elim e [
      | some e ↦ (err e, rewrite_free out (with_bits (clear_all cs) w))
      | none ↦ (ok out, settle out count w)
    ]

-- `for i in i..i + n`, until `want` clusters more are found.
unfoldable pub scan_fat : ℕ → ℕ → ℕ → ℕ → Volume → Written
scan_fat hint want i zero v = ((none, []), v)
scan_fat hint zero i (suc n) v = ((none, []), v)
scan_fat hint (suc want) i (suc n) v =
    let clus = 2 + (hint - 2 + i) % 2 ^ 32 % v.bpb.total_clus in
    let (r, w) = read_fat_entry clus v in
    elim r [
      | err e ↦ ((some e, []), w)
      | ok val ↦ elim (val == free_cluster) [
        | false ↦ scan_fat hint (suc want) (i + 1) n w
        | true ↦
            let (q, x) = write_fat_entry clus eoc_marker w in
            elim q [
              | err e ↦ ((some e, []), x)
              | ok u ↦ push_written clus (scan_fat hint want (i + 1) n x)
            ]
      ]
    ]

unfoldable pub alloc_from_fat : ℕ → Action (List ℕ)
unfolding scan_fat rewrite_free settle
alloc_from_fat count v =
    let ((e, out), w) = scan_fat v.next_alloc_hint count 0 v.bpb.total_clus v in
    elim e [
      | some e ↦ (err e, rewrite_free out w)
      | none ↦
          if ltb (length out) count
          then (err no_space, rewrite_free out w)
          else (ok out, settle out count w)
    ]

unfoldable pub alloc_from_bitmap : ℕ → Bits → Action (List ℕ)
unfolding choose commit alloc_from_fat
alloc_from_bitmap count bits v =
    let (r, bits') = choose v.bpb.total_clus count v.next_alloc_hint bits in
    let w : Volume = record v { alloc_bitmap = some bits' } in
    elim r [
      | err e ↦ (err e, w)
      | ok cs ↦ if is_empty cs then alloc_from_fat count w else commit cs count w
    ]

unfoldable pub alloc_clusters : ℕ → Action (List ℕ)
unfolding alloc_from_bitmap alloc_from_fat
alloc_clusters count v =
    if count == 0
    then (ok [], v)
    else if v.bpb.total_clus == 0
    then (err no_space, v)
    else elim v.alloc_bitmap [
      | some bits ↦ alloc_from_bitmap count bits v
      | none ↦ alloc_from_fat count v
    ]

-- `v[0]`; that the list is not empty is a theorem of `alloc_clusters`.
unfoldable pub alloc_cluster : Action ℕ
unfolding alloc_clusters
alloc_cluster =
    and_then (alloc_clusters 1) λ cs. elim cs [ [] ↦ λ v. (err io_error, v) | c ∷ rest ↦ return c ]
