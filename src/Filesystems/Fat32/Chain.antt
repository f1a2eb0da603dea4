-- ===== src/Filesystems/Fat32/Chain.antt =====
-- kernel/src/filesystems/fstypes/fat32/cluster.rs and `free_chain` of alloc.rs: chains of clusters
-- measured, freed and cut. A loop counts the rounds it has left where the source counts those it has
-- done: it gives up when none is left.
pub mod Spec
pub mod Length
pub mod Free
pub mod FreeLoop
pub mod Truncate
use bedrock_stack.Base.{
  ℕ, zero, suc, ◌+◌, ◌-◌, ◌^◌, ◌%◌, Bool, true, false, ◌&&◌, ◌||◌, Option, none, some,
  if◌then◌else◌, ltb, leb, ◌==◌, Result, ok, err,
}
use bedrock_stack.Unispace.{VfsError, io_error}
use bedrock_stack.Filesystems.Fat32.{Bpb}
use bedrock_stack.Filesystems.Fat32.Table.{
  Volume, Action, and_then, return, eoc_marker, free_cluster, read_fat_entry, write_fat_entry,
  set_bit, with_bits,
}

-- The counter is a `u32` that wraps.
abbrev pub add_free : ℕ → Volume → Volume
add_free n v = record v { free_clus_count = (v.free_clus_count + n) % 2 ^ 32 }

unfoldable pub bit_index : ℕ → ℕ → Option ℕ
bit_index clus total = if leb 2 clus && ltb (clus - 2) total then some (clus - 2) else none

unfoldable pub bitmap_mark_free : ℕ → Volume → Volume
unfolding bit_index
bitmap_mark_free cluster v = elim (bit_index cluster v.bpb.total_clus) [
  | none ↦ v
  | some i ↦ with_bits (set_bit false i) v
]

-- One round of the loop of `free_chain`: the next cluster.
unfoldable pub free_one : ℕ → Action ℕ
unfolding bitmap_mark_free
free_one cluster = and_then (read_fat_entry cluster) λ next.
    and_then (write_fat_entry cluster free_cluster)
      λ _ v. (ok next, add_free 1 (bitmap_mark_free cluster v))

unfoldable pub free_loop : ℕ → ℕ → Action (Unit {0})
unfolding free_one
free_loop zero cluster v = (err io_error, v)
free_loop (suc n) cluster v = elim (leb 2 cluster && ltb cluster eoc_marker) [
  | true ↦ and_then (free_one cluster) (λ next. free_loop n next) v
  | false ↦ (ok tt, v)
]

unfoldable pub free_chain : ℕ → Action (Unit {0})
unfolding free_loop
free_chain cluster v = free_loop (v.bpb.total_clus + 3) cluster v

unfoldable pub chain_len_loop : ℕ → ℕ → ℕ → Action ℕ
chain_len_loop zero c k v = (err io_error, v)
chain_len_loop (suc n) c k v =
    and_then (read_fat_entry c)
      (λ next. elim (leb eoc_marker next) [
        | true ↦ return k
        | false ↦ chain_len_loop n next (k + 1)
      ])
      v

unfoldable pub chain_len : ℕ → Action ℕ
unfolding chain_len_loop
chain_len start v =
    if (start == 0) || leb eoc_marker start
    then (ok 0, v)
    else chain_len_loop (v.bpb.total_clus + 2) start 1 v

-- `for _ in 0..n`, with an early return where the chain ends.
unfoldable pub skip : ℕ → ℕ → Action (Option ℕ)
skip zero c = return (some c)
skip (suc n) c =
    and_then (read_fat_entry c)
      (λ next. elim (leb eoc_marker next) [ true ↦ return none | false ↦ skip n next ])

-- The chain is cut behind `c`.
unfoldable pub cut : ℕ → Action (Unit {0})
unfolding free_chain
cut c = and_then (read_fat_entry c) λ next. elim (ltb next eoc_marker) [
  | true ↦ and_then (write_fat_entry c eoc_marker) λ _. free_chain next
  | false ↦ return tt
]

unfoldable pub truncate_chain : ℕ → ℕ → Action (Unit {0})
unfolding free_chain skip cut
truncate_chain start keep =
    if (start == 0) || (keep == 0)
    then free_chain start
    else and_then (skip (keep - 1) start) λ o. elim o [ none ↦ return tt | some c ↦ cut c ]
