-- ===== src/Filesystems/Fat32/Extend.antt =====
-- kernel/src/filesystems/fstypes/fat32/cluster.rs: the data of a cluster, and `extend_chain`. A buffer is
-- the function from a sector's number within the cluster to its bytes.
pub mod Data
pub mod Tail
pub mod Round
pub mod Append
use bedrock_stack.Base.{
  ℕ, zero, suc, ◌+◌, ◌-◌, Bool, true, false, ◌&&◌, if◌then◌else◌, ltb, leb, Result, ok, err,
}
use bedrock_stack.Unispace.{VfsError, io_error, invalid_input}
use bedrock_stack.Filesystems.Fat32.{Sector, Bpb, in_volume, cluster_to_lba}
use bedrock_stack.Filesystems.Fat32.Table.{
  Volume, Action, and_then, return, tick, with_access, eoc_marker, read_fat_entry, write_fat_entry,
}
use bedrock_stack.Filesystems.Fat32.Alloc.{alloc_cluster}

unfoldable pub read_cluster : ℕ → Action (ℕ → Sector)
unfolding with_access
read_cluster cluster v = elim (in_volume v.bpb cluster) [
  | false ↦ (err invalid_input, v)
  | true ↦
      let lba = cluster_to_lba v.bpb cluster in
      with_access (λ w. (ok (λ k. w.sectors (lba + k)), w)) v
]

unfoldable pub put_sectors : ℕ → ℕ → (ℕ → Sector) → Volume → Volume
put_sectors lba n buf v = record v {
  sectors = λ l. if leb lba l && ltb l (lba + n) then buf (l - lba) else v.sectors l;
}

unfoldable pub write_cluster : ℕ → (ℕ → Sector) → Action (Unit {0})
unfolding with_access put_sectors
write_cluster cluster buf v = elim (in_volume v.bpb cluster) [
  | false ↦ (err invalid_input, v)
  | true ↦
      let lba = cluster_to_lba v.bpb cluster in
      with_access (λ w. (ok tt, put_sectors lba w.bpb.sec_per_clus buf w)) v
]

unfoldable pub zero_cluster : ℕ → Action (Unit {0})
unfolding write_cluster
zero_cluster cluster = write_cluster cluster (λ k i. 0)

-- The last cluster, with the rounds left counted down.
unfoldable pub tail_loop : ℕ → ℕ → Action ℕ
tail_loop zero tail v = (err io_error, v)
tail_loop (suc n) tail v =
    and_then (read_fat_entry tail)
      (λ next. elim (leb eoc_marker next) [ true ↦ return tail | false ↦ tail_loop n next ]) v

-- `for _ in 0..n`
unfoldable pub append_loop : ℕ → ℕ → Action (Unit {0})
unfolding zero_cluster
append_loop zero tail = return tt
append_loop (suc n) tail = and_then alloc_cluster λ new.
    and_then (zero_cluster new) λ _. and_then (write_fat_entry tail new) λ _. append_loop n new

unfoldable pub extend_chain : ℕ → ℕ → Action (Unit {0})
unfolding tail_loop append_loop
extend_chain start additional v =
    and_then (tail_loop (v.bpb.total_clus + 3) start) (append_loop additional) v
