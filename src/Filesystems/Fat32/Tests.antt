-- ===== src/Filesystems/Fat32/Tests.antt =====
-- A small volume of kernel/src/filesystems/fstypes/fat32: six clusters, two of them a chain; runs on it,
-- and the theorems at it.
use bedrock_stack.Base.{
  ℕ, zero, suc, ◌<◌, ◌≡◌, refl, subst, inl, inr, Bool, true, false, not, some, List, mem, [], ◌∷◌,
  length, Result, ok, err, arith, if◌then◌else◌, ◌==◌, ltb, ◌&&◌, ◌||◌, Bool-cases,
}
use bedrock_stack.Unispace.{VfsError, io_error, no_space}
use bedrock_stack.Filesystems.Fat32.{
  Sector, Bpb, in_volume, active_fat_idx, fat_sector_lba, fat_entry_position,
}
use bedrock_stack.Filesystems.Fat32.Geometry.{IsValid}
use bedrock_stack.Filesystems.Fat32.Table.{Volume, read_fat_entry, write_fat_entry}
use bedrock_stack.Filesystems.Fat32.Table.Entry.{
  is_some, entry, Works, later, Agrees, is_marked, read_fat_entry-write_fat_entry,
}
use bedrock_stack.Filesystems.Fat32.Chain.{chain_len, free_chain, truncate_chain}
use bedrock_stack.Filesystems.Fat32.Chain.Truncate.{truncate_chain-IsChain}
use bedrock_stack.Filesystems.Fat32.Extend.Append.{extend_chain-IsChain}
use bedrock_stack.Filesystems.Fat32.Chain.Spec.{IsChain}
use bedrock_stack.Filesystems.Fat32.Chain.Length.{chain_len-IsChain}
use bedrock_stack.Filesystems.Fat32.Chain.Free.{Freed}
use bedrock_stack.Filesystems.Fat32.Chain.FreeLoop.{free_chain-Freed}
use bedrock_stack.Filesystems.Fat32.Alloc.{alloc_clusters, alloc_cluster}
use bedrock_stack.Filesystems.Fat32.Alloc.Claim.{Claimed, Untouched}
use bedrock_stack.Filesystems.Fat32.Alloc.Correct.{alloc_clusters-Claimed, alloc_clusters-Untouched}
use bedrock_stack.Filesystems.Fat32.Extend.{extend_chain}
use bedrock_stack.Filesystems.Fat32.Extend.Data.{HasTable}
use bedrock_stack.Filesystems.Fat32.Mount.{scan_free_clusters}
use bedrock_stack.Filesystems.Fat32.Mount.Scan.{free_below}
use bedrock_stack.Filesystems.Fat32.Mount.Chunks.{scan_free_clusters-Agrees}

abbrev bpb : Bpb
bpb = record {
  bytes_per_sec = 512;
  sec_per_clus = 1;
  rsvd_sec_cnt = 1;
  num_fats = 1;
  fat_sz32 = 1;
  root_clus = 2;
  fsinfo_sec = 0;
  byts_per_clus = 512;
  first_data_sec = 2;
  total_clus = 6;
  ext_flags = 0;
}

bpb-IsValid : IsValid 8 bpb
bpb-IsValid = record {
  sector = refl;
  cluster_sectors = (omega arith, omega arith);
  cluster_bytes = refl;
  reserved = omega arith;
  fats = (omega arith, omega arith);
  data_after_fats = refl;
  root = (omega arith, omega arith);
  data_fits = omega arith;
  counts = omega arith;
}

bpb-HasTable : HasTable bpb
unfolding active_fat_idx
bpb-HasTable = record { room = omega arith; active = omega arith }

-- The table: cluster 2 is followed by 3, which ends the chain.
abbrev table : Sector
table i =
    if i == 8
    then 3
    else if i == 12
    then 248
    else if i == 13
    then 255
    else if i == 14
    then 255
    else if i == 15
    then 15
    else 0

-- The volume, on a device that fails the accesses of a test.
abbrev volume_on : (ℕ → Bool) → Volume
volume_on fails = record {
  bpb = bpb;
  sectors = λ lba. if lba == 1 then table else λ i. 0;
  alloc_bitmap = some (λ i. ltb i 2);
  next_alloc_hint = 2;
  free_clus_count = 4;
  fails = fails;
  accesses = 0;
}

abbrev volume : Volume
volume = volume_on (λ n. false)

-- The second access fails.
abbrev flaky : Volume
flaky = volume_on (λ n. n == 1)

volume-Works : Works volume
volume-Works n = refl

chain : IsChain (entry volume) bpb 2 (2 ∷ 3 ∷ [])
unfolding entry active_fat_idx fat_sector_lba
chain = (refl, refl, omega arith, (refl, refl, omega arith, omega arith))

flaky-IsChain : IsChain (entry flaky) bpb 2 (2 ∷ 3 ∷ [])
unfolding entry active_fat_idx fat_sector_lba
flaky-IsChain = (refl, refl, omega arith, (refl, refl, omega arith, omega arith))

-- A test on the numbers below a bound.
holds_below : (p : ℕ → Bool) → ℕ → Bool
holds_below p zero = true
holds_below p (suc n) = p n && holds_below p n

below : (p : ℕ → Bool) (n c : ℕ) → holds_below p n ≡ true → c < n → p c ≡ true
unfolding holds_below
below p zero c h lt = absurd (omega arith)
below p (suc n) c h lt = elim (Bool-cases (c == n)) [
  | inl e ↦ let eq : n ≡ c = ground arith in subst (λ z. p z ≡ true) eq (ground (arith, h))
  | inr e ↦ below p n c (ground (arith, h)) (ground arith)
]

abbrev same : Bool → Bool → Bool
same true b = b
same false b = not b

same-eq : (a b : Bool) → same a b ≡ true → a ≡ b
same-eq true b h = ground (arith, h)
same-eq false b h = ground (arith, h)

abbrev agrees_at : Volume → ℕ → Bool
agrees_at v c = not (in_volume v.bpb c) || same (is_marked v c) (not (entry v c == 0))

agrees : (v : Volume) → v.bpb.total_clus ≡ 6 → holds_below (agrees_at v) 8 ≡ true → Agrees v
agrees v total h has c hin =
    let lt : c < 8 = ground (arith, total, hin) in
    let t = below (agrees_at v) 8 c h lt in
    same-eq (is_marked v c) (not (entry v c == 0)) (ground (arith, t, hin))

volume-Agrees : Agrees volume
unfolding entry active_fat_idx fat_sector_lba holds_below
volume-Agrees = agrees volume refl refl

flaky-Agrees : Agrees flaky
unfolding entry active_fat_idx fat_sector_lba holds_below
flaky-Agrees = agrees flaky refl refl

abbrev out_of : {A : Type 0} → Result VfsError A × Volume → Volume
out_of r = r.1

read_fat_entry-write_fat_entry_example :
    (w u : Volume) × (write_fat_entry 4 7 volume ≡ (ok tt, w)) × (read_fat_entry 4 w ≡ (ok 7, u))
read_fat_entry-write_fat_entry_example =
    read_fat_entry-write_fat_entry 8 volume 4 4 7 bpb-IsValid volume-Works refl refl

chain_len-IsChain_example : (a : ℕ) × (chain_len 2 volume ≡ (ok 2, later a volume))
chain_len-IsChain_example = chain_len-IsChain 8 volume 2 (2 ∷ 3 ∷ []) bpb-IsValid volume-Works chain

free_chain-Freed_example :
    (w : Volume) × (free_chain 2 volume ≡ (ok tt, w)) × Freed (2 ∷ 3 ∷ []) volume w
free_chain-Freed_example = free_chain-Freed 8 volume 2 (2 ∷ 3 ∷ []) bpb-IsValid volume-Works chain

abbrev failed : Result VfsError (Unit {0})
failed = err io_error

-- On the device that fails its second access, nothing is freed yet.
abbrev after_failure : Volume
after_failure = out_of (free_chain 2 flaky)

free_fails : free_chain 2 flaky ≡ (err io_error, after_failure)
unfolding free_chain read_fat_entry fat_entry_position write_fat_entry
free_fails = refl

truncate_chain-IsChain_example :
    (w : Volume) × (truncate_chain 2 1 volume ≡ (ok tt, w))
    × IsChain (entry w) w.bpb 2 (2 ∷ [])
    × ((z : ℕ) → mem z (3 ∷ []) ≡ true → entry w z ≡ 0)
    × ((z : ℕ) → mem z (2 ∷ 3 ∷ []) ≡ false → entry w z ≡ entry volume z)
truncate_chain-IsChain_example =
    truncate_chain-IsChain 8 volume 2 2 [] (3 ∷ []) bpb-IsValid volume-Works chain

abbrev allocated : Volume
allocated = out_of (alloc_clusters 3 volume)

three_allocated : alloc_clusters 3 volume ≡ (ok (4 ∷ 5 ∷ 6 ∷ []), allocated)
unfolding alloc_clusters write_fat_entry fat_entry_position
three_allocated = refl

alloc_clusters-Claimed_example :
    Claimed (4 ∷ 5 ∷ 6 ∷ []) volume allocated × (length {A = ℕ} (4 ∷ 5 ∷ 6 ∷ []) ≡ 3)
alloc_clusters-Claimed_example =
    alloc_clusters-Claimed 8 3 volume allocated (4 ∷ 5 ∷ 6 ∷ []) bpb-IsValid volume-Agrees
      (omega arith) three_allocated

abbrev not_allocated : Volume
not_allocated = out_of (alloc_clusters 3 flaky)

allocation_fails : alloc_clusters 3 flaky ≡ (err io_error, not_allocated)
unfolding alloc_clusters write_fat_entry fat_entry_position
allocation_fails = refl

alloc_clusters-Untouched_example : Untouched flaky not_allocated
alloc_clusters-Untouched_example =
    alloc_clusters-Untouched 8 3 flaky not_allocated io_error bpb-IsValid flaky-Agrees (omega arith)
      allocation_fails

abbrev full : Volume
full = out_of (alloc_clusters 5 volume)

five_are_too_many : alloc_clusters 5 volume ≡ (err no_space, full)
unfolding alloc_clusters
five_are_too_many = refl

abbrev extended : Volume
extended = out_of (extend_chain 2 2 volume)

extends : extend_chain 2 2 volume ≡ (ok tt, extended)
unfolding extend_chain read_fat_entry fat_entry_position fat_sector_lba active_fat_idx alloc_cluster
    write_fat_entry
extends = refl

four_free : scan_free_clusters volume ≡ (ok 4, out_of (scan_free_clusters volume))
unfolding scan_free_clusters fat_sector_lba active_fat_idx
four_free = refl

scan_free_clusters-Agrees_example :
    (w : Volume) × (scan_free_clusters volume ≡ (ok (free_below (entry volume) bpb 8), w))
    × (is_some w.alloc_bitmap ≡ true)
    × Agrees w
    × ((d : ℕ) → entry w d ≡ entry volume d)
scan_free_clusters-Agrees_example = scan_free_clusters-Agrees volume bpb-HasTable volume-Works

extend_chain-IsChain_example :
    (new : List ℕ) × (length new ≡ 2)
    × IsChain (entry extended) extended.bpb 2 (2 ∷ 3 ∷ new)
    × Agrees extended
extend_chain-IsChain_example =
    extend_chain-IsChain 8 2 2 volume extended (2 ∷ 3 ∷ []) bpb-IsValid bpb-HasTable (omega arith)
      volume-Agrees (omega arith) chain extends
