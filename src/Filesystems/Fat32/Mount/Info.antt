-- ===== src/Filesystems/Fat32/Mount/Info.antt =====
-- kernel/src/filesystems/fstypes/fat32: what a mount reads from the information sector that an earlier
-- session wrote.
use bedrock_stack.Base.{
  ℕ, ◌+◌, ◌^◌, ◌≤◌, ◌<◌, ◌≡◌, refl, ap, ◌∙◌, true, false, ltb, ◌==◌, ok, arith, if◌then◌else◌,
}
use bedrock_stack.Filesystems.Fat32.{Sector, le32, fsinfo_is_valid}
use bedrock_stack.Filesystems.Fat32.Table.{Volume, tick, with_access}
use bedrock_stack.Filesystems.Fat32.Table.Entry.{Works}
use bedrock_stack.Filesystems.Fat32.Mount.{
  info_sector, put_sector, write_fsinfo, hint_of, load_hint, fsinfo_lead_sig, fsinfo_struct_sig,
}

info_lead : (v : Volume) (s : Sector) → le32 (info_sector v s) 0 ≡ fsinfo_lead_sig
unfolding info_sector
info_lead v s = refl

info_struct : (v : Volume) (s : Sector) → le32 (info_sector v s) 484 ≡ fsinfo_struct_sig
unfolding info_sector
info_struct v s = refl

info_hint :
    (v : Volume) (s : Sector)
    → v.next_alloc_hint < 2 ^ 32
    → le32 (info_sector v s) 492 ≡ v.next_alloc_hint
unfolding info_sector
info_hint v s h = omega arith

hint_of-info_sector :
    (v : Volume) (s : Sector)
    → 2 ≤ v.next_alloc_hint
    → v.next_alloc_hint < 2 ^ 32
    → hint_of v.bpb (info_sector v s) 2
      ≡ (if ltb v.next_alloc_hint (2 + v.bpb.total_clus) then v.next_alloc_hint else 2)
unfolding hint_of
hint_of-info_sector v s le lt =
    rw (info_lead v s, info_struct v s, info_hint v s lt) (ground (arith, le))

-- The state after the write.
written : Volume → Volume
unfolding info_sector
written v = put_sector v.bpb.fsinfo_sec (info_sector v (v.sectors v.bpb.fsinfo_sec)) (tick (tick v))

write_fsinfo_ok :
    (v : Volume)
    → fsinfo_is_valid v.bpb ≡ true
    → v.fails v.accesses ≡ false
    → v.fails (v.accesses + 1) ≡ false
    → write_fsinfo v ≡ (ok tt, written v)
unfolding write_fsinfo with_access written info_sector
write_fsinfo_ok v h k l = rw (h, k, l, write_fsinfo, with_access) refl

load_hint_is :
    (w : Volume)
    → fsinfo_is_valid w.bpb ≡ true
    → w.fails w.accesses ≡ false
    → (load_hint w).next_alloc_hint ≡ hint_of w.bpb (w.sectors w.bpb.fsinfo_sec) w.next_alloc_hint
unfolding load_hint
load_hint_is w h k = rw (h, k, load_hint) refl

sector_put : (lba : ℕ) (s : Sector) (v : Volume) → (put_sector lba s v).sectors lba ≡ s
sector_put lba s v = let e : (lba == lba) ≡ true = ground arith in rw e refl

-- A mount reads back the hint that `write_fsinfo` wrote, while the hint is a cluster of the volume, and
-- otherwise, with the hint past the last cluster, starts at the first one.
pub load_hint-write_fsinfo :
    (v : Volume)
    → Works v
    → fsinfo_is_valid v.bpb ≡ true
    → 2 ≤ v.next_alloc_hint
    → v.next_alloc_hint < 2 ^ 32
    → (w : Volume) × (write_fsinfo v ≡ (ok tt, w))
      × ((load_hint (record w { next_alloc_hint = 2 })).next_alloc_hint
          ≡ (if ltb v.next_alloc_hint (2 + v.bpb.total_clus) then v.next_alloc_hint else 2))
unfolding written
load_hint-write_fsinfo v works h le lt =
    let w = written v in
    let s = info_sector v (v.sectors v.bpb.fsinfo_sec) in
    (
      w,
      write_fsinfo_ok v h (works v.accesses) (works (v.accesses + 1)),
      load_hint_is (record w { next_alloc_hint = 2 }) h (works w.accesses)
          ∙ (ap (λ x. hint_of v.bpb x 2) (sector_put v.bpb.fsinfo_sec s (tick (tick v)))
              ∙ hint_of-info_sector v (v.sectors v.bpb.fsinfo_sec) le lt),
    )
