-- ===== src/Filesystems/Fat32/Mount/Scan.antt =====
-- kernel/src/filesystems/fstypes/fat32/alloc.rs: `scan_free_clusters` counts the free clusters and builds
-- a bitmap that agrees with the table.
use bedrock_stack.Base.{
  ℕ, zero, suc, ◌+◌, ◌-◌, ◌*◌, ◌/◌, ◌%◌, ◌^◌, ◌≤◌, ◌<◌, ◌≡◌, refl, sym, ap, ◌∙◌, inl, inr, Bool,
  true, false, not, ◌&&◌, Option, none, some, Bool-cases, ltb, ◌==◌, arith, if◌then◌else◌, subst,
}
use bedrock_stack.Filesystems.Fat32.{Sector, Bpb, le32, in_volume, active_fat_idx, fat_sector_lba}
use bedrock_stack.Filesystems.Fat32.Table.{Volume, set_bit, map_bits}
use bedrock_stack.Filesystems.Fat32.Table.Entry.{entry, bit_of, is_some}
use bedrock_stack.Filesystems.Fat32.Mount.{Counted, scan_entry, scan_sector, scan_chunk}

-- The clusters below `e` of the volume whose entries are free.
pub free_below : (ℕ → ℕ) → Bpb → ℕ → ℕ
free_below f b zero = 0
free_below f b (suc e) =
    let rest = free_below f b e in if in_volume b e && (f e == 0) then rest + 1 else rest

-- What is known when the entries below `e` were looked at.
pub record ScannedTo (f : ℕ → ℕ) (b : Bpb) (e : ℕ) (acc : Counted) : Type 0 where
  pub count : acc.0 ≡ free_below f b e
  pub bits :
      (d : ℕ)
      → in_volume b d ≡ true
      → is_some acc.1 ≡ true
      → bit_of acc.1 (d - 2) ≡ (if ltb d e then not (f d == 0) else false)

-- The entry of a cluster by the sector and the place it has in the scan.
entry_at :
    (v : Volume) (sec i : ℕ)
    → i < 128
    → entry v (sec * 128 + i)
      ≡ le32 (v.sectors (fat_sector_lba v.bpb (active_fat_idx v.bpb) 0 + sec)) (i * 4) % 2 ^ 28
unfolding entry fat_sector_lba
entry_at v sec i h =
    let sector : (sec * 128 + i) * 4 / 512 ≡ sec = omega arith in
    let offset : (sec * 128 + i) * 4 % 512 ≡ i * 4 = omega arith in
    let lba : v.bpb.rsvd_sec_cnt + active_fat_idx v.bpb * v.bpb.fat_sz32 + sec
        ≡ v.bpb.rsvd_sec_cnt + active_fat_idx v.bpb * v.bpb.fat_sz32 + 0 + sec =
      omega arith in
    rw (sector, offset) (ap (λ l. le32 (v.sectors l) (i * 4) % 2 ^ 28) lba)

module _ (b : Bpb) (sec i : ℕ) (s : Sector) (acc : Counted) where
  entry_outside : in_volume b (sec * 128 + i) ≡ false → scan_entry b sec s i acc ≡ acc
  unfolding scan_entry
  entry_outside h = ground (arith, h)

  entry_free :
      in_volume b (sec * 128 + i) ≡ true
      → (le32 s (i * 4) % 2 ^ 28 == 0) ≡ true
      → scan_entry b sec s i acc ≡ (acc.0 + 1, acc.1)
  unfolding scan_entry
  entry_free h k = ground (arith, h, k)

  entry_used :
      in_volume b (sec * 128 + i) ≡ true
      → (le32 s (i * 4) % 2 ^ 28 == 0) ≡ false
      → scan_entry b sec s i acc ≡ (acc.0, map_bits (set_bit true (sec * 128 + i - 2)) acc.1)
  unfolding scan_entry
  entry_used h k = ground (arith, h, k)

-- A bit that the round leaves, since its entry is free or not looked at.
scan_bit :
    (d idx : ℕ) (x free : Bool)
    → x ≡ (if ltb d idx then not free else false)
    → (d ≡ idx → free ≡ true)
    → x ≡ (if ltb d (suc idx) then not free else false)
scan_bit d idx x free h k = ground (arith, h, k)

used_bit :
    (b : Bpb) (o : Option (ℕ → Bool)) (d idx : ℕ) (free : Bool)
    → in_volume b d ≡ true
    → in_volume b idx ≡ true
    → (is_some o ≡ true → bit_of o (d - 2) ≡ (if ltb d idx then not free else false))
    → (d ≡ idx → free ≡ false)
    → is_some (map_bits (set_bit true (idx - 2)) o) ≡ true
    → bit_of (map_bits (set_bit true (idx - 2)) o) (d - 2)
      ≡ (if ltb d (suc idx) then not free else false)
used_bit b none d idx free hd hi h k s = absurd (ground (arith, s))
used_bit b (some bits) d idx free hd hi h k s = ground (arith, hd, hi, h refl, k)

pub below_zero : (f : ℕ → ℕ) (b : Bpb) → free_below f b 0 ≡ 0
unfolding free_below
below_zero f b = refl

module _ (f : ℕ → ℕ) (b : Bpb) (e : ℕ) where
  pub below_outside : in_volume b e ≡ false → free_below f b (suc e) ≡ free_below f b e
  unfolding free_below
  below_outside h = ground (arith, h)

  below_free :
      in_volume b e ≡ true → (f e == 0) ≡ true → free_below f b (suc e) ≡ free_below f b e + 1
  unfolding free_below
  below_free h k = ground (arith, h, k)

  below_used : (f e == 0) ≡ false → free_below f b (suc e) ≡ free_below f b e
  unfolding free_below
  below_used k = ground (arith, k)

scan_entry-ScannedTo :
    (f : ℕ → ℕ) (b : Bpb) (sec i : ℕ) (s : Sector) (acc : Counted)
    → le32 s (i * 4) % 2 ^ 28 ≡ f (sec * 128 + i)
    → ScannedTo f b (sec * 128 + i) acc
    → ScannedTo f b (suc (sec * 128 + i)) (scan_entry b sec s i acc)
scan_entry-ScannedTo f b sec i s acc e h =
    let idx = sec * 128 + i in
    elim (Bool-cases (in_volume b idx)) [
      | inr out ↦ rw (entry_outside b sec i s acc out) (record {
        count = h.count ∙ sym (below_outside f b idx out);
        bits = λ d k has. ground (arith, h.bits d k has, k, out);
      })
      | inl hin ↦ elim (Bool-cases (f idx == 0)) [
        | inl free ↦ rw (entry_free b sec i s acc hin (ground (arith, e, free))) (record {
          count = ap (λ c. c + 1) h.count ∙ sym (below_free f b idx hin free);
          bits = λ d k has.
              scan_bit d idx _ (f d == 0) (h.bits d k has) (λ q. ap (λ z. f z == 0) q ∙ free);
        })
        | inr used ↦ rw (entry_used b sec i s acc hin (ground (arith, e, used))) (record {
          count = h.count ∙ sym (below_used f b idx used);
          bits = λ d k has.
              used_bit b acc.1 d idx (f d == 0) k hin (h.bits d k)
                (λ q. ap (λ z. f z == 0) q ∙ used) has;
        })
      ]
    ]

scan_sector-ScannedTo :
    (f : ℕ → ℕ) (b : Bpb) (sec i n : ℕ) (s : Sector) (acc : Counted)
    → ((j : ℕ) → j < 128 → le32 s (j * 4) % 2 ^ 28 ≡ f (sec * 128 + j))
    → i + n ≤ 128
    → ScannedTo f b (sec * 128 + i) acc
    → ScannedTo f b (sec * 128 + (i + n)) (scan_sector b sec s i n acc)
unfolding scan_sector
scan_sector-ScannedTo f b sec i zero s acc e le h =
    let eq : sec * 128 + i ≡ sec * 128 + (i + 0) = omega arith in
    subst (λ z. ScannedTo f b z acc) eq h
scan_sector-ScannedTo f b sec i (suc n) s acc e le h =
    let here : suc (sec * 128 + i) ≡ sec * 128 + (i + 1) = omega arith in
    let end : sec * 128 + (i + 1 + n) ≡ sec * 128 + (i + suc n) = omega arith in
    let step =
      subst (λ z. ScannedTo f b z (scan_entry b sec s i acc)) here
        (scan_entry-ScannedTo f b sec i s acc (e i (omega arith)) h) in
    subst (λ z. ScannedTo f b z (scan_sector b sec s (i + 1) n (scan_entry b sec s i acc))) end
      (scan_sector-ScannedTo f b sec (i + 1) n s (scan_entry b sec s i acc) e (omega arith) step)

pub scan_chunk-ScannedTo :
    (v : Volume) (sec n : ℕ) (acc : Counted)
    → ScannedTo (entry v) v.bpb (sec * 128) acc
    → ScannedTo
        (entry v)
        v.bpb
        ((sec + n) * 128)
        (scan_chunk v.bpb v.sectors (fat_sector_lba v.bpb (active_fat_idx v.bpb) 0) sec n acc)
unfolding scan_chunk
scan_chunk-ScannedTo v sec zero acc h =
    let eq : sec * 128 ≡ (sec + 0) * 128 = omega arith in
    subst (λ z. ScannedTo (entry v) v.bpb z acc) eq h
scan_chunk-ScannedTo v sec (suc n) acc h =
    let lba = fat_sector_lba v.bpb (active_fat_idx v.bpb) 0 in
    let start : sec * 128 ≡ sec * 128 + 0 = omega arith in
    let next : sec * 128 + (0 + 128) ≡ (sec + 1) * 128 = omega arith in
    let end : (sec + 1 + n) * 128 ≡ (sec + suc n) * 128 = omega arith in
    let acc' = scan_sector v.bpb sec (v.sectors (lba + sec)) 0 128 acc in
    let one =
      scan_sector-ScannedTo (entry v) v.bpb sec 0 128 (v.sectors (lba + sec)) acc
        (λ j lt. sym (entry_at v sec j lt)) (omega arith)
        (subst (λ z. ScannedTo (entry v) v.bpb z acc) start h) in
    subst (λ z. ScannedTo (entry v) v.bpb z (scan_chunk v.bpb v.sectors lba (sec + 1) n acc')) end
      (scan_chunk-ScannedTo v (sec + 1) n acc'
        (subst (λ z. ScannedTo (entry v) v.bpb z acc') next one))
