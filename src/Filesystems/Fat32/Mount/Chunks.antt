-- ===== src/Filesystems/Fat32/Mount/Chunks.antt =====
-- kernel/src/filesystems/fstypes/fat32/alloc.rs: the chunks of `scan_free_clusters`, and its result.
use bedrock_stack.Base.{
  ℕ, zero, suc, ◌+◌, ◌-◌, ◌*◌, ◌≤◌, ◌<◌, min, ◌≡◌, refl, sym, ap, ◌∙◌, inl, inr, Bool, true, false,
  Option, none, some, Bool-cases, ltb, leb, ok, err, arith, if◌then◌else◌, subst,
}
use bedrock_stack.Unispace.{io_error}
use bedrock_stack.Filesystems.Fat32.{Sector, Bpb, active_fat_idx, fat_sector_lba}
use bedrock_stack.Filesystems.Fat32.Geometry.{in_volume_bounds}
use bedrock_stack.Filesystems.Fat32.Table.{Volume, tick, with_access}
use bedrock_stack.Filesystems.Fat32.Table.Entry.{
  entry, entry-later, Works, later, bit_of, is_some, Agrees,
}
use bedrock_stack.Filesystems.Fat32.Extend.Data.{HasTable}
use bedrock_stack.Filesystems.Fat32.Mount.{
  Counted, scan_entry, scan_sector, scan_chunk, scan_chunks, scan_free_clusters,
  bitmap_max_clusters,
}
use bedrock_stack.Filesystems.Fat32.Mount.Scan.{
  free_below, ScannedTo, scan_chunk-ScannedTo, below_zero, below_outside,
}

lba0 : Volume → ℕ
lba0 v = fat_sector_lba v.bpb (active_fat_idx v.bpb) 0

-- The sectors of the next chunk.
abbrev chunk : Volume → ℕ → ℕ
chunk v done = min 504 (v.bpb.fat_sz32 - done)

module _ (m first done : ℕ) (acc : Counted) (v : Volume) where
  chunks_done : ltb done v.bpb.fat_sz32 ≡ false → scan_chunks (suc m) first done acc v ≡ (ok acc, v)
  unfolding scan_chunks
  chunks_done h = ground (arith, h)

  chunks_fail :
      ltb done v.bpb.fat_sz32 ≡ true
      → v.fails v.accesses ≡ true
      → scan_chunks (suc m) first done acc v ≡ (err io_error, tick v)
  unfolding scan_chunks with_access
  chunks_fail h k = rw (h, k, scan_chunks, with_access) refl

  chunks_next :
      ltb done v.bpb.fat_sz32 ≡ true
      → v.fails v.accesses ≡ false
      → scan_chunks (suc m) first done acc v
        ≡ scan_chunks m first
            (done + chunk v done)
            (scan_chunk v.bpb v.sectors first done (chunk v done) acc)
            (tick v)
  unfolding scan_chunks with_access
  chunks_next h k = rw (h, k, scan_chunks, with_access) refl

ScannedTo-tick :
    (v : Volume) (e : ℕ) (acc : Counted)
    → ScannedTo (entry v) v.bpb e acc
    → ScannedTo (entry (tick v)) v.bpb e acc
unfolding entry
ScannedTo-tick v e acc h = h

ScannedTo-back :
    (v : Volume) (e : ℕ) (acc : Counted)
    → ScannedTo (entry (tick v)) v.bpb e acc
    → ScannedTo (entry v) v.bpb e acc
unfolding entry
ScannedTo-back v e acc h = h

scan_chunks-ScannedTo :
    (m done : ℕ) (acc acc' : Counted) (v w : Volume)
    → done ≤ v.bpb.fat_sz32
    → v.bpb.fat_sz32 ≤ done + m
    → ScannedTo (entry v) v.bpb (done * 128) acc
    → scan_chunks m (lba0 v) done acc v ≡ (ok acc', w)
    → ScannedTo (entry v) v.bpb (v.bpb.fat_sz32 * 128) acc' × ((a : ℕ) × (w ≡ later a v))
unfolding scan_chunks lba0
scan_chunks-ScannedTo zero done acc acc' v w le fuel h q =
    let eq : done ≡ v.bpb.fat_sz32 = omega arith in
    let same : acc ≡ acc' = ground (arith, q) in
    (
      subst (ScannedTo (entry v) v.bpb (v.bpb.fat_sz32 * 128)) same
          (subst (λ z. ScannedTo (entry v) v.bpb (z * 128) acc) eq h),
      (v.accesses, sym (ap (λ r. r.1) q)),
    )
scan_chunks-ScannedTo (suc m) done acc acc' v w le fuel h q =
    elim (Bool-cases (ltb done v.bpb.fat_sz32)) [
      | inr stop ↦
          let eq : done ≡ v.bpb.fat_sz32 = ground (arith, stop) in
          let r = sym (chunks_done m (lba0 v) done acc v stop) ∙ q in
          let same : acc ≡ acc' = ground (arith, r) in
          (
            subst (ScannedTo (entry v) v.bpb (v.bpb.fat_sz32 * 128)) same
                (subst (λ z. ScannedTo (entry v) v.bpb (z * 128) acc) eq h),
            (v.accesses, sym (ap (λ r. r.1) r)),
          )
      | inl more ↦ elim (Bool-cases (v.fails v.accesses)) [
        | inl k ↦ absurd (ground (arith, q, chunks_fail m (lba0 v) done acc v more k))
        | inr k ↦
            let r = sym (chunks_next m (lba0 v) done acc v more k) ∙ q in
            let lt : done < v.bpb.fat_sz32 = ground (arith, more) in
            let step = scan_chunk-ScannedTo v done (chunk v done) acc h in
            let (s, (a, e)) =
              scan_chunks-ScannedTo m (done + chunk v done) _ acc' (tick v) w (omega (arith, lt))
                (omega (arith, lt)) (ScannedTo-tick v _ _ step) r in
            (ScannedTo-back v _ _ s, (a, e))
      ]
    ]

scan_chunks-Works :
    (m first done : ℕ) (acc : Counted) (v : Volume)
    → Works v
    → (acc' : Counted) × (a : ℕ) × (scan_chunks m first done acc v ≡ (ok acc', later a v))
unfolding scan_chunks
scan_chunks-Works zero first done acc v works = (acc, v.accesses, refl)
scan_chunks-Works (suc m) first done acc v works = elim (Bool-cases (ltb done v.bpb.fat_sz32)) [
  | inr stop ↦ (acc, v.accesses, chunks_done m first done acc v stop)
  | inl more ↦
      let (acc', a, e) = scan_chunks-Works m first (done + chunk v done) _ (tick v) works in
      (acc', a, chunks_next m first done acc v more (works v.accesses) ∙ e)
]

-- The scan never drops the bitmap, and never makes one.
is_some-scan_entry :
    (b : Bpb) (sec i : ℕ) (s : Sector) (acc : Counted)
    → is_some (scan_entry b sec s i acc).1 ≡ is_some acc.1
unfolding scan_entry
is_some-scan_entry b sec i s (count, none) = ground arith
is_some-scan_entry b sec i s (count, some bits) = ground arith

is_some-scan_sector :
    (b : Bpb) (sec i n : ℕ) (s : Sector) (acc : Counted)
    → is_some (scan_sector b sec s i n acc).1 ≡ is_some acc.1
unfolding scan_sector
is_some-scan_sector b sec i zero s acc = refl
is_some-scan_sector b sec i (suc n) s acc =
    is_some-scan_sector b sec (i + 1) n s (scan_entry b sec s i acc)
    ∙ is_some-scan_entry b sec i s acc

is_some-scan_chunk :
    (b : Bpb) (sectors : ℕ → Sector) (first sec n : ℕ) (acc : Counted)
    → is_some (scan_chunk b sectors first sec n acc).1 ≡ is_some acc.1
unfolding scan_chunk
is_some-scan_chunk b sectors first sec zero acc = refl
is_some-scan_chunk b sectors first sec (suc n) acc =
    is_some-scan_chunk b sectors first (sec + 1) n _
    ∙ is_some-scan_sector b sec 0 128 (sectors (first + sec)) acc

is_some-scan_chunks :
    (m first done : ℕ) (acc acc' : Counted) (v w : Volume)
    → scan_chunks m first done acc v ≡ (ok acc', w)
    → is_some acc'.1 ≡ is_some acc.1
unfolding scan_chunks
is_some-scan_chunks zero first done acc acc' v w q =
    let same : acc ≡ acc' = ground (arith, q) in ap (λ c. is_some c.1) (sym same)
is_some-scan_chunks (suc m) first done acc acc' v w q =
    elim (Bool-cases (ltb done v.bpb.fat_sz32)) [
      | inr stop ↦
          let same : acc ≡ acc' = ground (arith, sym (chunks_done m first done acc v stop) ∙ q) in
          ap (λ c. is_some c.1) (sym same)
      | inl more ↦ elim (Bool-cases (v.fails v.accesses)) [
        | inl k ↦ absurd (ground (arith, q, chunks_fail m first done acc v more k))
        | inr k ↦
            is_some-scan_chunks m first (done + chunk v done) _ acc' (tick v) w
              (sym (chunks_next m first done acc v more k) ∙ q)
            ∙ is_some-scan_chunk v.bpb v.sectors first done (chunk v done) acc
      ]
    ]

abbrev first_bitmap : Bpb → Option (ℕ → Bool)
first_bitmap b = if leb b.total_clus bitmap_max_clusters then some (λ i. false) else none

first_bit : (b : Bpb) (i : ℕ) → bit_of (first_bitmap b) i ≡ false
first_bit b i = elim (Bool-cases (leb b.total_clus bitmap_max_clusters)) [
  | inl h ↦ rw h refl
  | inr h ↦ rw h refl
]

first_some : (b : Bpb) → is_some (first_bitmap b) ≡ leb b.total_clus bitmap_max_clusters
first_some b = elim (Bool-cases (leb b.total_clus bitmap_max_clusters)) [
  | inl h ↦ rw h refl
  | inr h ↦ rw h refl
]

scan_starts : (f : ℕ → ℕ) (b : Bpb) → ScannedTo f b (0 * 128) (0, first_bitmap b)
scan_starts f b = record {
  count = sym (below_zero f b);
  bits = λ d h k. first_bit b (d - 2) ∙ ground arith;
}

scan_is :
    (v w : Volume) (acc : Counted)
    → scan_chunks v.bpb.fat_sz32 (lba0 v) 0 (0, first_bitmap v.bpb) v ≡ (ok acc, w)
    → scan_free_clusters v ≡ (ok acc.0, record w { alloc_bitmap = acc.1 })
unfolding scan_free_clusters lba0
scan_is v w acc h = ground (arith, h)

beyond :
    (f : ℕ → ℕ) (b : Bpb) (k : ℕ)
    → free_below f b (k + (2 + b.total_clus)) ≡ free_below f b (2 + b.total_clus)
beyond f b zero = ap (free_below f b) (omega arith)
beyond f b (suc k) =
    let eq : suc k + (2 + b.total_clus) ≡ suc (k + (2 + b.total_clus)) = omega arith in
    ap (free_below f b) eq
    ∙ (below_outside f b (k + (2 + b.total_clus)) (ground arith) ∙ beyond f b k)

whole_table :
    (f : ℕ → ℕ) (b : Bpb)
    → HasTable b
    → free_below f b (b.fat_sz32 * 128) ≡ free_below f b (2 + b.total_clus)
whole_table f b t =
    let eq : b.fat_sz32 * 128 ≡ b.fat_sz32 * 128 - (2 + b.total_clus) + (2 + b.total_clus) =
      omega (arith, t.room) in
    ap (free_below f b) eq ∙ beyond f b (b.fat_sz32 * 128 - (2 + b.total_clus))

entry-bits :
    (o : Option (ℕ → Bool)) (v : Volume) (d : ℕ)
    → entry (record v { alloc_bitmap = o }) d ≡ entry v d
unfolding entry
entry-bits o v d = refl

scanned-Agrees :
    (a : ℕ) (v : Volume) (acc : Counted)
    → HasTable v.bpb
    → ScannedTo (entry v) v.bpb (v.bpb.fat_sz32 * 128) acc
    → Agrees (record (later a v) { alloc_bitmap = acc.1 })
unfolding entry
scanned-Agrees a v acc t s has d h =
    let lt : d < v.bpb.fat_sz32 * 128 = omega (arith, in_volume_bounds v.bpb d h, t.room) in
    ground (arith, s.bits d h has, lt)

-- `scan_free_clusters` on a device that answers, of a volume whose table has room for its clusters: it
-- ends, counts the clusters whose entries are free, and changes no entry. It leaves a bitmap if the volume
-- has at most 2^24 clusters, and none otherwise; a bitmap agrees with the table at every cluster.
pub scan_free_clusters-Agrees :
    (v : Volume)
    → HasTable v.bpb
    → Works v
    → (w : Volume) × (scan_free_clusters v
        ≡ (ok (free_below (entry v) v.bpb (2 + v.bpb.total_clus)), w))
      × (is_some w.alloc_bitmap ≡ leb v.bpb.total_clus 16777216)
      × Agrees w
      × ((d : ℕ) → entry w d ≡ entry v d)
scan_free_clusters-Agrees v t works =
    let (acc, a, e) = scan_chunks-Works v.bpb.fat_sz32 (lba0 v) 0 (0, first_bitmap v.bpb) v works in
    let s =
      (scan_chunks-ScannedTo v.bpb.fat_sz32 0 (0, first_bitmap v.bpb) acc v (later a v)
        (omega arith) (omega arith) (scan_starts (entry v) v.bpb) e).0 in
    let w : Volume = record (later a v) { alloc_bitmap = acc.1 } in
    (
      w,
      scan_is v (later a v) acc e ∙ ap (λ k. (ok k, w)) (s.count ∙ whole_table (entry v) v.bpb t),
      is_some-scan_chunks v.bpb.fat_sz32 (lba0 v) 0 (0, first_bitmap v.bpb) acc v (later a v) e
          ∙ first_some v.bpb,
      scanned-Agrees a v acc t s,
      λ d. entry-later a (record v { alloc_bitmap = acc.1 }) d ∙ entry-bits acc.1 v d,
    )
