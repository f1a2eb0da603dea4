-- ===== src/Filesystems/Fat32/Extend/Data.antt =====
-- kernel/src/filesystems/fstypes/fat32/cluster.rs: the data of a cluster is read back as it was
-- written, and a write touches neither the data of another cluster nor the table.
use bedrock_stack.Base.{
  ℕ, ◌+◌, ◌-◌, ◌*◌, ◌/◌, ◌%◌, ◌^◌, ◌≤◌, ◌<◌, ◌≡◌, refl, sym, ap, ◌∙◌, ◌⊎◌, inl, inr, Bool, true,
  false, ◌&&◌, Bool-cases, ltb, leb, ◌==◌, ltb→lt, ok, err, arith, if◌then◌else◌, subst,
}
use bedrock_stack.Unispace.{VfsError, io_error, invalid_input}
use bedrock_stack.Filesystems.Fat32.{Sector, Bpb, le32, in_volume, cluster_to_lba, active_fat_idx}
use bedrock_stack.Filesystems.Fat32.Geometry.{
  IsValid, in_volume_bounds, fat_entry_position-bounds, lba-before, cluster_after_fats,
}
use bedrock_stack.Filesystems.Fat32.Table.{Volume, tick, with_access}
use bedrock_stack.Filesystems.Fat32.Table.Entry.{entry, entry_lba, Works, later, position}
use bedrock_stack.Filesystems.Fat32.Extend.{read_cluster, put_sectors, write_cluster}

-- The table has an entry for every cluster, and the active one is among the volume's tables.
pub record HasTable (b : Bpb) : Type 0 where
  pub room : 2 + b.total_clus ≤ 128 * b.fat_sz32
  pub active : active_fat_idx b < b.num_fats

-- The state after a write.
unfoldable pub put_cluster : ℕ → (ℕ → Sector) → Volume → Volume
put_cluster c buf v = put_sectors (cluster_to_lba v.bpb c) v.bpb.sec_per_clus buf v

pub write_cluster_cases :
    (v : Volume) (c : ℕ) (buf : ℕ → Sector)
    → ((in_volume v.bpb c ≡ true) × (write_cluster c buf v ≡ (ok tt, put_cluster c buf (tick v))))
      ⊎ ((e : VfsError) × (a : ℕ) × (write_cluster c buf v ≡ (err e, later a v)))
unfolding write_cluster with_access put_cluster
write_cluster_cases v c buf = elim (Bool-cases (in_volume v.bpb c)) [
  | inr h ↦ inr (invalid_input, v.accesses, rw (h, write_cluster) refl)
  | inl h ↦ elim (Bool-cases (v.fails v.accesses)) [
    | inl k ↦ inr (io_error, v.accesses + 1, rw (h, k, write_cluster, with_access) refl)
    | inr k ↦ inl (h, rw (h, k, write_cluster, with_access) refl)
  ]
]

-- The sectors of the table lie before the data.
entry_before_data :
    (n : ℕ) (b : Bpb) (c d : ℕ)
    → IsValid n b
    → HasTable b
    → in_volume b c ≡ true
    → in_volume b d ≡ true
    → entry_lba b d < cluster_to_lba b c
entry_before_data n b c d valid t hc hd =
    let lt =
      (fat_entry_position-bounds n b d (d * 4 / 512) (d * 4 % 512) valid t.room t.active
        (position n b d valid hd)).1 in
    omega (arith, lt, cluster_after_fats b c)

-- A write of a cluster's data leaves every entry of the table.
pub entry-put_cluster :
    (n : ℕ) (v : Volume) (c d : ℕ) (buf : ℕ → Sector)
    → IsValid n v.bpb
    → HasTable v.bpb
    → in_volume v.bpb c ≡ true
    → in_volume v.bpb d ≡ true
    → entry (put_cluster c buf v) d ≡ entry v d
unfolding entry put_cluster put_sectors
entry-put_cluster n v c d buf valid t hc hd =
    let lt = entry_before_data n v.bpb c d valid t hc hd in
    let out : (leb (cluster_to_lba v.bpb c) (entry_lba v.bpb d)
          && ltb (entry_lba v.bpb d) (cluster_to_lba v.bpb c + v.bpb.sec_per_clus))
        ≡ false =
      ground (arith, lt) in
    ap
      (λ (x : Bool).
        le32
          (if x
            then buf (entry_lba v.bpb d - cluster_to_lba v.bpb c)
            else v.sectors (entry_lba v.bpb d))
          (d * 4 % 512)
        % 2 ^ 28)
      out

pick :
    {A : Type 0} (b c : Bool) (x y z : A)
    → b ≡ c
    → (c ≡ true → x ≡ z)
    → (if b then x else y) ≡ (if c then z else y)
pick b true x y z e h = rw e (h refl)
pick b false x y z e h = rw e refl

put_cluster-sector :
    (n : ℕ) (v : Volume) (c d k : ℕ) (buf : ℕ → Sector)
    → in_volume v.bpb c ≡ true
    → in_volume v.bpb d ≡ true
    → k < v.bpb.sec_per_clus
    → (put_cluster c buf v).sectors (cluster_to_lba v.bpb d + k)
      ≡ (if d == c then buf k else v.sectors (cluster_to_lba v.bpb d + k))
unfolding put_cluster put_sectors
put_cluster-sector n v c d k buf hc hd lt =
    let b = v.bpb in
    let kc = in_volume_bounds b c hc in
    let kd = in_volume_bounds b d hd in
    let here : (leb (cluster_to_lba b c) (cluster_to_lba b d + k)
          && ltb (cluster_to_lba b d + k) (cluster_to_lba b c + b.sec_per_clus))
        ≡ (d == c) =
      elim (Bool-cases (d == c)) [
        | inl e ↦ let eq : d ≡ c = ground (arith, e) in rw eq (ground (arith, lt))
        | inr e ↦ elim (Bool-cases (ltb d c)) [
          | inl l ↦ ground (arith, lba-before b d c kd.0 (ltb→lt d c l), lt, e)
          | inr l ↦ ground (arith, lba-before b c d kc.0 (ground (arith, l, e)), lt, e)
        ]
      ] in
    pick _ (d == c) _ _ (buf k) here (λ e.
      let eq : d ≡ c = ground (arith, e) in
      let back : cluster_to_lba b c + k - cluster_to_lba b c ≡ k = omega arith in
      rw (eq, back) refl)

read_cluster_ok :
    (v : Volume) (c : ℕ)
    → in_volume v.bpb c ≡ true
    → v.fails v.accesses ≡ false
    → read_cluster c v ≡ (ok (λ k. v.sectors (cluster_to_lba v.bpb c + k)), tick v)
unfolding read_cluster with_access
read_cluster_ok v c h k = rw (h, k, read_cluster, with_access) refl

write_cluster_ok :
    (v : Volume) (c : ℕ) (buf : ℕ → Sector)
    → in_volume v.bpb c ≡ true
    → v.fails v.accesses ≡ false
    → write_cluster c buf v ≡ (ok tt, put_cluster c buf (tick v))
unfolding write_cluster with_access put_cluster
write_cluster_ok v c buf h k = rw (h, k, write_cluster, with_access) refl

pub put_cluster-bpb : (c : ℕ) (buf : ℕ → Sector) (v : Volume) → (put_cluster c buf v).bpb ≡ v.bpb
unfolding put_cluster put_sectors
put_cluster-bpb c buf v = refl

put_cluster-fails : (c : ℕ) (buf : ℕ → Sector) (v : Volume) → (put_cluster c buf v).fails ≡ v.fails
unfolding put_cluster put_sectors
put_cluster-fails c buf v = refl

-- A cluster that is read after a write of a cluster: what was written, sector by sector, or what the
-- cluster had before if it is another one.
pub read_cluster-write_cluster :
    (n : ℕ) (v : Volume) (c d : ℕ) (buf : ℕ → Sector)
    → Works v
    → in_volume v.bpb c ≡ true
    → in_volume v.bpb d ≡ true
    → (w x : Volume) × (content : ℕ → Sector) × (write_cluster c buf v ≡ (ok tt, w))
      × (read_cluster d w ≡ (ok content, x))
      × ((k : ℕ)
          → k < v.bpb.sec_per_clus
          → content k ≡ (if d == c then buf k else v.sectors (cluster_to_lba v.bpb d + k)))
read_cluster-write_cluster n v c d buf works hc hd =
    let w = put_cluster c buf (tick v) in
    let same = put_cluster-bpb c buf (tick v) in
    let fine =
      subst (λ f. f w.accesses ≡ false) (sym (put_cluster-fails c buf (tick v)))
        (works w.accesses) in
    (
      w,
      tick w,
      (λ k. w.sectors (cluster_to_lba w.bpb d + k)),
      write_cluster_ok v c buf hc (works v.accesses),
      read_cluster_ok w d (subst (λ b. in_volume b d ≡ true) (sym same) hd) fine,
      λ k lt.
          ap (λ b. w.sectors (cluster_to_lba b d + k)) same
          ∙ put_cluster-sector n (tick v) c d k buf hc hd lt,
    )
