-- ===== src/Filesystems/Fat32/Alloc/Write.antt =====
-- kernel/src/filesystems/fstypes/fat32/alloc.rs: what the allocator's writes do to the table, with the
-- accesses that fail.
use bedrock_stack.Base.{
  ℕ, ◌^◌, ◌<◌, ◌≡◌, refl, sym, ap, ◌∙◌, ◌⊎◌, inl, inr, true, false, none, some, List, [], ◌∷◌, mem,
  All, ok, err, arith, if◌then◌else◌, subst,
}
use bedrock_stack.Unispace.{VfsError}
use bedrock_stack.Filesystems.Fat32.{in_volume}
use bedrock_stack.Filesystems.Fat32.Geometry.{IsValid}
use bedrock_stack.Filesystems.Fat32.Table.{Volume, tick, put_entry, eoc_marker, write_fat_entry}
use bedrock_stack.Filesystems.Fat32.Table.Entry.{
  entry, put, entry-put, entry-tick, entry-later, Works, later, write_ok, write_cases,
}
use bedrock_stack.Filesystems.Fat32.Alloc.{Written, push_written, write_eocs, rewrite_free}

-- A value was written to the entries of some clusters, and nothing else differs.
pub record Wrote (x : ℕ) (cs : List ℕ) (v w : Volume) : Type 0 where
  pub same_bpb : w.bpb ≡ v.bpb
  pub same_device : w.fails ≡ v.fails
  pub same_hint : w.next_alloc_hint ≡ v.next_alloc_hint
  pub same_count : w.free_clus_count ≡ v.free_clus_count
  pub same_bitmap : w.alloc_bitmap ≡ v.alloc_bitmap
  pub entries : (d : ℕ) → entry w d ≡ (if mem d cs then x else entry v d)

pub Wrote-none : (x a : ℕ) (v : Volume) → Wrote x [] v (later a v)
Wrote-none x a v = record {
  same_bpb = refl;
  same_device = refl;
  same_hint = refl;
  same_count = refl;
  same_bitmap = refl;
  entries = λ d. entry-later a v d;
}

pub Wrote-later : (x a : ℕ) (cs : List ℕ) (v w : Volume) → Wrote x cs (later a v) w → Wrote x cs v w
Wrote-later x a cs v w h = record {
  same_bpb = h.same_bpb;
  same_device = h.same_device;
  same_hint = h.same_hint;
  same_count = h.same_count;
  same_bitmap = h.same_bitmap;
  entries = λ d. h.entries d ∙ ap (λ e. if mem d cs then x else e) (entry-later a v d);
}

pub Wrote-cons :
    (x c : ℕ) (cs : List ℕ) (v w : Volume)
    → x < 2 ^ 28
    → Wrote x cs (put c x (tick v)) w
    → Wrote x (c ∷ cs) v w
unfolding put put_entry
Wrote-cons x c cs v w lt h = record {
  same_bpb = h.same_bpb;
  same_device = h.same_device;
  same_hint = h.same_hint;
  same_count = h.same_count;
  same_bitmap = h.same_bitmap;
  entries = λ d. ground (arith, h.entries d, entry-put (tick v) c d x, entry-tick v d, lt);
}

pub put-bpb : (c x : ℕ) (v : Volume) → (put c x v).bpb ≡ v.bpb
unfolding put put_entry
put-bpb c x v = refl

pub put-IsValid : (n c x : ℕ) (v : Volume) → IsValid n v.bpb → IsValid n (put c x v).bpb
unfolding put put_entry
put-IsValid n c x v valid = valid

pub put-fails : (c x : ℕ) (v : Volume) → (put c x v).fails ≡ v.fails
unfolding put put_entry
put-fails c x v = refl

-- The writes: a first part of the candidates is written, all of them where no access fails.
pub record WroteSome (cs : List ℕ) (v : Volume) (r : Written) : Type 0 where
  pub wrote : Wrote eoc_marker r.0.1 v r.1
  pub among : (d : ℕ) → mem d r.0.1 ≡ true → mem d cs ≡ true
  pub whole : (r.0.0 ≡ none) ⊎ ((e : VfsError) × (r.0.0 ≡ some e))
  pub all_of_them : r.0.0 ≡ none → r.0.1 ≡ cs

module _ (c : ℕ) (cs : List ℕ) (v : Volume) where
  eocs_stop :
      (e : VfsError) (w : Volume)
      → write_fat_entry c eoc_marker v ≡ (err e, w)
      → write_eocs (c ∷ cs) v ≡ ((some e, []), w)
  unfolding write_eocs
  eocs_stop e w h = ground (arith, h)

  eocs_next :
      (w : Volume)
      → write_fat_entry c eoc_marker v ≡ (ok tt, w)
      → write_eocs (c ∷ cs) v ≡ push_written c (write_eocs cs w)
  unfolding write_eocs
  eocs_next w h = ground (arith, h)

pub write_eocs-WroteSome :
    (n : ℕ) (cs : List ℕ) (v : Volume) → IsValid n v.bpb → WroteSome cs v (write_eocs cs v)
unfolding write_eocs
write_eocs-WroteSome n [] v valid = record {
  wrote = Wrote-none eoc_marker v.accesses v;
  among = λ d h. h;
  whole = inl refl;
  all_of_them = λ h. refl;
}
write_eocs-WroteSome n (c ∷ cs) v valid = elim (write_cases n v c valid eoc_marker) [
  | inr (e, a, q) ↦ rw (eocs_stop c cs v e (later a v) q) (record {
    wrote = Wrote-none eoc_marker a v;
    among = λ d h. absurd (ground (arith, h));
    whole = inr (e, refl);
    all_of_them = λ h. absurd (ground (arith, h));
  })
  | inl (hin, q) ↦
      let w = put c eoc_marker (tick v) in
      let r = write_eocs-WroteSome n cs w (put-IsValid n c eoc_marker (tick v) valid) in
      rw (eocs_next c cs v w q) (record {
        wrote = Wrote-cons eoc_marker c _ v _ (omega arith) r.wrote;
        among = λ d h. ground (arith, h, r.among d);
        whole = r.whole;
        all_of_them = λ h. ap (λ l. c ∷ l) (r.all_of_them h);
      })
]

-- No write fails on clusters of the volume.
pub write_eocs-Works :
    (n : ℕ) (cs : List ℕ) (v : Volume)
    → IsValid n v.bpb
    → Works v
    → All (λ c. in_volume v.bpb c ≡ true) cs
    → (write_eocs cs v).0.0 ≡ none
unfolding write_eocs
write_eocs-Works n [] v valid works h = refl
write_eocs-Works n (c ∷ cs) v valid works h =
    let w = put c eoc_marker (tick v) in
    rw (eocs_next c cs v w (write_ok n v c valid eoc_marker h.0 (works v.accesses))) (
      write_eocs-Works n cs w (put-IsValid n c eoc_marker (tick v) valid)
        (subst (λ f. (k : ℕ) → f k ≡ false) (sym (put-fails c eoc_marker (tick v))) works)
        (subst (λ b. All (λ c. in_volume b c ≡ true) cs) (sym (put-bpb c eoc_marker (tick v))) h.1))

-- The entries that are made free again are some of those asked for.
pub rewrite_free-Wrote :
    (n : ℕ) (cs : List ℕ) (v : Volume)
    → IsValid n v.bpb
    → (xs : List ℕ) × Wrote 0 xs v (rewrite_free cs v)
      × ((d : ℕ) → mem d xs ≡ true → mem d cs ≡ true)
unfolding rewrite_free
rewrite_free-Wrote n [] v valid = ([], Wrote-none 0 v.accesses v, λ d h. h)
rewrite_free-Wrote n (c ∷ cs) v valid = elim (write_cases n v c valid 0) [
  | inr (e, a, q) ↦
      let (xs, w, sub) = rewrite_free-Wrote n cs (later a v) valid in
      (
        xs,
        subst (λ r. Wrote 0 xs v (rewrite_free cs r.1)) (sym q) (Wrote-later 0 a xs v _ w),
        λ d h. ground (arith, sub d h),
      )
  | inl (hin, q) ↦
      let (xs, w, sub) =
        rewrite_free-Wrote n cs (put c 0 (tick v)) (put-IsValid n c 0 (tick v) valid) in
      (
        c ∷ xs,
        subst (λ r. Wrote 0 (c ∷ xs) v (rewrite_free cs r.1)) (sym q)
            (Wrote-cons 0 c xs v _ (omega arith) w),
        λ d h. ground (arith, h, sub d),
      )
]
