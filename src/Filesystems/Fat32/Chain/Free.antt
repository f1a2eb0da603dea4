-- ===== src/Filesystems/Fat32/Chain/Free.antt =====
-- kernel/src/filesystems/fstypes/fat32/alloc.rs: `free_chain` frees the clusters of the chain, or those
-- before the first access that fails.
use bedrock_stack.Base.{
  ℕ, ◌+◌, ◌-◌, ◌%◌, ◌^◌, ◌≡◌, refl, sym, ap, ◌∙◌, ◌⊎◌, inl, inr, Bool, true, false, Option, none,
  some, List, [], ◌∷◌, ◌==◌, length, mem, ok, err, arith, if◌then◌else◌, subst,
}
use bedrock_stack.Unispace.{VfsError}
use bedrock_stack.Filesystems.Fat32.{Bpb, in_volume}
use bedrock_stack.Filesystems.Fat32.Geometry.{IsValid}
use bedrock_stack.Filesystems.Fat32.Table.{Volume, tick, set_bit, map_bits, put_entry, with_bits}
use bedrock_stack.Filesystems.Fat32.Table.Entry.{
  entry, put, entry-put, entry-later, later, read_ok, write_ok, read_cases, write_cases, bit_of,
  is_marked, is_some, has_bitmap, Agrees,
}
use bedrock_stack.Filesystems.Fat32.Chain.{add_free, bit_index, bitmap_mark_free, free_one}

-- What differs between a volume and the one where the clusters of a list are freed.
pub record Freed (xs : List ℕ) (v w : Volume) : Type 0 where
  pub same_bpb : w.bpb ≡ v.bpb
  pub same_device : w.fails ≡ v.fails
  pub same_hint : w.next_alloc_hint ≡ v.next_alloc_hint
  pub same_kind : has_bitmap w ≡ has_bitmap v
  pub entries : (d : ℕ) → entry w d ≡ (if mem d xs then 0 else entry v d)
  pub bits :
      (d : ℕ)
      → in_volume v.bpb d ≡ true
      → is_marked w d ≡ (if mem d xs then false else is_marked v d)
  pub count : w.free_clus_count % 2 ^ 32 ≡ (v.free_clus_count + length xs) % 2 ^ 32

pub Freed-none : (a : ℕ) (v : Volume) → Freed [] v (later a v)
Freed-none a v = record {
  same_bpb = refl;
  same_device = refl;
  same_hint = refl;
  same_kind = refl;
  entries = λ d. entry-later a v d;
  bits = λ d h. refl;
  count = ap (λ x. x % 2 ^ 32) (omega arith);
}

-- The state after a round that no access fails.
pub freed_one : ℕ → Volume → Volume
freed_one c v = add_free 1 (with_bits (set_bit false (c - 2)) (put c 0 (tick (tick v))))

bitmap_mark_free_is :
    (c : ℕ) (v : Volume)
    → in_volume v.bpb c ≡ true
    → bitmap_mark_free c v ≡ with_bits (set_bit false (c - 2)) v
unfolding bitmap_mark_free bit_index
bitmap_mark_free_is c v h = ground (arith, h)

put-bpb : (c x : ℕ) (v : Volume) → (put c x v).bpb ≡ v.bpb
unfolding put put_entry
put-bpb c x v = refl

freed_one_is :
    (c : ℕ) (v : Volume)
    → in_volume v.bpb c ≡ true
    → add_free 1 (bitmap_mark_free c (put c 0 (tick (tick v)))) ≡ freed_one c v
unfolding freed_one
freed_one_is c v h =
    let hin = subst (λ b. in_volume b c ≡ true) (sym (put-bpb c 0 (tick (tick v)))) h in
    ap (add_free 1) (bitmap_mark_free_is c (put c 0 (tick (tick v))) hin)

pub free_one_ok :
    (n : ℕ) (v : Volume) (c : ℕ)
    → IsValid n v.bpb
    → in_volume v.bpb c ≡ true
    → v.fails v.accesses ≡ false
    → v.fails (v.accesses + 1) ≡ false
    → free_one c v ≡ (ok (entry v c), freed_one c v)
unfolding free_one
free_one_ok n v c valid h k l =
    ground (arith, read_ok n v c valid h k, write_ok n (tick v) c valid 0 h l, freed_one_is c v h)

pub entry-freed_one :
    (v : Volume) (c d : ℕ) → entry (freed_one c v) d ≡ (if d == c then 0 else entry v d)
unfolding freed_one entry
entry-freed_one v c d = entry-put (tick (tick v)) c d 0

bit_of-clear :
    (b : Bpb) (o : Option (ℕ → Bool)) (c d : ℕ)
    → in_volume b c ≡ true
    → in_volume b d ≡ true
    → bit_of (map_bits (set_bit false (c - 2)) o) (d - 2)
      ≡ (if d == c then false else bit_of o (d - 2))
bit_of-clear b none c d h k = ground arith
bit_of-clear b (some bits) c d h k = ground (arith, h, k)

is_some-map :
    (f : (ℕ → Bool) → ℕ → Bool) (o : Option (ℕ → Bool)) → is_some (map_bits f o) ≡ is_some o
is_some-map f none = refl
is_some-map f (some bits) = refl

pub Freed-cons :
    (v w : Volume) (c : ℕ) (xs : List ℕ)
    → in_volume v.bpb c ≡ true
    → Freed xs (freed_one c v) w
    → Freed (c ∷ xs) v w
unfolding freed_one put put_entry
Freed-cons v w c xs h f = record {
  same_bpb = f.same_bpb;
  same_device = f.same_device;
  same_hint = f.same_hint;
  same_kind = f.same_kind ∙ is_some-map (set_bit false (c - 2)) v.alloc_bitmap;
  entries = λ d. ground (arith, f.entries d, entry-freed_one v c d);
  bits = λ d k. ground (arith, f.bits d k, bit_of-clear v.bpb v.alloc_bitmap c d h k);
  count = omega (arith, f.count);
}

-- A round fails with nothing changed, or frees the cluster.
pub free_one_cases :
    (n : ℕ) (v : Volume) (c : ℕ)
    → IsValid n v.bpb
    → ((in_volume v.bpb c ≡ true) × (free_one c v ≡ (ok (entry v c), freed_one c v)))
      ⊎ ((e : VfsError) × (a : ℕ) × (free_one c v ≡ (err e, later a v)))
unfolding free_one
free_one_cases n v c valid = elim (read_cases n v c valid) [
  | inr (e, a, q) ↦ inr (e, a, ground (arith, q))
  | inl (h, q) ↦ elim (write_cases n (tick v) c valid 0) [
    | inr (e, a, r) ↦ inr (e, a, ground (arith, q, r))
    | inl (k, r) ↦ inl (h, ground (arith, q, r, freed_one_is c v h))
  ]
]

pub freed_one-bpb : (c : ℕ) (v : Volume) → (freed_one c v).bpb ≡ v.bpb
unfolding freed_one put put_entry
freed_one-bpb c v = refl

pub freed_one-fails : (c : ℕ) (v : Volume) → (freed_one c v).fails ≡ v.fails
unfolding freed_one put put_entry
freed_one-fails c v = refl

-- Freed clusters keep the bitmap and the table in agreement.
pub Freed-Agrees : (xs : List ℕ) (v w : Volume) → Freed xs v w → Agrees v → Agrees w
Freed-Agrees xs v w f h k c hin =
    let inside = subst (λ b. in_volume b c ≡ true) f.same_bpb hin in
    ground (arith, f.bits c inside, f.entries c, h (sym f.same_kind ∙ k) c inside)
