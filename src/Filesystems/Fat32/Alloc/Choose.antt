-- ===== src/Filesystems/Fat32/Alloc/Choose.antt =====
-- kernel/src/filesystems/fstypes/fat32/alloc.rs: the choice of candidates, in a window or one by one.
use bedrock_stack.Base.{
  ℕ, ◌+◌, ◌-◌, ◌%◌, ◌≤◌, ◌<◌, ◌≡◌, refl, sym, ap, ◌∙◌, ◌⊎◌, inl, inr, true, false, Option, none,
  some, List, [], ◌∷◌, Bool-cases, Option-cases, ltb, leb, ◌==◌, length, mem, All, ok, err, arith,
  if◌then◌else◌, subst,
}
use bedrock_stack.Unispace.{no_space}
use bedrock_stack.Filesystems.Fat32.Table.{set_bit}
use bedrock_stack.Filesystems.Fat32.Alloc.{Bits, find_window, gather, clear_all, choose}
use bedrock_stack.Filesystems.Fat32.Alloc.Bitmap.{Took, gather-Took, gather_all}
use native.Mathlib.Nat.{mod-lt, mod-eq_of_lt}
use bedrock_stack.Filesystems.Fat32.Alloc.Window.{mod_wrap, find_window-Took}

clear_all_is :
    (total : ℕ) (cs : List ℕ) (bits bits' : Bits) (i : ℕ)
    → All (λ c. (2 ≤ c) × (c < 2 + total) × (bits (c - 2) ≡ false)) cs
    → clear_all cs bits' i ≡ (if mem (2 + i) cs then false else bits' i)
unfolding clear_all
clear_all_is total [] bits bits' i h = refl
clear_all_is total (c ∷ cs) bits bits' i h =
    ground (arith, h.0, clear_all_is total cs bits (set_bit false (c - 2) bits') i h.1)

fresh_bit :
    (total : ℕ) (cs : List ℕ) (bits : Bits) (i : ℕ)
    → All (λ c. (2 ≤ c) × (c < 2 + total) × (bits (c - 2) ≡ false)) cs
    → mem (2 + i) cs ≡ true
    → bits i ≡ false
fresh_bit total [] bits i h m = absurd (ground (arith, m))
fresh_bit total (c ∷ cs) bits i h m = elim (Bool-cases (c == 2 + i)) [
  | inl e ↦ let eq : c - 2 ≡ i = ground (arith, e) in subst (λ z. bits z ≡ false) eq h.0.2
  | inr e ↦ fresh_bit total cs bits i h.1 (ground (arith, m, e))
]

-- Clusters that are given back leave the bits as they were.
pub clear_all-Took :
    (total : ℕ) (cs : List ℕ) (bits bits' : Bits) (i : ℕ)
    → Took total cs bits bits'
    → clear_all cs bits' i ≡ bits i
clear_all-Took total cs bits bits' i t = elim (Bool-cases (mem (2 + i) cs)) [
  | inl e ↦
      ground
        (arith, clear_all_is total cs bits bits' i t.fresh, e, fresh_bit total cs bits i t.fresh e)
  | inr e ↦ ground (arith, clear_all_is total cs bits bits' i t.fresh, e, t.marks i)
]

-- Every index is reached from any start.
rotation :
    (total start i : ℕ)
    → start < total
    → i < total
    → (k : ℕ) × (k < total) × ((start + k) % total ≡ i)
rotation total start i hs hi = elim (Bool-cases (leb start i)) [
  | inl e ↦
      let le : start ≤ i = ground (arith, e) in
      let sum : start + (i - start) ≡ i = omega arith in
      (i - start, omega arith, ap (λ x. x % total) sum ∙ mod-eq_of_lt hi)
  | inr e ↦
      let lt : i < start = ground (arith, e) in
      let sum : start + (i + total - start) ≡ i + total = omega arith in
      (
        i + total - start,
        omega arith,
        ap (λ x. x % total) sum ∙ ground (arith, mod_wrap (i + total) total (omega arith)),
      )
]

-- The window, where the search looks for one.
searched : ℕ → ℕ → ℕ → Bits → Option (List ℕ × Bits)
searched total count hint bits =
    if leb count total then find_window bits total count ((hint - 2) % total) 0 total else none

searched-Took :
    (total count hint : ℕ) (bits bits' : Bits) (cs : List ℕ)
    → 1 ≤ total
    → searched total count hint bits ≡ some (cs, bits')
    → Took total cs bits bits' × (length cs ≡ count)
unfolding searched
searched-Took total count hint bits bits' cs pos h = elim (Bool-cases (leb count total)) [
  | inl e ↦
      find_window-Took bits bits' total count ((hint - 2) % total) 0 total cs pos
        (ground (arith, e)) (ground (arith, e, h))
  | inr e ↦ absurd (ground (arith, e, h))
]

choose_window :
    (total count hint : ℕ) (bits bits' : Bits) (cs : List ℕ)
    → searched total count hint bits ≡ some (cs, bits')
    → length cs ≡ count
    → choose total count hint bits ≡ (ok cs, bits')
unfolding choose searched
choose_window total count hint bits bits' cs h k = ground (arith, h, k)

choose-gather :
    (total count hint : ℕ) (bits : Bits)
    → searched total count hint bits ≡ none
    → choose total count hint bits ≡ (
        if ltb (length (gather total ((hint - 2) % total) count 0 total bits).0) count
        then (
          err no_space,
          clear_all
              (gather total ((hint - 2) % total) count 0 total bits).0
              (gather total ((hint - 2) % total) count 0 total bits).1,
        )
        else (
          ok (gather total ((hint - 2) % total) count 0 total bits).0,
          (gather total ((hint - 2) % total) count 0 total bits).1,
        ))
unfolding choose searched
choose-gather total count hint bits h = ground (arith, h)

gathered : ℕ → ℕ → ℕ → Bits → List ℕ × Bits
gathered total count hint bits = gather total ((hint - 2) % total) count 0 total bits

gathered_all :
    (total count hint c : ℕ) (bits : Bits)
    → 1 ≤ total
    → length (gathered total count hint bits).0 < count
    → 2 ≤ c
    → c < 2 + total
    → bits (c - 2) ≡ false
    → mem c (gathered total count hint bits).0 ≡ true
unfolding gathered
gathered_all total count hint c bits pos lt le hi h =
    let start = (hint - 2) % total in
    let (k, lk, e) = rotation total start (c - 2) (mod-lt (hint - 2) pos) (omega arith) in
    let m =
      gather_all total start count 0 total k bits lt (omega arith) (omega arith)
        (subst (λ z. bits z ≡ false) (sym e) h) in
    let eq : 2 + (start + k) % total ≡ c = omega (arith, e) in
    subst (λ z. mem z (gather total start count 0 total bits).0 ≡ true) eq m

-- Fewer clusters than wanted are free: all of them stand in a shorter list.
pub record IsFull (total count : ℕ) (bits : Bits) : Type 0 where
  pub free : List ℕ
  pub few : length free < count
  pub all_free : (c : ℕ) → 2 ≤ c → c < 2 + total → bits (c - 2) ≡ false → mem c free ≡ true

-- The choice: as many free clusters as wanted, marked, or none for want of space.
pub choose_cases :
    (total count hint : ℕ) (bits : Bits)
    → 1 ≤ total
    → ((cs : List ℕ) × (bits' : Bits) × (choose total count hint bits ≡ (ok cs, bits'))
        × Took total cs bits bits'
        × (length cs ≡ count))
      ⊎ ((bits' : Bits) × (choose total count hint bits ≡ (err no_space, bits'))
          × ((i : ℕ) → bits' i ≡ bits i)
          × IsFull total count bits)
unfolding gathered
choose_cases total count hint bits pos = elim (Option-cases (searched total count hint bits)) [
  | inr ((cs, bits'), e) ↦
      let (t, len) = searched-Took total count hint bits bits' cs pos e in
      inl (cs, bits', choose_window total count hint bits bits' cs e len, t, len)
  | inl e ↦
      let g = gathered total count hint bits in
      let (t, le) = gather-Took total ((hint - 2) % total) count 0 total bits pos in
      elim (Bool-cases (ltb (length g.0) count)) [
        | inl small ↦ inr (
          clear_all g.0 g.1,
          choose-gather total count hint bits e ∙ ground (arith, small),
          (λ i. clear_all-Took total g.0 bits g.1 i t),
          record {
            free = g.0;
            few = ground (arith, small);
            all_free = λ c lo hi h.
                gathered_all total count hint c bits pos (ground (arith, small)) lo hi h;
          },
        )
        | inr enough ↦ inl (
          g.0,
          g.1,
          choose-gather total count hint bits e ∙ ground (arith, enough),
          t,
          ground (arith, enough, le),
        )
      ]
]
