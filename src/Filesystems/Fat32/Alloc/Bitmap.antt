-- ===== src/Filesystems/Fat32/Alloc/Bitmap.antt =====
-- kernel/src/filesystems/fstypes/fat32/alloc.rs: the candidates that the bitmap gives.
use bedrock_stack.Base.{
  ℕ, zero, suc, ◌+◌, ◌-◌, ◌%◌, ◌≤◌, ◌<◌, ◌≡◌, ◌≢◌, refl, sym, ap, inl, inr, true, false, List, [],
  ◌∷◌, Bool-cases, ◌==◌, length, mem, IsDistinct, All, arith, if◌then◌else◌, subst,
}
use bedrock_stack.Filesystems.Fat32.Table.{set_bit}
use bedrock_stack.Filesystems.Fat32.Alloc.{Bits, gather}
use native.Mathlib.Nat.{mod-lt}

-- Clusters of a list were free and are marked, and no other bit differs.
pub record Took (total : ℕ) (cs : List ℕ) (bits bits' : Bits) : Type 0 where
  pub distinct : IsDistinct cs
  pub fresh : All (λ c. (2 ≤ c) × (c < 2 + total) × (bits (c - 2) ≡ false)) cs
  pub marks : (i : ℕ) → bits' i ≡ (if mem (2 + i) cs then true else bits i)

pub Took-none : (total : ℕ) (bits : Bits) → Took total [] bits bits
Took-none total bits = record { distinct = tt; fresh = tt; marks = λ i. refl }

-- What is free after a bit was set was free before, and is another cluster.
fresh_before :
    (total i : ℕ) (cs : List ℕ) (bits : Bits)
    → All (λ c. (2 ≤ c) × (c < 2 + total) × (set_bit true i bits (c - 2) ≡ false)) cs
    → All (λ c. (2 ≤ c) × (c < 2 + total) × (bits (c - 2) ≡ false)) cs × (mem (2 + i) cs ≡ false)
fresh_before total i [] bits h = (tt, refl)
fresh_before total i (c ∷ cs) bits h =
    let (rest, m) = fresh_before total i cs bits h.1 in
    (((h.0.0, h.0.1, ground (arith, h.0)), rest), ground (arith, h.0, m))

pub Took-cons :
    (total i : ℕ) (cs : List ℕ) (bits bits' : Bits)
    → i < total
    → bits i ≡ false
    → Took total cs (set_bit true i bits) bits'
    → Took total ((2 + i) ∷ cs) bits bits'
Took-cons total i cs bits bits' lt h t =
    let (rest, m) = fresh_before total i cs bits t.fresh in
    let two : 2 + i - 2 ≡ i = omega arith in
    record {
      distinct = (m, t.distinct);
      fresh = ((omega arith, omega arith, rw two h), rest);
      marks = λ j. ground (arith, t.marks j);
    }

-- A round on a bit that is set, and on one that is not.
module _ (total start want off n : ℕ) (bits : Bits) where
  gather_skips :
      bits ((start + off) % total) ≡ true
      → gather total start (suc want) off (suc n) bits
        ≡ gather total start (suc want) (off + 1) n bits
  unfolding gather
  gather_skips e = rw (e, gather) refl

  gather_takes :
      bits ((start + off) % total) ≡ false
      → gather total start (suc want) off (suc n) bits ≡ (
        (2 + (start + off) % total)
            ∷ (gather total start want (off + 1) n (set_bit true ((start + off) % total) bits)).0,
        (gather total start want (off + 1) n (set_bit true ((start + off) % total) bits)).1,
      )
  unfolding gather
  gather_takes e = rw (e, gather) refl

pub gather-Took :
    (total start want off n : ℕ) (bits : Bits)
    → 1 ≤ total
    → Took total (gather total start want off n bits).0 bits (gather total start want off n bits).1
      × (length (gather total start want off n bits).0 ≤ want)
unfolding gather
gather-Took total start want off zero bits pos = (Took-none total bits, omega arith)
gather-Took total start zero off (suc n) bits pos = (Took-none total bits, omega arith)
gather-Took total start (suc want) off (suc n) bits pos =
    let i = (start + off) % total in
    elim (Bool-cases (bits i)) [
      | inl e ↦
          rw (gather_skips total start want off n bits e)
            (gather-Took total start (suc want) (off + 1) n bits pos)
      | inr e ↦
          let (t, le) = gather-Took total start want (off + 1) n (set_bit true i bits) pos in
          rw (gather_takes total start want off n bits e)
            (Took-cons total i _ bits _ (mod-lt (start + off) pos) e t, omega (arith, le))
    ]

-- Every free bit that the loop looks at is taken, while fewer than wanted are.
pub gather_all :
    (total start want off n k : ℕ) (bits : Bits)
    → length (gather total start want off n bits).0 < want
    → off ≤ k
    → k < off + n
    → bits ((start + k) % total) ≡ false
    → mem (2 + (start + k) % total) (gather total start want off n bits).0 ≡ true
unfolding gather
gather_all total start want off zero k bits lt le hi h = absurd (omega arith)
gather_all total start zero off (suc n) k bits lt le hi h = absurd (omega arith)
gather_all total start (suc want) off (suc n) k bits lt le hi h =
    let i = (start + off) % total in
    let j = (start + k) % total in
    elim (Bool-cases (bits i)) [
      | inl e ↦
          let eq = gather_skips total start want off n bits e in
          let later : off ≢ k =
            λ q. ground (arith, e, subst (λ z. bits ((start + z) % total) ≡ false) (sym q) h) in
          let small = subst (λ r. length r.0 < suc want) eq lt in
          rw eq (
            gather_all total start (suc want) (off + 1) n k bits small (omega (arith, later))
              (omega arith) h)
      | inr e ↦
          let eq = gather_takes total start want off n bits e in
          let small = subst (λ r. length r.0 < suc want) eq lt in
          rw eq (elim (Bool-cases (2 + i == 2 + j)) [
            | inl m ↦ ground (arith, m)
            | inr m ↦
                let later : off ≢ k = λ q. ground (arith, m, ap (λ z. (start + z) % total) q) in
                let unset : set_bit true i bits j ≡ false = ground (arith, h, m) in
                let rest =
                  gather_all total start want (off + 1) n k (set_bit true i bits)
                    (omega (arith, small)) (omega (arith, later)) (omega arith) unset in
                ground (arith, rest)
          ])
    ]
