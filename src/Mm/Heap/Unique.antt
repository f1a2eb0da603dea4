-- ===== src/Mm/Heap/Unique.antt =====
-- kernel/src/mm/heap.rs: a sorted free list is determined by its free bytes.
use bedrock_stack.Base.{
  ℕ, ◌+◌, ◌≤◌, ◌<◌, ◌≡◌, refl, sym, ◌∙◌, inl, inr, true, false, List, [], ◌∷◌, Bool-cases, ltb, leb,
  arith, subst,
}
use bedrock_stack.Mm.Heap.{Block, end_of}
use bedrock_stack.Mm.Heap.Push.{is_free, IsSorted, valid_bounds}

below_low : (list : List Block) (low x : ℕ) → IsSorted low list → x < low → is_free list x ≡ false
below_low [] low x s h = refl
below_low (c ∷ rest) low x (g, ca, cv, s) h =
    let r = below_low rest (end_of c + 1) x s (omega arith) in ground (arith, r, g, h)

-- The bytes of the first block are free, the one behind it is not.
head_bytes :
    (c : Block) (rest : List Block) (low : ℕ)
    → IsSorted low (c ∷ rest)
    → (is_free (c ∷ rest) c.addr ≡ true) × (is_free (c ∷ rest) (end_of c) ≡ false)
head_bytes c rest low (g, ca, cv, s) =
    let v = valid_bounds c cv in
    let r = below_low rest (end_of c + 1) (end_of c) s (omega arith) in
    (ground (arith, v), ground (arith, r))

-- No start of a list comes before that of another with the same bytes.
head_le :
    (b c : Block) (l m : List Block) (low : ℕ)
    → IsSorted low (b ∷ l)
    → IsSorted low (c ∷ m)
    → ((x : ℕ) → is_free (b ∷ l) x ≡ is_free (c ∷ m) x)
    → c.addr ≤ b.addr
head_le b c l m low s t same =
    let f = sym (head_bytes b l low s).0 ∙ same b.addr in
    elim (Bool-cases (leb c.addr b.addr)) [
      | inl o ↦ ground (arith, o)
      | inr o ↦
          let n =
            below_low (c ∷ m) c.addr b.addr (omega arith, t.1, t.2, t.3) (ground (arith, o)) in
          let no : true ≡ false = f ∙ n in ground (arith, no)
    ]

end_le :
    (b c : Block) (l m : List Block) (low : ℕ)
    → IsSorted low (b ∷ l)
    → IsSorted low (c ∷ m)
    → b.addr ≡ c.addr
    → ((x : ℕ) → is_free (b ∷ l) x ≡ is_free (c ∷ m) x)
    → end_of c ≤ end_of b
end_le b c l m low s t e same =
    let f : is_free (c ∷ m) (end_of b) ≡ false = sym (same (end_of b)) ∙ (head_bytes b l low s).1 in
    elim (Bool-cases (leb (end_of c) (end_of b))) [
      | inl o ↦ ground (arith, o)
      | inr o ↦ ground (arith, f, e, o)
    ]

rest_same :
    (b : Block) (l m : List Block) (low : ℕ)
    → IsSorted low (b ∷ l)
    → IsSorted low (b ∷ m)
    → ((x : ℕ) → is_free (b ∷ l) x ≡ is_free (b ∷ m) x)
    → (x : ℕ) → is_free l x ≡ is_free m x
rest_same b l m low s t same x = elim (Bool-cases (ltb x (end_of b))) [
  | inl o ↦
      below_low l (end_of b + 1) x s.3 (ground (arith, o))
      ∙ sym (below_low m (end_of b + 1) x t.3 (ground (arith, o)))
  | inr o ↦ let e = same x in ground (arith, o, e)
]

Block_ext : (b c : Block) → b.addr ≡ c.addr → b.size ≡ c.size → b ≡ c
Block_ext b c e f = λ i. record { addr = e i; size = f i }

-- Two sorted lists with the same free bytes are one.
pub sorted_unique :
    (l m : List Block) (low : ℕ)
    → IsSorted low l
    → IsSorted low m
    → ((x : ℕ) → is_free l x ≡ is_free m x)
    → l ≡ m
sorted_unique [] [] low s t same = refl
sorted_unique [] (c ∷ m) low s t same =
    let no = same c.addr ∙ (head_bytes c m low t).0 in ground (arith, no)
sorted_unique (b ∷ l) [] low s t same =
    let no = sym (same b.addr) ∙ (head_bytes b l low s).0 in ground (arith, no)
sorted_unique (b ∷ l) (c ∷ m) low s t same =
    let back : (x : ℕ) → is_free (c ∷ m) x ≡ is_free (b ∷ l) x = λ x. sym (same x) in
    let start : b.addr ≡ c.addr =
      omega (arith, head_le b c l m low s t same, head_le c b m l low t s back) in
    let size : b.size ≡ c.size =
      omega (
        arith,
        start,
        end_le b c l m low s t start same,
        end_le c b m l low t s (sym start) back,
      ) in
    let block : b ≡ c = Block_ext b c start size in
    let s' = subst (λ d. IsSorted low (d ∷ l)) block s in
    let same' = subst (λ d. (x : ℕ) → is_free (d ∷ l) x ≡ is_free (c ∷ m) x) block same in
    let rest = sorted_unique l m (end_of c + 1) s'.3 t.3 (rest_same c l m low s' t same') in
    λ i. block i ∷ rest i
