-- ===== src/Mm/Heap/Alloc.antt =====
-- kernel/src/mm/heap.rs: what the search of the free list answers.
use native.Mathlib.Nat.{div-mul-le_self, mod-lt, div-add-mod', mul-mod_left}
use bedrock_stack.Base.{
  ℕ, ◌+◌, ◌-◌, ◌/◌, ◌%◌, ◌≤◌, ◌<◌, ◌≡◌, refl, sym, ap, ◌∙◌, inl, inr, true, false, ◌||◌, List, [],
  ◌∷◌, Bool-cases, leb, any, All, arith, subst, length,
}
use bedrock_stack.Mm.Heap.{
  Block, is_valid, end_of, Search, found, null, hang, behind, align_down, payload_of, alloc_end_of,
  overflows, take_block, search, header_size, backptr_size, min_block_size,
}
use bedrock_stack.Mm.Heap.Returns.{IsWithin}
use bedrock_stack.Mm.Heap.Push.{
  in_block, is_free, IsSorted, IsApart, IsBlock, IsSorted-weaken, valid_bounds, or_swap,
}

-- A block `b` taken from `list`, with a payload in it of `needed` bytes, and the list that is left.
pub record Taken (align needed low : ℕ) (list : List Block) (payload : ℕ) (b : Block)
    (left : List Block) : Type 0 where
  pub aligned : payload % align ≡ 0
  pub header : b.addr + (header_size + backptr_size) ≤ payload
  pub fits : payload + needed ≤ end_of b
  pub block : IsBlock low b
  pub sorted : IsSorted low left
  pub apart : IsApart b left
  pub bytes : (x : ℕ) → is_free list x ≡ (in_block b x || is_free left x)
  pub inside : (lo : ℕ) → All (IsWithin lo) list → IsWithin lo b × All (IsWithin lo) left
  pub shorter : length left ≤ length list

-- What the search may answer.
abbrev pub Answer : ℕ → ℕ → ℕ → List Block → Search → Type 0
Answer align needed low list (found payload b left) = Taken align needed low list payload b left
Answer align needed low list null = All (λ c. end_of c < alloc_end_of align needed c) list
Answer align needed low list hang = any (overflows align needed) list ≡ true

align_down_bounds :
    (align v : ℕ) → 0 < align → (align_down align v ≤ v) × (v < align_down align v + align)
align_down_bounds align v pos =
    (div-mul-le_self v align, omega (arith, div-add-mod' v align, mod-lt v pos))

payload_bounds :
    (align needed : ℕ) (c : Block)
    → 0 < align
    → (payload_of align c % align ≡ 0) × (c.addr + 24 ≤ payload_of align c)
payload_bounds align needed c pos =
    let b = align_down_bounds align (c.addr + (header_size + backptr_size + align - 1)) pos in
    (
      mul-mod_left ((c.addr + (header_size + backptr_size + align - 1)) / align) align,
      omega (arith, b),
    )

alloc_end_bounds :
    (align needed : ℕ) (c : Block)
    → (payload_of align c + needed ≤ alloc_end_of align needed c)
      × (alloc_end_of align needed c % 8 ≡ 0)
alloc_end_bounds align needed c = (omega arith, omega arith)

IsApart-from :
    (b : Block) (low : ℕ) (list : List Block) → end_of b ≤ low → IsSorted low list → IsApart b list
IsApart-from b low [] le s = tt
IsApart-from b low (c ∷ rest) le (g, ca, cv, s) =
    (inl (omega arith), IsApart-from b (end_of c + 1) rest (omega (arith, valid_bounds c cv)) s)

pub search_hang :
    (align needed : ℕ) (c : Block) (rest : List Block)
    → overflows align needed c ≡ true
    → search align needed (c ∷ rest) ≡ hang
unfolding search
search_hang align needed c rest o = ground (arith, o)

search_fit :
    (align needed : ℕ) (c : Block) (rest : List Block)
    → overflows align needed c ≡ false
    → leb (alloc_end_of align needed c) (end_of c) ≡ true
    → search align needed (c ∷ rest) ≡ take_block align needed c rest
unfolding search
search_fit align needed c rest o t = ground (arith, o, t)

search_skip :
    (align needed : ℕ) (c : Block) (rest : List Block)
    → overflows align needed c ≡ false
    → leb (alloc_end_of align needed c) (end_of c) ≡ false
    → search align needed (c ∷ rest) ≡ behind c (search align needed rest)
unfolding search
search_skip align needed c rest o t = ground (arith, o, t)

-- The two parts of a block cut at `e`.
is_valid_cut :
    (c : Block) (e : ℕ)
    → is_valid c ≡ true
    → c.addr % 8 ≡ 0
    → e % 8 ≡ 0
    → c.addr + 32 ≤ e
    → e + 32 ≤ end_of c
    → (is_valid (record c { size = e - c.addr }) ≡ true)
      × (is_valid (record { addr = e; size = end_of c - e }) ≡ true)
unfolding is_valid
is_valid_cut c e v ca ea l h =
    let b = valid_bounds c v in (ground (arith, b, ca, ea, l, h), ground (arith, b, ca, ea, l, h))

Taken-split :
    (align needed low : ℕ) (c : Block) (rest : List Block)
    → 0 < align
    → 8 ≤ needed
    → IsSorted low (c ∷ rest)
    → alloc_end_of align needed c + min_block_size ≤ end_of c
    → Taken align needed low
        (c ∷ rest)
        (payload_of align c)
        (record c { size = alloc_end_of align needed c - c.addr })
        (record {
          addr = alloc_end_of align needed c;
          size = end_of c - alloc_end_of align needed c;
        }
          ∷ rest)
Taken-split align needed low c rest pos n (g, ca, cv, s) le =
    let p = payload_bounds align needed c pos in
    let q = alloc_end_bounds align needed c in
    let valid =
      is_valid_cut c (alloc_end_of align needed c) cv ca q.1 (omega (arith, p.1, q.0, n)) le in
    let ends : end_of (record {
      addr = alloc_end_of align needed c;
      size = end_of c - alloc_end_of align needed c;
    })
        ≡ end_of c =
      omega (arith, le) in
    record {
      aligned = p.0;
      header = p.1;
      fits = omega (arith, p.1, q.0);
      block = (g, ca, valid.0);
      sorted = (
        omega (arith, p.1, q.0, g),
        q.1,
        valid.1,
        IsSorted-weaken _ _ rest (omega (arith, ends)) s,
      );
      apart = (
        inl (omega (arith, p.1, q.0)),
        IsApart-from _ (end_of c + 1) rest (omega (arith, le, p.1, q.0)) s,
      );
      bytes = λ x. ground (arith, le, p.1, q.0);
      inside = λ lo (w, a).
          ((w.0, omega (arith, w, le)), ((omega (arith, w, p.1, q.0), omega (arith, w, le)), a));
      shorter = omega arith;
    }

Taken-whole :
    (align needed low : ℕ) (c : Block) (rest : List Block)
    → 0 < align
    → IsSorted low (c ∷ rest)
    → alloc_end_of align needed c ≤ end_of c
    → Taken align needed low (c ∷ rest) (payload_of align c) c rest
Taken-whole align needed low c rest pos (g, ca, cv, s) le =
    let p = payload_bounds align needed c pos in
    let q = alloc_end_bounds align needed c in
    record {
      aligned = p.0;
      header = p.1;
      fits = omega (arith, q.0, le);
      block = (g, ca, cv);
      sorted = IsSorted-weaken _ _ rest (omega (arith, g)) s;
      apart = IsApart-from c (end_of c + 1) rest (omega arith) s;
      bytes = λ x. refl;
      inside = λ lo a. a;
      shorter = omega arith;
    }

take_block-Answer :
    (align needed low : ℕ) (c : Block) (rest : List Block)
    → 0 < align
    → 8 ≤ needed
    → IsSorted low (c ∷ rest)
    → alloc_end_of align needed c ≤ end_of c
    → Answer align needed low (c ∷ rest) (take_block align needed c rest)
unfolding take_block
take_block-Answer align needed low c rest pos n s le =
    elim (Bool-cases (leb min_block_size (end_of c - alloc_end_of align needed c))) [
      | inl t ↦
          let cut : take_block align needed c rest
              ≡ found (payload_of align c)
                  (record c { size = alloc_end_of align needed c - c.addr })
                  (record {
                    addr = alloc_end_of align needed c;
                    size = end_of c - alloc_end_of align needed c;
                  }
                    ∷ rest) =
            ground (arith, t) in
          subst (Answer align needed low (c ∷ rest)) (sym cut)
            (Taken-split align needed low c rest pos n s (ground (arith, t, le)))
      | inr t ↦
          let whole : take_block align needed c rest ≡ found (payload_of align c) c rest =
            ground (arith, t) in
          subst (Answer align needed low (c ∷ rest)) (sym whole)
            (Taken-whole align needed low c rest pos s le)
    ]

-- What the search of the rest answers, behind a block that is passed over.
behind-Answer :
    (align needed low : ℕ) (c : Block) (rest : List Block) (answer : Search)
    → IsBlock low c
    → end_of c < alloc_end_of align needed c
    → Answer align needed (end_of c + 1) rest answer
    → Answer align needed low (c ∷ rest) (behind c answer)
behind-Answer align needed low c rest (found payload b left) k lt t = record {
  aligned = t.aligned;
  header = t.header;
  fits = t.fits;
  block = (omega (arith, k, t.block), t.block.1, t.block.2);
  sorted = (k.0, k.1, k.2, t.sorted);
  apart = (inr (omega (arith, t.block)), t.apart);
  bytes = λ x.
      ap (λ o. in_block c x || o) (t.bytes x)
      ∙ or_swap (in_block c x) (in_block b x) (is_free left x);
  inside = λ lo (w, a). ((t.inside lo a).0, (w, (t.inside lo a).1));
  shorter = omega (arith, t.shorter);
}
behind-Answer align needed low c rest null k lt t = (lt, t)
behind-Answer align needed low c rest hang k lt t = ground (arith, t)

pub search-Answer :
    (align needed : ℕ) (list : List Block) (low : ℕ)
    → 0 < align
    → 8 ≤ needed
    → IsSorted low list
    → Answer align needed low list (search align needed list)
unfolding search
search-Answer align needed [] low pos n s = tt
search-Answer align needed (c ∷ rest) low pos n (g, ca, cv, s) =
    elim (Bool-cases (overflows align needed c)) [
      | inl o ↦
          subst (Answer align needed low (c ∷ rest)) (sym (search_hang align needed c rest o))
            (ground (arith, o))
      | inr o ↦ elim (Bool-cases (leb (alloc_end_of align needed c) (end_of c))) [
        | inl t ↦
            subst (Answer align needed low (c ∷ rest)) (sym (search_fit align needed c rest o t))
              (take_block-Answer align needed low c rest pos n (g, ca, cv, s) (ground (arith, t)))
        | inr t ↦
            subst (Answer align needed low (c ∷ rest)) (sym (search_skip align needed c rest o t)) (
              behind-Answer align needed low c rest (search align needed rest) (g, ca, cv)
                (ground (arith, t)) (search-Answer align needed rest (end_of c + 1) pos n s))
      ]
    ]
