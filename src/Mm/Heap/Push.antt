-- ===== src/Mm/Heap/Push.antt =====
-- kernel/src/mm/heap.rs: the sorted free lists, and how `push_free` joins a block with its neighbours.
use bedrock_stack.Base.{
  ℕ, ◌+◌, ◌%◌, ◌^◌, ◌≤◌, ◌<◌, ◌≡◌, refl, sym, ap, ◌∙◌, ◌⊎◌, inl, inr, Bool, true, ◌&&◌, ◌||◌, some,
  List, [], ◌∷◌, Bool-cases, ltb, leb, ◌==◌, any, All, arith, subst,
}
use bedrock_stack.Mm.Heap.{Block, is_valid, end_of, join_next, place, join_prev, max_block_size}

abbrev pub in_block : Block → ℕ → Bool
in_block b x = leb b.addr x && ltb x (end_of b)

-- The byte is free.
abbrev pub is_free : List Block → ℕ → Bool
is_free list x = any (λ b. in_block b x) list

-- Valid blocks from `low` on in ascending order, with a gap between each and the next.
abbrev pub IsSorted : ℕ → List Block → Type 0
IsSorted low [] = Unit
IsSorted low (b ∷ rest) =
    (low ≤ b.addr) × (b.addr % 8 ≡ 0) × (is_valid b ≡ true) × IsSorted (end_of b + 1) rest

-- The block and one of the list have no byte in common.
abbrev pub IsApart : Block → List Block → Type 0
IsApart block list = All (λ b. (end_of block ≤ b.addr) ⊎ (end_of b ≤ block.addr)) list

pub valid_bounds :
    (b : Block)
    → is_valid b ≡ true
    → (32 ≤ b.size) × (b.size % 8 ≡ 0) × (b.addr + b.size < 2 ^ 64) × (b.size ≤ max_block_size)
unfolding is_valid
valid_bounds b h = ground (arith, h)

-- Two blocks of which the second follows the first immediately.
is_valid_joined :
    (b c : Block)
    → is_valid b ≡ true
    → is_valid c ≡ true
    → end_of b ≡ c.addr
    → b.size + c.size ≤ max_block_size
    → is_valid (record b { size = b.size + c.size }) ≡ true
unfolding is_valid
is_valid_joined b c h k e le = ground (arith, h, k, e, le)

-- What `place` gives: the block, at its address, with all its bytes and those of the list.
pub record Placed (block : Block) (list : List Block) (out : Block × List Block) : Type 0 where
  pub valid : is_valid out.0 ≡ true
  pub start : out.0.addr ≡ block.addr
  pub rest : IsSorted (end_of out.0 + 1) out.1
  pub bytes : (x : ℕ) → (in_block out.0 x || is_free out.1 x) ≡ (in_block block x || is_free list x)

in_block_joined :
    (b : Block) (size x : ℕ)
    → in_block (record b { size = b.size + size }) x
      ≡ (in_block b x || (leb (end_of b) x && ltb x (end_of b + size)))
in_block_joined b size x = ground (arith)

pub IsSorted-weaken :
    (low low' : ℕ) (list : List Block) → low' ≤ low → IsSorted low list → IsSorted low' list
IsSorted-weaken low low' [] le s = s
IsSorted-weaken low low' (c ∷ rest) le (h, a, v, s) = (omega arith, a, v, s)

pub some_injective : {A : Type 0} {a b : A} → some a ≡ some b → a ≡ b
some_injective e = ground (arith, e)

pub or_swap : (a b c : Bool) → (a || (b || c)) ≡ (b || (a || c))
or_swap a b c = ground (arith)

join_next_touch :
    (block c : Block) (rest : List Block) (out : Block × List Block)
    → end_of block ≡ c.addr
    → join_next block (c ∷ rest) ≡ some out
    → (block.size + c.size ≤ max_block_size)
      × (out ≡ (record block { size = block.size + c.size }, rest))
unfolding join_next
join_next_touch block c rest out h e = ground (arith, h, e)

join_next_gap :
    (block c : Block) (rest : List Block)
    → end_of block < c.addr
    → join_next block (c ∷ rest) ≡ some (block, c ∷ rest)
unfolding join_next
join_next_gap block c rest h = ground (arith, h)

place_valid :
    (block c : Block) (rest : List Block)
    → is_valid c ≡ true
    → place block (c ∷ rest) ≡ join_next block (c ∷ rest)
unfolding place
place_valid block c rest h = ground (arith, h)

Placed-touch :
    (block c : Block) (rest : List Block)
    → is_valid block ≡ true
    → end_of block ≡ c.addr
    → IsSorted c.addr (c ∷ rest)
    → block.size + c.size ≤ max_block_size
    → Placed block (c ∷ rest) (record block { size = block.size + c.size }, rest)
Placed-touch block c rest h e (_, a, v, s) le = record {
  valid = is_valid_joined block c h v e le;
  start = refl;
  rest = IsSorted-weaken _ _ rest (omega (arith, e)) s;
  bytes = λ x. ground (arith, e);
}

Placed-gap :
    (block c : Block) (rest : List Block)
    → is_valid block ≡ true
    → end_of block < c.addr
    → IsSorted c.addr (c ∷ rest)
    → Placed block (c ∷ rest) (block, c ∷ rest)
Placed-gap block c rest h lt (_, a, v, s) = record {
  valid = h;
  start = refl;
  rest = (omega arith, a, v, s);
  bytes = λ x. refl;
}

pub place-Placed :
    (block : Block) (low : ℕ) (list : List Block) (out : Block × List Block)
    → is_valid block ≡ true
    → end_of block ≤ low
    → IsSorted low list
    → place block list ≡ some out
    → Placed block list out
unfolding place join_next
place-Placed block low [] out h le s e =
    subst (Placed block []) (some_injective e)
      (record { valid = h; start = refl; rest = tt; bytes = λ x. refl })
place-Placed block low (c ∷ rest) out h le (b, a, v, s) e =
    let joined = sym (place_valid block c rest v) ∙ e in
    elim (Bool-cases (end_of block == c.addr)) [
      | inl t ↦
          let touch = join_next_touch block c rest out (ground (arith, t)) joined in
          subst (Placed block (c ∷ rest)) (sym touch.1)
            (Placed-touch block c rest h (ground (arith, t)) (omega arith, a, v, s) touch.0)
      | inr t ↦
          let lt : end_of block < c.addr = ground (arith, t, le, b) in
          subst (Placed block (c ∷ rest))
            (some_injective (sym (join_next_gap block c rest lt) ∙ joined))
            (Placed-gap block c rest h lt (omega arith, a, v, s))
    ]

join_prev_touch :
    (prev b : Block) (rest l : List Block)
    → end_of prev ≡ b.addr
    → join_prev prev (some (b, rest)) ≡ some l
    → (prev.size + b.size ≤ max_block_size) × (l ≡ record prev { size = prev.size + b.size } ∷ rest)
unfolding join_prev
join_prev_touch prev b rest l h e = ground (arith, h, e)

join_prev_gap :
    (prev b : Block) (rest : List Block)
    → end_of prev < b.addr
    → join_prev prev (some (b, rest)) ≡ some (prev ∷ b ∷ rest)
unfolding join_prev
join_prev_gap prev b rest h = ground (arith, h)

-- The list is sorted, and its free bytes are those the test names.
abbrev pub Lists : ℕ → (ℕ → Bool) → List Block → Type 0
Lists low test l = IsSorted low l × ((x : ℕ) → is_free l x ≡ test x)

-- `low` is a bound of the block's address, which is aligned.
abbrev pub IsBlock : ℕ → Block → Type 0
IsBlock low b = (low ≤ b.addr) × (b.addr % 8 ≡ 0) × (is_valid b ≡ true)

pub join_prev-Lists :
    (low : ℕ) (prev block b : Block) (list rest l : List Block)
    → IsBlock low prev
    → IsBlock (end_of prev) block
    → Placed block list (b, rest)
    → join_prev prev (some (b, rest)) ≡ some l
    → Lists low (λ x. in_block prev x || (in_block block x || is_free list x)) l
join_prev-Lists low prev block b list rest l (p, pa, pv) (k, ka, kv) placed e =
    let start : b.addr ≡ block.addr = placed.start in
    elim (Bool-cases (end_of prev == b.addr)) [
      | inl t ↦
          let meet : end_of prev ≡ b.addr = ground (arith, t) in
          let touch = join_prev_touch prev b rest l meet e in
          subst (Lists low _) (sym touch.1) (
            (
              p,
              pa,
              is_valid_joined prev b pv placed.valid meet touch.0,
              IsSorted-weaken _ _ rest (omega (arith, meet)) placed.rest,
            ),
            λ x. rw (sym (placed.bytes x)) (ground (arith, meet)),
          )
      | inr t ↦
          let lt : end_of prev < b.addr = ground (arith, t, start, k) in
          let same : prev ∷ b ∷ rest ≡ l =
            some_injective (sym (join_prev_gap prev b rest lt) ∙ e) in
          subst (Lists low _) same (
            (
              p,
              pa,
              pv,
              (omega (arith, lt), subst (λ a. a % 8 ≡ 0) (sym start) ka, placed.valid, placed.rest),
            ),
            λ x. ap (λ t. in_block prev x || t) (placed.bytes x),
          )
    ]
