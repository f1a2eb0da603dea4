-- ===== src/Unispace/Path/Components.antt =====
-- What the parser of kernel/src/unispace/path.rs lets through.
use bedrock_stack.Base.{
  ℕ, ◌+◌, ◌≡◌, ◌≢◌, inl, inr, false, not, Option, none, some, List, [], ◌∷◌, ◌++◌, arith, Str,
  split, contains, filter, any, All, is_empty, take, drop, IsPiece, Result, ok, Bool-cases,
  Result-cases, Option-cases, All-split, All-append, contains-take, contains-drop, All-of_any-false,
}
use bedrock_stack.Unispace.{UnispaceError}
use bedrock_stack.Unispace.Path.{
  slash, colon, segments, pop_last, split_method, split_at, find, bad_component, checked,
  parse_segments, parse, strip_slash, ParsedPath,
}

-- A component of the namespace: a piece between slashes that is not `.` or `..` and holds no `:`.
abbrev pub IsComponent : Str → Type 0
IsComponent w = IsPiece slash w × (bad_component w ≡ false)

-- A method selector: not empty, and without a slash.
abbrev pub IsSelector : Option Str → Type 0
IsSelector none = Unit
IsSelector (some m) = IsPiece slash m

is_empty-false : (w : Str) → is_empty w ≡ false → w ≢ []
is_empty-false [] h = λ e. cc
is_empty-false (x ∷ w) h = λ e. cc

filter-pieces :
    (ws : List Str)
    → All (λ w. contains slash w ≡ false) ws
    → All (IsPiece slash) (filter (λ w. not (is_empty w)) ws)
filter-pieces [] a = tt
filter-pieces ([] ∷ ws) a = filter-pieces ws a.1
filter-pieces ((x ∷ w) ∷ ws) a = (((λ e. cc), a.0), filter-pieces ws a.1)

pub segments-pieces : (s : Str) → All (IsPiece slash) (segments s)
unfolding segments
segments-pieces s = filter-pieces (split slash s) (All-split slash s)

pop_last-pieces :
    (w : Str) (ws : List Str)
    → IsPiece slash w
    → All (IsPiece slash) ws
    → All (IsPiece slash) (pop_last w ws).0 × IsPiece slash (pop_last w ws).1
unfolding pop_last
pop_last-pieces w [] h a = (tt, h)
pop_last-pieces w (v ∷ ws) h a = let r = pop_last-pieces v ws a.0 a.1 in ((h, r.0), r.1)

split_at-pieces :
    (w name : Str) (pos : ℕ) (m : Option Str)
    → IsPiece slash w
    → split_at w pos ≡ ok (name, m)
    → IsPiece slash name × IsSelector m
unfolding split_at
split_at-pieces w name pos m h e = elim (Bool-cases (is_empty (take pos w))) [
  | inl z ↦ absurd (ground arith)
  | inr n ↦ elim (Bool-cases (is_empty (drop (pos + 1) w))) [
    | inl z ↦ absurd (ground arith)
    | inr d ↦
        let en : take pos w ≡ name = ground arith in
        let em : some (drop (pos + 1) w) ≡ m = ground arith in
        rw (← en, ← em)
          (
            (is_empty-false _ n, contains-take slash pos w h.1),
            (is_empty-false _ d, contains-drop slash (pos + 1) w h.1),
          )
  ]
]

-- The parts into which a piece is split are pieces.
split_method-pieces :
    (w name : Str) (m : Option Str)
    → IsPiece slash w
    → split_method w ≡ ok (name, m)
    → IsPiece slash name × IsSelector m
unfolding split_method
split_method-pieces w name m h e = elim (Option-cases (find colon w)) [
  | inl q ↦
      let e' : ◌≡◌ {A = Result UnispaceError (Str × Option Str)} (ok (w, none)) (ok (name, m)) =
        rw (q, split_method) at e in
      let en : w ≡ name = ground arith in
      let em : none ≡ m = ground arith in rw (← en, ← em) (h, tt)
  | inr (pos, q) ↦ split_at-pieces w name pos m h (rw (q, split_method) at e)
]

zip_components :
    (ws : List Str)
    → All (IsPiece slash) ws
    → All (λ w. bad_component w ≡ false) ws
    → All IsComponent ws
zip_components [] a b = tt
zip_components (w ∷ ws) a b = ((a.0, b.0), zip_components ws a.1 b.1)

checked-components :
    (raw : List Str) (m : Option Str) (p : ParsedPath)
    → All (IsPiece slash) raw
    → IsSelector m
    → checked raw m ≡ ok p
    → All IsComponent p.components × IsSelector p.method
unfolding checked
checked-components raw m p a s e = elim (Bool-cases (any bad_component raw)) [
  | inl bad ↦ absurd (ground arith)
  | inr fine ↦
      let ep : record { components = raw; method = m } ≡ p = ground arith in
      rw (← ep) (zip_components raw a (All-of_any-false bad_component raw fine), s)
]

parse_segments-components :
    (ws : List Str) (p : ParsedPath)
    → All (IsPiece slash) ws
    → parse_segments ws ≡ ok p
    → All IsComponent p.components × IsSelector p.method
unfolding parse_segments
parse_segments-components [] p a e =
    let ep : record { components = []; method = none } ≡ p = ground arith in rw (← ep) (tt, tt)
parse_segments-components (w ∷ ws) p a e =
    let r = pop_last-pieces w ws a.0 a.1 in
    elim (Result-cases (split_method (pop_last w ws).1)) [
      | inl ((name, m), q) ↦
          let s = split_method-pieces (pop_last w ws).1 name m r.1 q in
          checked-components ((pop_last w ws).0 ++ (name ∷ [])) m p
            (All-append (IsPiece slash) _ (name ∷ []) r.0 (s.0, tt)) s.1
            (rw (q, parse_segments) at e)
      | inr (x, q) ↦ absurd (ground arith)
    ]

-- Whatever text is parsed, an accepted path has only components that are not empty, hold neither `/`
-- nor `:` and are not `.` or `..`, and its selector, if any, is not empty and holds no `/`.
pub parse-components :
    (path : Str) (p : ParsedPath)
    → parse path ≡ ok p
    → All IsComponent p.components × IsSelector p.method
unfolding parse
parse-components path p e =
    parse_segments-components (segments (strip_slash path)) p (segments-pieces _) e
