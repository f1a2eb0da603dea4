-- ===== src/Unispace/Path.antt =====
-- kernel/src/unispace/path.rs: the parser of namespace paths, and what it accepts.
use bedrock_stack.Base.{
  ℕ, zero, suc, ◌+◌, ◌≡◌, refl, ap, ◌∙◌, ◌≢◌, ◌↔◌, ◌⊎◌, inl, inr, Bool, true, false, not, ◌&&◌,
  ◌||◌, Option, none, some, List, [], ◌∷◌, ◌++◌, arith, Str, str_eq, split, join, contains, filter,
  any, All, Any, is_empty, if◌then◌else◌, ◌==◌, take, drop, IsPiece, Result, ok, err, Bool-cases,
  ==_iff, Result-cases, Option-cases,
}
pub mod Components
pub mod Roundtrip
mod Tests
use bedrock_stack.Unispace.{UnispaceError, invalid_path}

abbrev pub slash : ℕ
slash = b'/'

abbrev pub colon : ℕ
colon = b':'

abbrev pub dot : Str
dot = b'.' ∷ []

abbrev pub dot_dot : Str
dot_dot = b'.' ∷ b'.' ∷ []

pub record ParsedPath : Type 0 where
  pub components : List Str
  pub method : Option Str

-- `path.strip_prefix('/').unwrap_or(path)`
strip_slash : Str → Str
strip_slash [] = []
strip_slash (c ∷ s) = if c == slash then s else c ∷ s

-- The non-empty pieces between slashes.
unfoldable pub segments : Str → List Str
segments s = filter (λ w. not (is_empty w)) (split slash s)

-- `s.find(c)`: the index of the first `c`.
find_from : ℕ → ℕ → Str → Option ℕ
find_from i c [] = none
find_from i c (x ∷ s) = let rest = find_from (i + 1) c s in if x == c then some i else rest

find : ℕ → Str → Option ℕ
unfolding find_from
find c s = find_from 0 c s

-- `raw.pop()`: all but the last piece, and the last.
pop_last : Str → List Str → List Str × Str
pop_last w [] = ([], w)
pop_last w (v ∷ ws) = let (front, last) = pop_last v ws in (w ∷ front, last)

-- The last piece at its first colon: the name before it and the selector behind it.
split_at : Str → ℕ → Result UnispaceError (Str × Option Str)
split_at last pos =
    let name = take pos last in
    let sel = drop (pos + 1) last in
    if pos == 0
    then err invalid_path
    else if is_empty name || is_empty sel
    then err invalid_path
    else ok (name, some sel)

split_method : Str → Result UnispaceError (Str × Option Str)
unfolding find split_at
split_method last = elim (find colon last) [ none ↦ ok (last, none) | some pos ↦ split_at last pos ]

-- `.`, `..` and a `:` are refused in a component.
unfoldable pub bad_component : Str → Bool
bad_component w = str_eq w dot || str_eq w dot_dot || contains colon w

-- The checks on the components, once the selector is off.
checked : List Str → Option Str → Result UnispaceError ParsedPath
unfolding bad_component
checked raw method =
    if any bad_component raw
    then err invalid_path
    else ok (record { components = raw; method = method })

-- The components with the last one renamed, once its selector is off.
abbrev with_selector :
    List Str → Result UnispaceError (Str × Option Str) → Result UnispaceError ParsedPath
with_selector front (ok (name, method)) = checked (front ++ (name ∷ [])) method
with_selector front (err e) = err e

parse_segments : List Str → Result UnispaceError ParsedPath
unfolding pop_last split_method checked
parse_segments [] = ok (record { components = []; method = none })
parse_segments (w ∷ ws) =
    let (front, last) = pop_last w ws in with_selector front (split_method last)

unfoldable pub parse : Str → Result UnispaceError ParsedPath
unfolding strip_slash segments parse_segments
parse path = parse_segments (segments (strip_slash path))
