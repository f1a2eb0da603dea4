-- ===== src/Caps/Alias.antt =====
-- kernel/src/caps/mod.rs: `proc/<pid>` stands for `proc/self` where the caller is an ancestor.
pub mod Pieces
use bedrock_stack.Base.{
  ℕ, ◌+◌, ◌-◌, ◌*◌, ◌^◌, Bool, true, false, not, ◌&&◌, ◌||◌, Option, none, some, List, [], ◌∷◌, Str,
  str_eq, all, length, is_empty, if◌then◌else◌, ltb, leb, Result, ok, err,
}
use bedrock_stack.Unispace.{UnispaceError, not_found}
use bedrock_stack.Task.Lineage.{is_ancestor}
use bedrock_stack.Caps.{Caller}

abbrev pub proc : Str
proc = b'p' ∷ b'r' ∷ b'o' ∷ b'c' ∷ []

abbrev pub self : Str
self = b's' ∷ b'e' ∷ b'l' ∷ b'f' ∷ []

is_digit : ℕ → Bool
is_digit b = leb b'0' b && leb b b'9'

unfoldable pub is_numeric_pid : Str → Bool
unfolding is_digit
is_numeric_pid s = if is_empty s || ltb 20 (length s) then false else all is_digit s

-- `v.checked_mul(10)?.checked_add(d)?` for each digit, in `u64`.
parse_digits : ℕ → Str → Option ℕ
parse_digits v [] = some v
parse_digits v (b ∷ s) =
    let v' = v * 10 + (b - b'0') in
    let rest = parse_digits v' s in if ltb (v * 10) (2 ^ 64) && ltb v' (2 ^ 64) then rest else none

unfoldable pub parse_pid : Str → Option ℕ
unfolding is_numeric_pid parse_digits
parse_pid s = if is_numeric_pid s then parse_digits 0 s else none

-- The alias of a path `proc/<name>/...`, with the pid that the name spells.
alias_of : Caller → Str → List Str → Option ℕ → Result UnispaceError (Option (List Str))
alias_of who first rest none = ok none
alias_of who first rest (some target) = elim who.pid [
  | none ↦ ok none
  | some caller ↦
      if is_ancestor who.lineage caller target
      then ok (some (first ∷ self ∷ rest))
      else err not_found
]

-- The canonical components, if the path is an alias; an error, if it names a pid that the caller may
-- not see.
unfoldable pub canonicalize_proc_alias :
    Caller → List Str → Result UnispaceError (Option (List Str))
unfolding parse_pid alias_of
canonicalize_proc_alias who [] = ok none
canonicalize_proc_alias who (w ∷ []) = ok none
canonicalize_proc_alias who (w ∷ v ∷ rest) =
    if str_eq w proc && not (str_eq v self) then alias_of who w rest (parse_pid v) else ok none

-- `if let Some(ref v) = canon_opt { v } else { components }`
abbrev pub or_self : Option (List Str) → List Str → List Str
or_self none components = components
or_self (some canon) components = canon
