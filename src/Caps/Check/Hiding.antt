-- ===== src/Caps/Check/Hiding.antt =====
-- What the errors of `check_path_on` (kernel/src/caps/mod.rs) reveal: an object without R stays hidden.
use bedrock_stack.Base.{
  ◌≡◌, ◌≢◌, ◌⊎◌, true, false, Option, none, some, List, [], ◌∷◌, Str, arith, ok, err,
}
use bedrock_stack.Unispace.{UnispaceError, not_found, method_not_found, access_denied}
use bedrock_stack.Caps.{Perm, read, read_write, Cap, Caller}
use bedrock_stack.Caps.Alias.{canonicalize_proc_alias, or_self}
use bedrock_stack.Caps.Lookup.{has_perm_on}
use bedrock_stack.Caps.Check.{leaf_on, check_path_on}
use bedrock_stack.Caps.Check.Meaning.{Grants, has_perm_on_iff}

-- Whatever covers anything covers R.
read_of_perm :
    (caps : List Cap) (p : List Str) (m : Option Str) (want : Perm)
    → has_perm_on caps p m want ≡ true
    → has_perm_on caps p m read ≡ true
unfolding has_perm_on
read_of_perm [] p m want h = h
read_of_perm (c ∷ caps) p m want h = ground (arith, read_of_perm caps p m want)

-- An object for which the caller has no R, or one more, does not exist for it: every request for the
-- object or a method of it, for reading or writing, is answered with `NotFound`.
pub hidden :
    (who : Caller) (caps : List Cap) (cs : List Str) (m : Option Str) (want : Perm)
    (canon : Option (List Str))
    → canonicalize_proc_alias who cs ≡ ok canon
    → has_perm_on caps (or_self canon cs) none read ≡ false
    → check_path_on who (some caps) cs m want ≡ err not_found
unfolding check_path_on leaf_on
hidden who caps cs none want canon e h =
    ground (arith, e, read_of_perm caps (or_self canon cs) none want)
hidden who caps cs (some m) want canon e h = ground (arith, e)

-- What an error may be, and what it then says of the capabilities on the resolved path.
abbrev pub Reveals : List Cap → List Str → Option Str → Perm → UnispaceError → Type 0
Reveals caps p m want e =
    (e ≡ not_found)
    ⊎ ((e ≡ method_not_found) × (m ≢ none) × Grants caps p none read)
    ⊎ ((e ≡ access_denied) × (want ≡ read_write) × Grants caps p m read)

-- A refused request gets `NotFound`; or `MethodNotFound`, for a method of an object that the caller can
-- read; or `AccessDenied`, for writing to or invoking what the caller can read.
pub errors_reveal :
    (who : Caller) (caps : List Cap) (cs : List Str) (m : Option Str) (want : Perm)
    (canon : Option (List Str)) (e : UnispaceError)
    → canonicalize_proc_alias who cs ≡ ok canon
    → check_path_on who (some caps) cs m want ≡ err e
    → Reveals caps (or_self canon cs) m want e
unfolding check_path_on leaf_on
errors_reveal who caps cs none want canon e q h =
    let p = or_self canon cs in ground (arith, q, (has_perm_on_iff caps p none read).0)
errors_reveal who caps cs (some m) want canon e q h =
    let p = or_self canon cs in
    ground
      (arith, q, (has_perm_on_iff caps p none read).0, (has_perm_on_iff caps p (some m) read).0)
