-- ===== src/Caps/Check.antt =====
-- kernel/src/caps/mod.rs: `check_path` and `check_path_on`.
pub mod Agree
pub mod Divergence
pub mod Meaning
pub mod Hiding
use bedrock_stack.Base.{
  ℕ, Bool, true, false, not, ◌&&◌, Option, none, some, List, [], ◌∷◌, Str, is_empty, if◌then◌else◌,
  Result, ok, err, guard, ◌>>=◌, ◌>>◌,
}
use bedrock_stack.Unispace.{UnispaceError, not_found, method_not_found, access_denied}
use bedrock_stack.Caps.{Perm, read, read_write, Cap, Caller}
use bedrock_stack.Caps.Lookup.{has_perm, has_ancestor_r, join_path, has_perm_on, has_ancestor_r_on}
use bedrock_stack.Caps.Alias.{canonicalize_proc_alias, or_self}

-- `leaf_want == Perm::RW`
abbrev pub is_rw : Perm → Bool
is_rw read_write = true
is_rw read = false

-- The answer where the leaf, or the method, does not grant what is wanted.
abbrev pub refuse : Bool → Perm → UnispaceError → Result UnispaceError (Unit {0})
refuse has_r want hidden = if has_r && is_rw want then err access_denied else err hidden

-- The checks of the leaf, as text.
leaf : List Cap → Str → Option Str → Perm → Result UnispaceError (Unit {0})
leaf caps path none want =
    if has_perm caps path none want
    then ok tt
    else refuse (has_perm caps path none read) want not_found
leaf caps path (some m) want =
    if not (has_perm caps path none read)
    then err not_found
    else if has_perm caps path (some m) want
    then ok tt
    else refuse (has_perm caps path (some m) read) want method_not_found

unfoldable pub check_path :
    Caller → Option (List Cap) → List Str → Option Str → Perm → Result UnispaceError (Unit {0})
unfolding leaf
check_path who none components method want = ok tt
check_path who (some caps) components method want = do
  guard (not (is_empty caps && not (is_empty components))) not_found
  canon ← canonicalize_proc_alias who components
  let path = or_self canon components
  guard (has_ancestor_r caps path) not_found
  leaf caps (join_path path) method want

-- The checks of the leaf, as components.
leaf_on : List Cap → List Str → Option Str → Perm → Result UnispaceError (Unit {0})
leaf_on caps path none want =
    if has_perm_on caps path none want
    then ok tt
    else refuse (has_perm_on caps path none read) want not_found
leaf_on caps path (some m) want =
    if not (has_perm_on caps path none read)
    then err not_found
    else if has_perm_on caps path (some m) want
    then ok tt
    else refuse (has_perm_on caps path (some m) read) want method_not_found

unfoldable pub check_path_on :
    Caller → Option (List Cap) → List Str → Option Str → Perm → Result UnispaceError (Unit {0})
unfolding leaf_on
check_path_on who none components method want = ok tt
check_path_on who (some caps) components method want = do
  guard (not (is_empty caps && not (is_empty components))) not_found
  canon ← canonicalize_proc_alias who components
  let path = or_self canon components
  guard (has_ancestor_r_on caps path) not_found
  leaf_on caps path method want
