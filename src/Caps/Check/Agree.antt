-- ===== src/Caps/Check/Agree.antt =====
-- `check_path` against `check_path_on` (kernel/src/caps/mod.rs), whose comment calls them identical.
use bedrock_stack.Base.{
  ◌≡◌, refl, inl, inr, Option, none, some, List, Str, All, arith, ok, IsPiece, Result-cases,
}
use bedrock_stack.Unispace.Path.{slash}
use bedrock_stack.Caps.{Perm, read, Cap, Caller}
use bedrock_stack.Caps.Alias.{canonicalize_proc_alias, or_self}
use bedrock_stack.Caps.Alias.Pieces.{canonical-pieces}
use bedrock_stack.Caps.Lookup.{join_path}
use bedrock_stack.Caps.Lookup.Agree.{
  AllCanonical, Accompanied, has_perm-on, has_ancestor_r-on, has_ancestor_r_on_of,
}
use bedrock_stack.Caps.Check.{leaf, leaf_on, check_path, check_path_on}

leaf-on :
    (caps : List Cap) (cs : List Str) (m : Option Str) (want : Perm)
    → AllCanonical caps
    → All (IsPiece slash) cs
    → leaf caps (join_path cs) m want ≡ leaf_on caps cs m want
unfolding leaf leaf_on join_path
leaf-on caps cs none want h a =
    ground (arith, has_perm-on caps cs none want h a, has_perm-on caps cs none read h a)
leaf-on caps cs (some m) want h a = ground (
  arith,
  has_perm-on caps cs (some m) want h a,
  has_perm-on caps cs (some m) read h a,
  has_perm-on caps cs none read h a,
)

-- With R on every object that a capability names, and canonical capabilities, the check on texts and
-- the check on components give the same answer to every request on clean components.
pub check_path-on :
    (who : Caller) (caps : List Cap) (cs : List Str) (m : Option Str) (want : Perm)
    → AllCanonical caps
    → Accompanied caps
    → All (IsPiece slash) cs
    → check_path who (some caps) cs m want ≡ check_path_on who (some caps) cs m want
unfolding check_path check_path_on
check_path-on who caps cs m want h k a = elim (Result-cases (canonicalize_proc_alias who cs)) [
  | inl (canon, e) ↦
      let clean = canonical-pieces who cs canon a e in
      let path = or_self canon cs in
      rw (e, check_path, check_path_on)
        (rw (has_ancestor_r-on caps path h clean k, leaf-on caps path m want h clean) refl)
  | inr (x, e) ↦ ground (arith, e)
]

-- Whatever the check on texts allows, the check on components allows, for canonical capabilities and
-- clean components.
pub check_path_on_of :
    (who : Caller) (caps : List Cap) (cs : List Str) (m : Option Str) (want : Perm)
    → AllCanonical caps
    → All (IsPiece slash) cs
    → check_path who (some caps) cs m want ≡ ok tt
    → check_path_on who (some caps) cs m want ≡ ok tt
unfolding check_path check_path_on
check_path_on_of who caps cs m want h a q = elim (Result-cases (canonicalize_proc_alias who cs)) [
  | inl (canon, e) ↦
      let clean = canonical-pieces who cs canon a e in
      let path = or_self canon cs in
      ground (arith, e, leaf-on caps path m want h clean, has_ancestor_r_on_of caps path h clean)
  | inr (x, e) ↦ absurd (ground (arith, e))
]
