-- ===== src/Caps/Listing.antt =====
-- kernel/src/caps/mod.rs: what a listing shows, `filter_listing`, `filter_listing_on` and the filters
-- of method descriptors. An entry is its name.
pub mod Agree
use bedrock_stack.Base.{
  ℕ, Bool, true, false, not, ◌&&◌, Option, none, some, List, [], ◌∷◌, ◌++◌, Str, str_eq, seq_eq,
  any, filter, is_empty, if◌then◌else◌,
}
use bedrock_stack.Unispace.Path.{slash}
use bedrock_stack.Task.Lineage.{is_ancestor}
use bedrock_stack.Caps.{Perm, read, Cap, covers, Caller}
use bedrock_stack.Caps.Lookup.{has_perm, segs}
use bedrock_stack.Caps.Alias.{proc, self, is_numeric_pid, parse_pid}

-- Does the name spell a pid below the caller?
abbrev below_caller : Caller → Option ℕ → Bool
below_caller who none = false
below_caller who (some pid) = elim who.pid [
  | none ↦ false
  | some caller ↦ is_ancestor who.lineage caller pid
]

abbrev pub proc_self : Str
proc_self = proc ++ (slash ∷ self)

child_path : Str → Str → Str
child_path dir name = if is_empty dir then name else dir ++ (slash ∷ name)

shown : Caller → List Cap → Str → Str → Bool
unfolding child_path
shown who caps dir name =
    if str_eq dir proc && is_numeric_pid name && below_caller who (parse_pid name)
    then has_perm caps proc_self none read
    else has_perm caps (child_path dir name) none read

unfoldable pub filter_listing : Caller → List Cap → Str → List Str → List Str
unfolding shown
filter_listing who caps dir names = filter (shown who caps dir) names

-- The segments of a path against the directory and then exactly one more.
child_segs : List Str → List Str → Str → Bool
child_segs [] [] want = false
child_segs (s ∷ []) [] want = str_eq s want
child_segs (s ∷ t ∷ it) [] want = false
child_segs [] (d ∷ dir) want = false
child_segs (s ∷ it) (d ∷ dir) want = if str_eq s d then child_segs it dir want else false

abbrev no_method : Option Str → Bool
no_method none = true
no_method (some m) = false

-- The name to look for in place of the entry's.
wanted : Caller → List Str → Str → Str
wanted who dir name =
    let numeric_child = seq_eq dir (proc ∷ []) && is_numeric_pid name in
    if numeric_child && below_caller who (parse_pid name) then self else name

shown_on : Caller → List Cap → List Str → Str → Bool
unfolding child_segs wanted
shown_on who caps dir name =
    any
      (λ (c : Cap).
        no_method c.method
        && covers c.perm read
        && child_segs (segs c.path) dir (wanted who dir name))
      caps

unfoldable pub filter_listing_on : Caller → List Cap → List Str → List Str → List Str
unfolding shown_on
filter_listing_on who caps dir names = filter (shown_on who caps dir) names

-- `filter_methods_by_perm` and `filter_owned_methods_by_perm`, on the names of the methods.
unfoldable pub filter_methods : List Cap → Str → List Str → List Str
filter_methods caps leaf methods = filter (λ m. has_perm caps leaf (some m) read) methods
