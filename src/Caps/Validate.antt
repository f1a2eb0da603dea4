-- ===== src/Caps/Validate.antt =====
-- kernel/src/caps/mod.rs: `validate_cap` and `is_subset`; and the gate of a spawn that uses them
-- (kernel/src/unispace/provider/proc.rs).
pub mod Canonical
pub mod Subset
use bedrock_stack.Base.{
  ℕ, zero, suc, Bool, true, false, not, ◌&&◌, ◌||◌, Option, none, some, List, [], ◌∷◌, Str, str_eq,
  contains, split, any, length, is_empty, if◌then◌else◌, ltb, ◌==◌, Result, ok, err, guard, ◌>>=◌,
  ◌>>◌,
}
use bedrock_stack.Unispace.{UnispaceError, invalid_argument, out_of_memory}
use bedrock_stack.Unispace.Path.{slash, colon, dot, dot_dot}
use bedrock_stack.Caps.{Perm, Cap, as_u8, max_cap_path_len, max_cap_method_len, max_caps_per_task}
use bedrock_stack.Caps.Lookup.{has_perm}

-- `b < 0x20 || b == 0x7F`
is_control : ℕ → Bool
is_control b = ltb b 0x20 || b == 0x7F

method_refused : Str → Bool
unfolding is_control
method_refused m =
    is_empty m
    || ltb max_cap_method_len (length m)
    || contains slash m
    || contains colon m
    || any is_control m

-- `path.starts_with('/')`
starts_slash : Str → Bool
starts_slash [] = false
starts_slash (c ∷ s) = c == slash

-- `path.ends_with('/')`
ends_slash : Str → Bool
ends_slash [] = false
ends_slash (c ∷ []) = c == slash
ends_slash (c ∷ d ∷ s) = ends_slash (d ∷ s)

-- `path.contains("//")`
double_slash : Str → Bool
double_slash [] = false
double_slash (c ∷ []) = false
double_slash (c ∷ d ∷ s) = (c == slash && d == slash) || double_slash (d ∷ s)

segment_refused : Str → Bool
unfolding is_control
segment_refused seg =
    is_empty seg || str_eq seg dot || str_eq seg dot_dot || contains colon seg || any is_control seg

path_refused : Str → Bool
unfolding starts_slash ends_slash double_slash segment_refused
path_refused path =
    if is_empty path
    then false
    else starts_slash path
      || ends_slash path
      || double_slash path
      || any segment_refused (split slash path)

abbrev method_part : Option Str → Bool
method_part none = false
method_part (some m) = method_refused m

unfoldable pub validate_cap : Cap → Result UnispaceError (Unit {0})
unfolding method_refused path_refused
validate_cap c = do
  guard (not (ltb max_cap_path_len (length c.path))) invalid_argument
  guard (not (method_part c.method)) invalid_argument
  guard (not (path_refused c.path)) invalid_argument
  ok tt

unfoldable pub is_subset : List Cap → List Cap → Bool
is_subset parent [] = true
is_subset parent (c ∷ child) =
    let rest = is_subset parent child in
    if not (has_perm parent c.path c.method c.perm) then false else rest

validate_all : List Cap → Result UnispaceError (Unit {0})
validate_all [] = ok tt
validate_all (c ∷ caps) = do
  validate_cap c
  guard (not (as_u8 c.perm == 2)) invalid_argument
  validate_all caps

-- Against the capabilities of the caller; `none` is the kernel, which bypasses the check.
abbrev subset_of : Option (List Cap) → List Cap → Bool
subset_of none child = true
subset_of (some parent) child = is_subset parent child

-- What a spawn gives its child, from what the caller provides.
unfoldable pub spawn_caps : Option (List Cap) → List Cap → Result UnispaceError (List Cap)
unfolding validate_all
spawn_caps parent provided = do
  validate_all provided
  guard (not (ltb max_caps_per_task (length provided))) out_of_memory
  guard (subset_of parent provided) invalid_argument
  ok provided
