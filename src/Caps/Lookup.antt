-- ===== src/Caps/Lookup.antt =====
-- kernel/src/caps/mod.rs: exact lookups, on path texts and, without building texts, on components.
pub mod Agree
use bedrock_stack.Base.{
  ℕ, zero, suc, ◌+◌, ◌-◌, Bool, true, false, ◌&&◌, Option, none, List, [], ◌∷◌, Str, str_eq, opt_eq,
  seq_eq, join, take, length, any, if◌then◌else◌,
}
use bedrock_stack.Unispace.Path.{slash, segments}
use bedrock_stack.Caps.{Perm, read, Cap, covers}

unfoldable pub has_perm : List Cap → Str → Option Str → Perm → Bool
has_perm [] path method want = false
has_perm (c ∷ caps) path method want =
    if str_eq c.path path && opt_eq c.method method && covers c.perm want
    then true
    else has_perm caps path method want

unfoldable pub join_path : List Str → Str
join_path components = join slash components

-- `for i in i..i + n`: R on every prefix `components[..=i]`.
unfoldable pub ancestors_from : List Cap → List Str → ℕ → ℕ → Bool
ancestors_from caps components i zero = true
ancestors_from caps components i (suc n) =
    let rest = ancestors_from caps components (i + 1) n in
    if has_perm caps (join slash (take (i + 1) components)) none read then rest else false

unfoldable pub has_ancestor_r : List Cap → List Str → Bool
unfolding ancestors_from
has_ancestor_r caps [] = true
has_ancestor_r caps (w ∷ ws) = ancestors_from caps (w ∷ ws) 0 (length (w ∷ ws) - 1)

-- The non-empty pieces of a capability's path.
abbrev pub segs : Str → List Str
segs = segments

unfoldable pub cap_matches_components : Cap → List Str → Option Str → Bool
cap_matches_components c components method =
    if opt_eq c.method method then seq_eq (segs c.path) components else false

-- The loop of `cap_matches_prefix` over `components[..n]`, beside the iterator over the segments.
segs_match : List Str → List Str → Bool
segs_match [] [] = true
segs_match (s ∷ it) [] = false
segs_match [] (w ∷ ws) = false
segs_match (s ∷ it) (w ∷ ws) = if str_eq s w then segs_match it ws else false

unfoldable pub cap_matches_prefix : Cap → List Str → ℕ → Bool
unfolding segs_match
cap_matches_prefix c components n = segs_match (segs c.path) (take n components)

unfoldable pub has_perm_on : List Cap → List Str → Option Str → Perm → Bool
unfolding cap_matches_components
has_perm_on caps components method want =
    any (λ (c : Cap). cap_matches_components c components method && covers c.perm want) caps

-- `for n in n..n + k`
unfoldable pub ancestors_on_from : List Cap → List Str → ℕ → ℕ → Bool
ancestors_on_from caps components n zero = true
ancestors_on_from caps components n (suc k) =
    let rest = ancestors_on_from caps components (n + 1) k in
    if any (λ (c : Cap). cap_matches_prefix c components n && covers c.perm read) caps
    then rest
    else false

unfoldable pub has_ancestor_r_on : List Cap → List Str → Bool
unfolding ancestors_on_from cap_matches_prefix
has_ancestor_r_on caps components = ancestors_on_from caps components 1 (length components - 1)
