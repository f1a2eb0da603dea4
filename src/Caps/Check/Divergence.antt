-- ===== src/Caps/Check/Divergence.antt =====
-- Where `check_path` and `check_path_on` (kernel/src/caps/mod.rs) differ: `cap_matches_prefix` does
-- not look at the method.
use bedrock_stack.Base.{
  ◌≡◌, ◌≢◌, ap, ◌∙◌, true, false, none, some, List, [], ◌∷◌, Str, seq_eq, opt_eq, join, arith, ok,
  err, IsPiece, str_eq, str_eq_iff, str_eq_self,
}
use bedrock_stack.Unispace.{not_found}
use bedrock_stack.Unispace.Path.{slash, segments}
use bedrock_stack.Unispace.Path.Roundtrip.{segments-join}
use bedrock_stack.Caps.{read, Cap, Caller}
use bedrock_stack.Caps.Alias.{canonicalize_proc_alias, proc}
use bedrock_stack.Caps.Lookup.{
  has_perm, has_perm_on, has_ancestor_r, has_ancestor_r_on, ancestors_from, ancestors_on_from,
  cap_matches_components,
}
use bedrock_stack.Caps.Lookup.Agree.{has_perm-on, passes, passes-prefix}
use bedrock_stack.Caps.Check.{leaf_on, check_path, check_path_on}

module _ (w v m : Str) where
  -- R on the method `m` of `/w`, and on the object `/w/v`; nothing on the object `/w`.
  abbrev pub method_only : List Cap
  method_only =
      record { path = join slash (w ∷ []); method = some m; perm = read }
      ∷ record { path = join slash (w ∷ v ∷ []); method = none; perm = read }
      ∷ []

module _ (w v m : Str) (hw : IsPiece slash w) (hv : IsPiece slash v) where
  one : segments (join slash (w ∷ [])) ≡ w ∷ []
  one = segments-join (w ∷ []) (hw, tt)

  two : segments (join slash (w ∷ v ∷ [])) ≡ w ∷ v ∷ []
  two = segments-join (w ∷ v ∷ []) (hw, (hv, tt))

  passes_method : passes (method_only w v m) (w ∷ []) ≡ true
  unfolding passes seq_eq
  passes_method = rw one (ground (arith, str_eq_self w))

  leaf_granted : has_perm_on (method_only w v m) (w ∷ v ∷ []) none read ≡ true
  unfolding has_perm_on cap_matches_components seq_eq opt_eq
  leaf_granted = rw two (ground (arith, str_eq_self w, str_eq_self v))

  object_hidden : has_perm (method_only w v m) (join slash (w ∷ [])) none read ≡ false
  object_hidden =
      has_perm-on (method_only w v m) (w ∷ []) none read
        (ap (join slash) one, (ap (join slash) two, tt)) (hw, tt)
      ∙ unfold has_perm_on cap_matches_components seq_eq opt_eq in rw two (ground arith)

-- A method capability opens the way to what lies below its object on components, and not on text: for
-- any two clean components `w` and `v`, `w` not `proc`, and any method `m`, the holder of R on `w:m`
-- and on `w/v`, and of nothing on `w`, reads `/w/v` by `check_path_on` and is told by `check_path`
-- that it does not exist.
pub method_cap_traverses :
    (who : Caller) (w v m : Str)
    → IsPiece slash w
    → IsPiece slash v
    → w ≢ proc
    → (check_path_on who (some (method_only w v m)) (w ∷ v ∷ []) none read ≡ ok tt)
      × (check_path who (some (method_only w v m)) (w ∷ v ∷ []) none read ≡ err not_found)
unfolding check_path check_path_on canonicalize_proc_alias has_ancestor_r has_ancestor_r_on
    ancestors_from ancestors_on_from leaf_on
method_cap_traverses who w v m hw hv np =
    let plain : str_eq w proc ≡ false = ground (arith, str_eq_iff w proc) in
    let p = passes-prefix (method_only w v m) (w ∷ v ∷ []) 1 in
    (
      ground (arith, plain, p, passes_method w v m hw hv, leaf_granted w v m hw hv),
      ground (arith, plain, object_hidden w v m hw hv),
    )
