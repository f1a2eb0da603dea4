-- ===== src/Caps/Listing/Agree.antt =====
-- The two listings of kernel/src/caps/mod.rs show the same entries.
use bedrock_stack.Base.{
  ◌≡◌, refl, sym, ap, ◌∙◌, true, none, List, [], ◌∷◌, ◌++◌, Str, str_eq, seq_eq, str_eq_iff,
  seq_eq_iff, opt_eq, filter-ext, All, All-append, IsPiece, join, arith, Bool-cases, Bool-ext,
  contains, inl, inr,
}
use bedrock_stack.Unispace.Path.{slash, segments}
use bedrock_stack.Unispace.Path.Roundtrip.{segments-join, join-child, is_empty-join}
use bedrock_stack.Caps.{read, Cap, Caller}
use bedrock_stack.Caps.Alias.{proc, self}
use bedrock_stack.Caps.Alias.Pieces.{self-IsPiece}
use bedrock_stack.Caps.Lookup.{has_perm_on, segs, cap_matches_components}
use bedrock_stack.Caps.Lookup.Agree.{AllCanonical, has_perm-on}
use bedrock_stack.Caps.Listing.{
  filter_listing, filter_listing_on, shown, shown_on, child_segs, child_path, wanted, proc_self,
}

child_segs-eq :
    (it dir : List Str) (want : Str) → child_segs it dir want ≡ seq_eq it (dir ++ (want ∷ []))
unfolding child_segs seq_eq
child_segs-eq [] [] want = refl
child_segs-eq (s ∷ []) [] want = ground arith
child_segs-eq (s ∷ t ∷ it) [] want = ground arith
child_segs-eq [] (d ∷ dir) want = refl
child_segs-eq (s ∷ it) (d ∷ dir) want = ground (arith, child_segs-eq it dir want)

shown_on-perm :
    (who : Caller) (caps : List Cap) (dir : List Str) (name : Str)
    → shown_on who caps dir name ≡ has_perm_on caps (dir ++ (wanted who dir name ∷ [])) none read
unfolding shown_on has_perm_on cap_matches_components opt_eq
shown_on-perm who [] dir name = refl
shown_on-perm who (c ∷ caps) dir name =
    ground (
      arith,
      child_segs-eq (segs c.path) dir (wanted who dir name),
      shown_on-perm who caps dir name,
    )

proc-IsPiece : IsPiece slash proc
proc-IsPiece = ((λ e. cc), unfold contains in refl)

is_proc :
    (dir : List Str)
    → All (IsPiece slash) dir
    → str_eq (join slash dir) proc ≡ seq_eq dir (proc ∷ [])
is_proc dir a = Bool-ext _ _ there back
  where
    there : str_eq (join slash dir) proc ≡ true → seq_eq dir (proc ∷ []) ≡ true
    there h = (seq_eq_iff dir (proc ∷ [])).1 (
        sym (segments-join dir a)
        ∙ ap segments ((str_eq_iff _ proc).0 h)
        ∙ unfold join in segments-join (proc ∷ []) (proc-IsPiece, tt))

    back : seq_eq dir (proc ∷ []) ≡ true → str_eq (join slash dir) proc ≡ true
    back h =
        (str_eq_iff _ proc).1 (unfold join in ap (join slash) ((seq_eq_iff dir (proc ∷ [])).0 h))

child_path-join :
    (dir : List Str) (name : Str)
    → All (IsPiece slash) dir
    → child_path (join slash dir) name ≡ join slash (dir ++ (name ∷ []))
unfolding child_path
child_path-join [] name a = unfold join in refl
child_path-join (w ∷ ws) name a = rw (is_empty-join w ws a.0) (join-child w ws name)

-- `proc/self` is the child `self` of `proc`.
proc_self-join : proc_self ≡ join slash (proc ∷ self ∷ [])
unfolding join
proc_self-join = refl

shown-on :
    (who : Caller) (caps : List Cap) (dir : List Str) (name : Str)
    → AllCanonical caps
    → All (IsPiece slash) dir
    → IsPiece slash name
    → shown who caps (join slash dir) name ≡ shown_on who caps dir name
unfolding shown wanted
shown-on who caps dir name h a n =
    let e = is_proc dir a in
    let plain =
      has_perm-on caps (dir ++ (name ∷ [])) none read h
        (All-append (IsPiece slash) dir (name ∷ []) a (n, tt)) in
    let aliased =
      has_perm-on caps (proc ∷ self ∷ []) none read h (proc-IsPiece, (self-IsPiece, tt)) in
    elim (Bool-cases (seq_eq dir (proc ∷ []))) [
      | inl p ↦
          let same : dir ≡ proc ∷ [] = (seq_eq_iff dir (proc ∷ [])).0 p in
          rw (shown_on-perm who caps dir name, child_path-join dir name a, proc_self-join)
            (ground (arith, e, plain, aliased, same))
      | inr p ↦
          rw (shown_on-perm who caps dir name, child_path-join dir name a)
            (ground (arith, e, plain))
    ]

-- On canonical capabilities, for a directory of clean components and entries without slashes, the
-- listing on texts and the listing on components show the same entries, `proc/<pid>` included.
pub filter_listing-on :
    (who : Caller) (caps : List Cap) (dir names : List Str)
    → AllCanonical caps
    → All (IsPiece slash) dir
    → All (IsPiece slash) names
    → filter_listing who caps (join slash dir) names ≡ filter_listing_on who caps dir names
unfolding filter_listing filter_listing_on
filter_listing-on who caps dir names h a n =
    filter-ext (IsPiece slash) _ _ (λ name hn. shown-on who caps dir name h a hn) names n
