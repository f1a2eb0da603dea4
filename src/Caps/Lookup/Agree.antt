-- ===== src/Caps/Lookup/Agree.antt =====
-- The lookups on texts and those on components, compared (kernel/src/caps/mod.rs).
use bedrock_stack.Base.{
  ℕ, zero, suc, ◌+◌, ◌-◌, ◌≡◌, refl, sym, ap, ap₂, ◌∙◌, subst, Bool, true, false, ◌&&◌, ◌||◌,
  Option, none, List, [], ◌∷◌, Str, str_eq, seq_eq, str_eq_iff, seq_eq_iff, Bool-ext, Bool-cases,
  join, take, length, any, All, All-take, if◌then◌else◌, arith, IsPiece, inl, inr,
}
use bedrock_stack.Unispace.Path.{slash, segments}
use bedrock_stack.Unispace.Path.Roundtrip.{segments-join}
use bedrock_stack.Caps.{Perm, read, Cap, covers}
use bedrock_stack.Caps.Lookup.{
  has_perm, segs, cap_matches_components, cap_matches_prefix, segs_match, has_perm_on,
  ancestors_from, ancestors_on_from, has_ancestor_r, has_ancestor_r_on,
}

-- A path text that is what its segments join to.
abbrev pub IsCanonical : Str → Type 0
IsCanonical p = join slash (segments p) ≡ p

abbrev pub AllCanonical : List Cap → Type 0
AllCanonical = All (λ (c : Cap). IsCanonical c.path)

-- A canonical text equals a joined path exactly when the segments equal the components.
path_match :
    (p : Str) (cs : List Str)
    → IsCanonical p
    → All (IsPiece slash) cs
    → str_eq p (join slash cs) ≡ seq_eq (segments p) cs
path_match p cs h a = Bool-ext _ _ there back
  where
    there : str_eq p (join slash cs) ≡ true → seq_eq (segments p) cs ≡ true
    there e = (seq_eq_iff _ cs).1 (ap segments ((str_eq_iff p _).0 e) ∙ segments-join cs a)

    back : seq_eq (segments p) cs ≡ true → str_eq p (join slash cs) ≡ true
    back e = (str_eq_iff p _).1 (sym h ∙ ap (join slash) ((seq_eq_iff _ cs).0 e))

-- On canonical capabilities and clean components, the two exact lookups are one.
pub has_perm-on :
    (caps : List Cap) (cs : List Str) (m : Option Str) (want : Perm)
    → AllCanonical caps
    → All (IsPiece slash) cs
    → has_perm caps (join slash cs) m want ≡ has_perm_on caps cs m want
unfolding has_perm has_perm_on cap_matches_components
has_perm-on [] cs m want h a = refl
has_perm-on (c ∷ caps) cs m want h a =
    ground (arith, path_match c.path cs h.0 a, has_perm-on caps cs m want h.1 a)

segs_match-eq : (it ws : List Str) → segs_match it ws ≡ seq_eq it ws
unfolding segs_match seq_eq
segs_match-eq [] [] = refl
segs_match-eq (s ∷ it) [] = refl
segs_match-eq [] (w ∷ ws) = refl
segs_match-eq (s ∷ it) (w ∷ ws) = ground (arith, segs_match-eq it ws)

-- The test that the traversal on components makes of a prefix.
unfoldable pub passes : List Cap → List Str → Bool
passes caps p = any (λ (c : Cap). seq_eq (segs c.path) p && covers c.perm read) caps

pub passes-prefix :
    (caps : List Cap) (cs : List Str) (n : ℕ)
    → any (λ (c : Cap). cap_matches_prefix c cs n && covers c.perm read) caps
      ≡ passes caps (take n cs)
unfolding passes cap_matches_prefix
passes-prefix [] cs n = refl
passes-prefix (c ∷ caps) cs n =
    ap₂ (λ x y. (x && covers c.perm read) || y) (segs_match-eq (segs c.path) (take n cs))
      (passes-prefix caps cs n)

-- R on the object itself lets the traversal pass.
pub passes_of_perm :
    (caps : List Cap) (p : List Str) → has_perm_on caps p none read ≡ true → passes caps p ≡ true
unfolding passes has_perm_on cap_matches_components
passes_of_perm [] p h = h
passes_of_perm (c ∷ caps) p h = ground (arith, passes_of_perm caps p)

-- Wherever a capability names an object or a method of it, the object has R.
abbrev pub Accompanied : List Cap → Type 0
Accompanied caps = All (λ (c : Cap). has_perm_on caps (segs c.path) none read ≡ true) caps

perm_of_passes_in :
    (all caps : List Cap) (p : List Str)
    → All (λ (c : Cap). has_perm_on all (segs c.path) none read ≡ true) caps
    → passes caps p ≡ true
    → has_perm_on all p none read ≡ true
unfolding passes
perm_of_passes_in all [] p h k = cc
perm_of_passes_in all (c ∷ caps) p h k = elim (Bool-cases (seq_eq (segs c.path) p)) [
  | inl e ↦ subst (λ q. has_perm_on all q none read ≡ true) ((seq_eq_iff _ p).0 e) h.0
  | inr e ↦ perm_of_passes_in all caps p h.1 (ground arith)
]

passes-perm :
    (caps : List Cap) (p : List Str)
    → Accompanied caps
    → passes caps p ≡ has_perm_on caps p none read
passes-perm caps p h = Bool-ext _ _ (perm_of_passes_in caps caps p h) (passes_of_perm caps p)

ancestors_agree :
    (caps : List Cap) (cs : List Str) (i n : ℕ)
    → AllCanonical caps
    → All (IsPiece slash) cs
    → Accompanied caps
    → ancestors_from caps cs i n ≡ ancestors_on_from caps cs (i + 1) n
unfolding ancestors_from ancestors_on_from
ancestors_agree caps cs i zero h a k = refl
ancestors_agree caps cs i (suc n) h a k =
    let e =
      has_perm-on caps (take (i + 1) cs) none read h (All-take (IsPiece slash) (i + 1) cs a)
      ∙ sym (passes-perm caps (take (i + 1) cs) k)
      ∙ sym (passes-prefix caps cs (i + 1)) in
    ap₂ (λ x y. if x then y else false) e (ancestors_agree caps cs (i + 1) n h a k)

-- With R on every object that a capability names, the two traversals are one.
pub has_ancestor_r-on :
    (caps : List Cap) (cs : List Str)
    → AllCanonical caps
    → All (IsPiece slash) cs
    → Accompanied caps
    → has_ancestor_r caps cs ≡ has_ancestor_r_on caps cs
unfolding has_ancestor_r has_ancestor_r_on
has_ancestor_r-on caps [] h a k = refl
has_ancestor_r-on caps (w ∷ ws) h a k = ancestors_agree caps (w ∷ ws) 0 (length (w ∷ ws) - 1) h a k

ancestors_weaker :
    (caps : List Cap) (cs : List Str) (i n : ℕ)
    → AllCanonical caps
    → All (IsPiece slash) cs
    → ancestors_from caps cs i n ≡ true
    → ancestors_on_from caps cs (i + 1) n ≡ true
unfolding ancestors_from ancestors_on_from
ancestors_weaker caps cs i zero h a k = refl
ancestors_weaker caps cs i (suc n) h a k =
    let e =
      has_perm-on caps (take (i + 1) cs) none read h (All-take (IsPiece slash) (i + 1) cs a) in
    let p = passes_of_perm caps (take (i + 1) cs) in
    ground (arith, e, p, passes-prefix caps cs (i + 1), ancestors_weaker caps cs (i + 1) n h a)

-- What the traversal on texts lets through, the traversal on components does too.
pub has_ancestor_r_on_of :
    (caps : List Cap) (cs : List Str)
    → AllCanonical caps
    → All (IsPiece slash) cs
    → has_ancestor_r caps cs ≡ true
    → has_ancestor_r_on caps cs ≡ true
unfolding has_ancestor_r has_ancestor_r_on
has_ancestor_r_on_of caps [] h a k = unfold ancestors_on_from in refl
has_ancestor_r_on_of caps (w ∷ ws) h a k = ancestors_weaker caps (w ∷ ws) 0 _ h a k
