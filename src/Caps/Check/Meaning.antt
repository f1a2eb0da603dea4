-- ===== src/Caps/Check/Meaning.antt =====
-- Which requests `check_path_on` of kernel/src/caps/mod.rs allows, and what its errors reveal.
use bedrock_stack.Base.{
  ℕ, zero, suc, ◌+◌, ◌-◌, ◌≤◌, ◌<◌, ◌≡◌, ◌↔◌, refl, sym, subst, inl, inr, true, false, Option, none,
  some, List, [], ◌∷◌, Str, is_empty, seq_eq_iff, opt_eq_iff, arith, ok, Bool-cases, take, length,
  Any, ◌==◌,
}
use bedrock_stack.Caps.{Perm, read, Cap, Caller, covers}
use bedrock_stack.Caps.Alias.{canonicalize_proc_alias, or_self}
use bedrock_stack.Caps.Lookup.{
  segs, has_perm_on, has_ancestor_r_on, ancestors_on_from, cap_matches_components,
}
use bedrock_stack.Caps.Lookup.Agree.{passes, passes-prefix}
use bedrock_stack.Caps.Check.{leaf_on, check_path_on}

-- Some capability for exactly this object, or method of it, covers what is wanted.
abbrev pub Grants : List Cap → List Str → Option Str → Perm → Type 0
Grants caps p m want =
    Any (λ (c : Cap). (c.method ≡ m) × (segs c.path ≡ p) × (covers c.perm want ≡ true)) caps

-- Some capability for exactly this object or for any method of it gives R.
abbrev pub Passes : List Cap → List Str → Type 0
Passes caps p = Any (λ (c : Cap). (segs c.path ≡ p) × (covers c.perm read ≡ true)) caps

-- What the last component needs: a method wants R on its object too.
abbrev pub LeafGranted : List Cap → List Str → Option Str → Perm → Type 0
LeafGranted caps p none want = Grants caps p none want
LeafGranted caps p (some m) want = Grants caps p none read × Grants caps p (some m) want

-- A request is allowed if every proper non-empty prefix passes and the leaf is granted.
pub record Allowed (caps : List Cap) (p : List Str) (m : Option Str) (want : Perm) : Type 0 where
  pub way : (n : ℕ) → 0 < n → n < length p → Passes caps (take n p)
  pub leaf : LeafGranted caps p m want

Grants-of_perm :
    (caps : List Cap) (p : List Str) (m : Option Str) (want : Perm)
    → has_perm_on caps p m want ≡ true
    → Grants caps p m want
unfolding has_perm_on cap_matches_components
Grants-of_perm [] p m want h = cc
Grants-of_perm (c ∷ caps) p m want h =
    ground (arith, Grants-of_perm caps p m want, opt_eq_iff c.method m, seq_eq_iff (segs c.path) p)

perm_of_Grants :
    (caps : List Cap) (p : List Str) (m : Option Str) (want : Perm)
    → Grants caps p m want
    → has_perm_on caps p m want ≡ true
unfolding has_perm_on cap_matches_components
perm_of_Grants [] p m want g = absurd g
perm_of_Grants (c ∷ caps) p m want (inl g) =
    ground (arith, g, opt_eq_iff c.method m, seq_eq_iff (segs c.path) p)
perm_of_Grants (c ∷ caps) p m want (inr g) = ground (arith, perm_of_Grants caps p m want g)

pub has_perm_on_iff :
    (caps : List Cap) (p : List Str) (m : Option Str) (want : Perm)
    → (has_perm_on caps p m want ≡ true) ↔ Grants caps p m want
has_perm_on_iff caps p m want = (Grants-of_perm caps p m want, perm_of_Grants caps p m want)

Passes-of_test : (caps : List Cap) (p : List Str) → passes caps p ≡ true → Passes caps p
unfolding passes
Passes-of_test [] p h = cc
Passes-of_test (c ∷ caps) p h = ground (arith, Passes-of_test caps p, seq_eq_iff (segs c.path) p)

test_of_Passes : (caps : List Cap) (p : List Str) → Passes caps p → passes caps p ≡ true
unfolding passes
test_of_Passes [] p g = absurd g
test_of_Passes (c ∷ caps) p (inl g) = ground (arith, g, seq_eq_iff (segs c.path) p)
test_of_Passes (c ∷ caps) p (inr g) = ground (arith, test_of_Passes caps p g)

passes_iff : (caps : List Cap) (p : List Str) → (passes caps p ≡ true) ↔ Passes caps p
passes_iff caps p = (Passes-of_test caps p, test_of_Passes caps p)

way_sound :
    (caps : List Cap) (p : List Str) (n k : ℕ)
    → ancestors_on_from caps p n k ≡ true
    → (j : ℕ) → n ≤ j
    → j < n + k
    → Passes caps (take j p)
unfolding ancestors_on_from
way_sound caps p n zero h j lo hi = absurd (omega arith)
way_sound caps p n (suc k) h j lo hi = elim (Bool-cases (j == n)) [
  | inl e ↦
      let same : j ≡ n = ground arith in
      (passes_iff caps (take j p)).0 (
        subst (λ i. passes caps (take i p) ≡ true) (sym same)
          (ground (arith, passes-prefix caps p n)))
  | inr e ↦ way_sound caps p (n + 1) k (ground arith) j (ground arith) (omega arith)
]

way_complete :
    (caps : List Cap) (p : List Str) (n k : ℕ)
    → ((j : ℕ) → n ≤ j → j < n + k → Passes caps (take j p))
    → ancestors_on_from caps p n k ≡ true
unfolding ancestors_on_from
way_complete caps p n zero h = refl
way_complete caps p n (suc k) h =
    let here = (passes_iff caps (take n p)).1 (h n (omega arith) (omega arith)) in
    let rest = way_complete caps p (n + 1) k (λ j lo hi. h j (omega arith) (omega arith)) in
    ground (arith, passes-prefix caps p n, here, rest)

leaf_iff :
    (caps : List Cap) (p : List Str) (m : Option Str) (want : Perm)
    → (leaf_on caps p m want ≡ ok tt) ↔ LeafGranted caps p m want
unfolding leaf_on
leaf_iff caps p none want = (
  (λ h. (has_perm_on_iff caps p none want).0 (ground arith)),
  (λ g. ground (arith, (has_perm_on_iff caps p none want).1 g)),
)
leaf_iff caps p (some m) want = (
  (λ h. (
    (has_perm_on_iff caps p none read).0 (ground arith),
    (has_perm_on_iff caps p (some m) want).0 (ground arith),
  )),
  (λ g. ground (
    arith,
    (has_perm_on_iff caps p none read).1 g.0,
    (has_perm_on_iff caps p (some m) want).1 g.1,
  )),
)

-- A capability that grants something makes the list non-empty.
not_empty_of_leaf :
    (caps : List Cap) (p : List Str) (m : Option Str) (want : Perm)
    → LeafGranted caps p m want
    → is_empty caps ≡ false
not_empty_of_leaf [] p none want g = absurd g
not_empty_of_leaf [] p (some m) want g = absurd g.0
not_empty_of_leaf (c ∷ caps) p m want g = refl

-- Once the alias is resolved, a request is allowed exactly when every proper non-empty prefix of its
-- path has a capability with R (for the object or a method of it) and the leaf is granted: what is
-- wanted on the object, or R on the object and what is wanted on the method.
pub check_path_on_iff :
    (who : Caller) (caps : List Cap) (cs : List Str) (m : Option Str) (want : Perm)
    (canon : Option (List Str))
    → canonicalize_proc_alias who cs ≡ ok canon
    → (check_path_on who (some caps) cs m want ≡ ok tt) ↔ Allowed caps (or_self canon cs) m want
unfolding check_path_on has_ancestor_r_on
check_path_on_iff who caps cs m want canon e = (sound, complete)
  where
    p : List Str
    p = or_self canon cs

    sound : check_path_on who (some caps) cs m want ≡ ok tt → Allowed caps p m want
    sound h = record {
      way = λ n lo hi.
          way_sound caps p 1 (length p - 1) (ground (arith, e)) n (omega arith) (omega arith);
      leaf = (leaf_iff caps p m want).0 (ground (arith, e));
    }

    complete : Allowed caps p m want → check_path_on who (some caps) cs m want ≡ ok tt
    complete a = ground (
      arith,
      e,
      not_empty_of_leaf caps p m want a.leaf,
      (leaf_iff caps p m want).1 a.leaf,
      way_complete caps p 1 (length p - 1) (λ j lo hi. a.way j (omega arith) (omega arith)),
    )
