-- ===== src/Caps/Validate/Subset.antt =====
-- A spawned child gets no more than its parent holds (kernel/src/caps/mod.rs, `is_subset`;
-- kernel/src/unispace/provider/proc.rs).
use bedrock_stack.Base.{
  ◌≤◌, ◌≡◌, refl, inl, inr, true, Option, none, some, List, [], ◌∷◌, Str, opt_eq_iff, str_eq_iff,
  arith, All, ok, Result-cases, Any, length,
}
use bedrock_stack.Caps.{Perm, read, read_write, Cap, Caller, covers, max_caps_per_task}
use bedrock_stack.Caps.Alias.{canonicalize_proc_alias}
use bedrock_stack.Caps.Lookup.{has_perm, segs}
use bedrock_stack.Caps.Check.{check_path_on}
use bedrock_stack.Caps.Check.Meaning.{Grants, Passes, LeafGranted, check_path_on_iff}
use bedrock_stack.Caps.Validate.{is_subset, spawn_caps, validate_all, validate_cap}

covers_trans : (a b c : Perm) → covers a b ≡ true → covers b c ≡ true → covers a c ≡ true
covers_trans read_write b c h k = refl
covers_trans read read c h k = k
covers_trans read read_write c h k = cc

-- The capability of the parent behind one of the child's.
abbrev Behind : List Cap → Cap → Type 0
Behind parent c =
    Any (λ (d : Cap). (d.path ≡ c.path) × (d.method ≡ c.method) × (covers d.perm c.perm ≡ true))
      parent

Behind-of_perm :
    (parent : List Cap) (c : Cap) → has_perm parent c.path c.method c.perm ≡ true → Behind parent c
unfolding has_perm
Behind-of_perm [] c h = cc
Behind-of_perm (d ∷ parent) c h =
    ground (arith, Behind-of_perm parent c, str_eq_iff d.path c.path, opt_eq_iff d.method c.method)

All-Behind : (parent child : List Cap) → is_subset parent child ≡ true → All (Behind parent) child
unfolding is_subset
All-Behind parent [] h = tt
All-Behind parent (c ∷ child) h =
    (Behind-of_perm parent c (ground arith), All-Behind parent child (ground arith))

Grants-Behind :
    (parent : List Cap) (c : Cap) (p : List Str) (m : Option Str) (want : Perm)
    → Behind parent c
    → c.method ≡ m
    → segs c.path ≡ p
    → covers c.perm want ≡ true
    → Grants parent p m want
Grants-Behind [] c p m want b em ep ec = absurd b
Grants-Behind (d ∷ parent) c p m want (inl b) em ep ec =
    inl (ground arith, rw (b.0) ep, covers_trans d.perm c.perm want b.2 ec)
Grants-Behind (d ∷ parent) c p m want (inr b) em ep ec =
    inr (Grants-Behind parent c p m want b em ep ec)

Passes-Behind :
    (parent : List Cap) (c : Cap) (p : List Str)
    → Behind parent c
    → segs c.path ≡ p
    → covers c.perm read ≡ true
    → Passes parent p
Passes-Behind [] c p b ep ec = absurd b
Passes-Behind (d ∷ parent) c p (inl b) ep ec =
    inl (rw (b.0) ep, covers_trans d.perm c.perm read b.2 ec)
Passes-Behind (d ∷ parent) c p (inr b) ep ec = inr (Passes-Behind parent c p b ep ec)

Grants-mono :
    (parent child : List Cap) (p : List Str) (m : Option Str) (want : Perm)
    → All (Behind parent) child
    → Grants child p m want
    → Grants parent p m want
Grants-mono parent [] p m want a g = absurd g
Grants-mono parent (c ∷ child) p m want a (inl g) = Grants-Behind parent c p m want a.0 g.0 g.1 g.2
Grants-mono parent (c ∷ child) p m want a (inr g) = Grants-mono parent child p m want a.1 g

Passes-mono :
    (parent child : List Cap) (p : List Str)
    → All (Behind parent) child
    → Passes child p
    → Passes parent p
Passes-mono parent [] p a g = absurd g
Passes-mono parent (c ∷ child) p a (inl g) = Passes-Behind parent c p a.0 g.0 g.1
Passes-mono parent (c ∷ child) p a (inr g) = Passes-mono parent child p a.1 g

LeafGranted-mono :
    (parent child : List Cap) (p : List Str) (m : Option Str) (want : Perm)
    → All (Behind parent) child
    → LeafGranted child p m want
    → LeafGranted parent p m want
LeafGranted-mono parent child p none want a g = Grants-mono parent child p none want a g
LeafGranted-mono parent child p (some m) want a g =
    (Grants-mono parent child p none read a g.0, Grants-mono parent child p (some m) want a g.1)

-- A subset allows no request that the whole does not allow.
pub is_subset-check :
    (who : Caller) (parent child : List Cap) (cs : List Str) (m : Option Str) (want : Perm)
    → is_subset parent child ≡ true
    → check_path_on who (some child) cs m want ≡ ok tt
    → check_path_on who (some parent) cs m want ≡ ok tt
is_subset-check who parent child cs m want s h =
    elim (Result-cases (canonicalize_proc_alias who cs)) [
      | inl (canon, e) ↦
          let all = All-Behind parent child s in
          let a = (check_path_on_iff who child cs m want canon e).0 h in
          (check_path_on_iff who parent cs m want canon e).1 (record {
            way = λ n lo hi. Passes-mono parent child _ all (a.way n lo hi);
            leaf = LeafGranted-mono parent child _ m want all a.leaf;
          })
      | inr (x, e) ↦ absurd (unfold check_path_on in ground (arith, e))
    ]

validate_all-ok :
    (caps : List Cap) → validate_all caps ≡ ok tt → All (λ c. validate_cap c ≡ ok tt) caps
unfolding validate_all
validate_all-ok [] h = tt
validate_all-ok (c ∷ caps) h = elim (Result-cases (validate_cap c)) [
  | inl (_, e) ↦ (e, validate_all-ok caps (ground (arith, e)))
  | inr (x, e) ↦ absurd (ground (arith, e))
]

-- A spawn that succeeds gives the child exactly the provided capabilities, at most 8192, each of them
-- valid.
pub spawn_caps-valid :
    (parent : Option (List Cap)) (provided child : List Cap)
    → spawn_caps parent provided ≡ ok child
    → (child ≡ provided)
      × (length child ≤ max_caps_per_task)
      × All (λ c. validate_cap c ≡ ok tt) child
unfolding spawn_caps
spawn_caps-valid parent provided child h = elim (Result-cases (validate_all provided)) [
  | inl (_, v) ↦
      let same : child ≡ provided = ground (arith, v) in
      rw same (refl, ground (arith, v), validate_all-ok provided (ground (arith, v)))
  | inr (x, v) ↦ absurd (ground (arith, v))
]

-- No escalation: whatever request the capabilities of a spawned child allow, those of its parent allow
-- it too.
pub spawn_no_escalation :
    (parent provided child : List Cap) (who : Caller) (cs : List Str) (m : Option Str) (want : Perm)
    → spawn_caps (some parent) provided ≡ ok child
    → check_path_on who (some child) cs m want ≡ ok tt
    → check_path_on who (some parent) cs m want ≡ ok tt
unfolding spawn_caps
spawn_no_escalation parent provided child who cs m want h k =
    elim (Result-cases (validate_all provided)) [
      | inl (_, v) ↦ is_subset-check who parent child cs m want (ground (arith, v)) k
      | inr (x, v) ↦ absurd (ground (arith, v))
    ]
