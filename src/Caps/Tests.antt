-- ===== src/Caps/Tests.antt =====
-- The capability system at a small task (kernel/src/caps/mod.rs): R on `/a`, RW on `/a/b`, R on its
-- method `m`.
use bedrock_stack.Base.{
  ℕ, ◌≢◌, Option, ◌==◌, if◌then◌else◌, ◌≡◌, ◌↔◌, refl, inr, ◌||◌, none, some, List, [], ◌∷◌, Str,
  ok, err, contains, split, join, str_eq, opt_eq, seq_eq, arith, IsPiece,
}
use bedrock_stack.Unispace.{not_found, access_denied}
use bedrock_stack.Unispace.Path.{slash, segments}
use bedrock_stack.Caps.{read, read_write, Cap, Caller}
use bedrock_stack.Caps.Alias.{canonicalize_proc_alias}
use bedrock_stack.Caps.Lookup.{
  has_perm, has_perm_on, has_ancestor_r, join_path, has_ancestor_r_on, cap_matches_components,
  cap_matches_prefix,
}
use bedrock_stack.Caps.Lookup.Agree.{AllCanonical, Accompanied}
use bedrock_stack.Caps.Check.{check_path, check_path_on}
use bedrock_stack.Caps.Check.Divergence.{method_only, method_cap_traverses}
use bedrock_stack.Caps.Check.Meaning.{Allowed, check_path_on_iff}
use bedrock_stack.Caps.Validate.{validate_cap, is_subset, spawn_caps}
use bedrock_stack.Caps.Validate.Subset.{spawn_no_escalation}
use bedrock_stack.Caps.Grant.{Holder, change, grant_to_current, grant_cap}
use bedrock_stack.Caps.Grant.Effect.{caps_of, gives, grant_cap-rights}
use bedrock_stack.Caps.Grant.Invariant.{IsValid}

abbrev a : Str
a = b'a' ∷ []

abbrev b : Str
b = b'b' ∷ []

abbrev m : Str
m = b'm' ∷ []

abbrev a_b : List Str
a_b = a ∷ b ∷ []

abbrev who : Caller
who = record { pid = some 1; lineage = (2, 1) ∷ [] }

abbrev on_a : Cap
on_a = record { path = a; method = none; perm = read }

abbrev on_b : Cap
on_b = record { path = b'a' ∷ b'/' ∷ b'b' ∷ []; method = none; perm = read_write }

abbrev on_m : Cap
on_m = record on_b { method = some m; perm = read }

abbrev held : List Cap
held = on_a ∷ on_b ∷ on_m ∷ []

abbrev kept_only : List Cap
kept_only = on_a ∷ []

held-AllCanonical : AllCanonical held
unfolding segments split join
held-AllCanonical = (refl, (refl, (refl, tt)))

held-Accompanied : Accompanied held
unfolding has_perm_on cap_matches_components seq_eq opt_eq segments split str_eq
held-Accompanied = (refl, (refl, (refl, tt)))

a-IsPiece : IsPiece slash a
unfolding contains
a-IsPiece = ((λ e. cc), refl)

b-IsPiece : IsPiece slash b
unfolding contains
b-IsPiece = ((λ e. cc), refl)

write_b : check_path_on who (some held) a_b none read_write ≡ ok tt
unfolding check_path_on has_ancestor_r_on cap_matches_prefix has_perm_on cap_matches_components
    seq_eq opt_eq segments split str_eq canonicalize_proc_alias
write_b = refl

invoke_m : check_path_on who (some held) a_b (some m) read_write ≡ err access_denied
unfolding check_path_on has_ancestor_r_on cap_matches_prefix has_perm_on cap_matches_components
    seq_eq opt_eq segments split str_eq canonicalize_proc_alias
invoke_m = refl

no_alias : canonicalize_proc_alias who a_b ≡ ok none
unfolding canonicalize_proc_alias str_eq
no_alias = refl

read_text : check_path who (some held) a_b none read ≡ ok tt
unfolding check_path has_ancestor_r join_path has_perm join opt_eq str_eq canonicalize_proc_alias
read_text = refl

method_cap_traverses_example :
    (check_path_on who (some (method_only a b m)) a_b none read ≡ ok tt)
    × (check_path who (some (method_only a b m)) a_b none read ≡ err not_found)
method_cap_traverses_example = method_cap_traverses who a b m a-IsPiece b-IsPiece (λ e. cc)

check_path_on_iff_example :
    (check_path_on who (some held) a_b none read_write ≡ ok tt) ↔ Allowed held a_b none read_write
check_path_on_iff_example = check_path_on_iff who held a_b none read_write none no_alias

on_b-valid : validate_cap on_b ≡ ok tt
unfolding validate_cap contains split str_eq
on_b-valid = refl

on_a-valid : validate_cap on_a ≡ ok tt
unfolding validate_cap contains split str_eq
on_a-valid = refl

spawned : spawn_caps (some held) kept_only ≡ ok kept_only
unfolding spawn_caps validate_cap is_subset has_perm contains split str_eq opt_eq
spawned = refl

spawn_no_escalation_example : check_path_on who (some held) (a ∷ []) none read ≡ ok tt
spawn_no_escalation_example =
    spawn_no_escalation held kept_only kept_only who (a ∷ []) none read spawned (
      unfold check_path_on has_ancestor_r_on has_perm_on cap_matches_components seq_eq opt_eq
        segments split str_eq canonicalize_proc_alias in
      refl)

abbrev task : Holder
task = record { caps = some kept_only; phys = 4096; window = kept_only }

abbrev granted : Holder
granted = record { caps = some (on_a ∷ on_b ∷ []); phys = 4096; window = on_a ∷ on_b ∷ [] }

task-IsValid : IsValid task
task-IsValid = record { bounded = omega arith; valid = (on_a-valid, tt); mirrored = inr refl }

grant_b : grant_to_current none task on_b ≡ ok granted
unfolding grant_to_current validate_cap contains split str_eq opt_eq
grant_b = refl

-- The task alone, as pid 7.
abbrev only : Holder → ℕ → Option Holder
only t p = if p == 7 then some t else none

grant_b_by_pid : grant_cap none (only task) 7 on_b ≡ ok (change 7 granted (only task))
unfolding grant_cap validate_cap contains split str_eq opt_eq
grant_b_by_pid = refl

no_such_task : grant_cap none (only task) 8 on_b ≡ err not_found
unfolding grant_cap validate_cap contains split str_eq opt_eq
no_such_task = refl

grant_cap-rights_example :
    (t t' : Holder) × (only task 7 ≡ some t)
    × (change 7 granted (only task) 7 ≡ some t')
    × (validate_cap on_b ≡ ok tt)
    × (has_perm (caps_of t'.caps) on_b.path none read
        ≡ (has_perm (caps_of t.caps) on_b.path none read || gives on_b on_b.path none read))
    × ((p : ℕ) → p ≢ 7 → change 7 granted (only task) p ≡ only task p)
grant_cap-rights_example =
    grant_cap-rights none (only task) (change 7 granted (only task)) 7 on_b on_b.path none read
      grant_b_by_pid
