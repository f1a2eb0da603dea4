-- ===== src/Caps/Grant/Invariant.antt =====
-- What every grant keeps: valid capabilities, their bound, and a window that shows them
-- (kernel/src/caps/mod.rs, kernel/src/task/mod.rs).
use bedrock_stack.Base.{
  ℕ, ◌≤◌, ◌≡◌, refl, ◌⊎◌, inl, inr, false, ◌&&◌, Option, none, some, List, [], ◌∷◌, ◌++◌, Str,
  str_eq, opt_eq, length, length-append, ◌==◌, leb, arith, All, All-append, ok, Bool-cases,
  Result-cases,
}
use bedrock_stack.Caps.{Perm, Cap, covers, max_caps_per_task}
use bedrock_stack.Caps.Validate.{validate_cap}
use bedrock_stack.Caps.Grant.{
  Holder, Visit, absent, kept, raised, behind, visit, finish, finish_valid, grant_held,
  grant_to_current, do_grant_to, do_grant, grant_cap, store,
}
use bedrock_stack.Caps.Grant.Effect.{caps_of, grant_cap-inv}

abbrev pub AllValid : List Cap → Type 0
AllValid = All (λ c. validate_cap c ≡ ok tt)

-- At most 8192 capabilities, each valid, and the window, if there is one, mirrors the list.
pub record IsValid (t : Holder) : Type 0 where
  pub bounded : length (caps_of t.caps) ≤ max_caps_per_task
  pub valid : AllValid (caps_of t.caps)
  pub mirrored : (t.phys ≡ 0) ⊎ (t.window ≡ caps_of t.caps)

-- What the loop puts back is as long and as valid as what it found.
abbrev Fine : List Cap → Visit → Type 0
Fine caps absent = Unit
Fine caps kept = Unit
Fine caps (raised caps') = (length caps' ≡ length caps) × AllValid caps'

Fine-behind :
    (c : Cap) (caps : List Cap) (v : Visit)
    → validate_cap c ≡ ok tt
    → Fine caps v
    → Fine (c ∷ caps) (behind c v)
Fine-behind c caps absent h f = tt
Fine-behind c caps kept h f = tt
Fine-behind c caps (raised caps') h f = (omega arith, (h, f.1))

Fine-visit :
    (caps : List Cap) (p : Str) (m : Option Str) (w : Perm)
    → AllValid caps
    → Fine caps (visit caps p m w)
unfolding visit
Fine-visit [] p m w a = tt
Fine-visit (d ∷ caps) p m w a = elim (Bool-cases (str_eq d.path p && opt_eq d.method m)) [
  | inl hit ↦ elim (Bool-cases (covers d.perm w)) [
    | inl c ↦ rw (hit, visit) (rw c tt)
    | inr c ↦ rw (hit, visit) (rw c (refl, (unfold validate_cap in a.0, a.1)))
  ]
  | inr miss ↦
      rw (miss, visit) (Fine-behind d caps (visit caps p m w) a.0 (Fine-visit caps p m w a.1))
]

store-IsValid :
    (t : Holder) (caps : List Cap)
    → length caps ≤ max_caps_per_task
    → AllValid caps
    → IsValid (store t caps)
store-IsValid t caps b a = record {
  bounded = b;
  valid = a;
  mirrored = elim (Bool-cases (t.phys == 0)) [
    | inl z ↦ inl (ground arith)
    | inr nz ↦ inr (rw nz refl)
  ];
}

snoc-IsValid :
    (t : Holder) (caps : List Cap) (c : Cap)
    → leb max_caps_per_task (length caps) ≡ false
    → AllValid caps
    → validate_cap c ≡ ok tt
    → IsValid (store t (caps ++ (c ∷ [])))
snoc-IsValid t caps c room a h =
    store-IsValid t (caps ++ (c ∷ [])) (ground (arith, length-append caps (c ∷ [])))
      (All-append (λ d. validate_cap d ≡ ok tt) caps (c ∷ []) a (h, tt))

finish-IsValid :
    (t : Holder) (caps : List Cap) (c : Cap) (v : Visit) (t' : Holder)
    → IsValid t
    → leb max_caps_per_task (length caps) ≡ false
    → AllValid caps
    → Fine caps v
    → finish t caps c v ≡ ok t'
    → IsValid t'
unfolding finish
finish-IsValid t caps c absent t' i room a f h = elim (Result-cases (validate_cap c)) [
  | inl (_, e) ↦
      let same : t' ≡ store t (caps ++ (c ∷ [])) = ground (arith, e) in
      rw same (snoc-IsValid t caps c room a e)
  | inr (x, e) ↦ absurd (ground (arith, e))
]
finish-IsValid t caps c kept t' i room a f h = let same : t' ≡ t = ground arith in rw same i
finish-IsValid t caps c (raised caps') t' i room a f h =
    let same : t' ≡ store t caps' = ground arith in
    rw same (store-IsValid t caps' (ground (arith, f.0)) f.1)

grant_held-IsValid :
    (t : Holder) (frame : Option ℕ) (old : Option (List Cap)) (c : Cap) (t' : Holder)
    → t.caps ≡ old
    → IsValid t
    → grant_held t frame old c ≡ ok t'
    → IsValid t'
unfolding grant_held
grant_held-IsValid t none none c t' e i h = absurd (ground arith)
grant_held-IsValid t (some phys) none c t' e i h = elim (Result-cases (validate_cap c)) [
  | inl (_, v) ↦
      let same : t' ≡ record { caps = some (c ∷ []); phys = phys; window = c ∷ [] } =
        ground (arith, v) in
      rw same (record { bounded = omega arith; valid = (v, tt); mirrored = inr refl })
  | inr (x, v) ↦ absurd (ground (arith, v))
]
grant_held-IsValid t frame (some caps) c t' e i h =
    let a : AllValid caps = rw e at i.valid in
    finish-IsValid t caps c (visit caps c.path c.method c.perm) t' i (ground arith) a
      (Fine-visit caps c.path c.method c.perm a) (ground arith)

-- A grant to the current task keeps the task's capabilities valid, within their bound, and mirrored in
-- its window.
pub grant_to_current-IsValid :
    (frame : Option ℕ) (t t' : Holder) (c : Cap)
    → IsValid t
    → grant_to_current frame t c ≡ ok t'
    → IsValid t'
unfolding grant_to_current
grant_to_current-IsValid frame t t' c i h = grant_held-IsValid t frame t.caps c t' refl i h

finish_valid-IsValid :
    (t : Holder) (caps : List Cap) (c : Cap) (v : Visit)
    → IsValid t
    → leb max_caps_per_task (length caps) ≡ false
    → AllValid caps
    → validate_cap c ≡ ok tt
    → Fine caps v
    → IsValid (finish_valid t caps c v)
unfolding finish_valid
finish_valid-IsValid t caps c absent i room a h f = snoc-IsValid t caps c room a h
finish_valid-IsValid t caps c kept i room a h f = i
finish_valid-IsValid t caps c (raised caps') i room a h f =
    store-IsValid t caps' (ground (arith, f.0)) f.1

do_grant_to-IsValid :
    (t t' : Holder) (caps : List Cap) (c : Cap)
    → IsValid t
    → AllValid caps
    → validate_cap c ≡ ok tt
    → do_grant_to t caps c ≡ ok t'
    → IsValid t'
unfolding do_grant_to
do_grant_to-IsValid t t' caps c i a v h =
    let w = visit caps c.path c.method c.perm in
    let same : t' ≡ finish_valid t caps c w = ground arith in
    rw same (
      finish_valid-IsValid t caps c w i (ground arith) a v
        (Fine-visit caps c.path c.method c.perm a))

do_grant-IsValid :
    (t t' : Holder) (frame : Option ℕ) (old : Option (List Cap)) (c : Cap)
    → t.caps ≡ old
    → IsValid t
    → validate_cap c ≡ ok tt
    → do_grant t frame old c ≡ ok t'
    → IsValid t'
unfolding do_grant
do_grant-IsValid t t' none none c e i v h = absurd (ground arith)
do_grant-IsValid t t' (some phys) none c e i v h =
    do_grant_to-IsValid (record { caps = some []; phys = phys; window = [] }) t' [] c
      (record { bounded = omega arith; valid = tt; mirrored = inr refl }) tt v h
do_grant-IsValid t t' frame (some caps) c e i v h =
    do_grant_to-IsValid t t' caps c i (rw e at i.valid) v h

-- A grant by pid keeps the task it names valid.
pub grant_cap-IsValid :
    (frame : Option ℕ) (tasks tasks' : ℕ → Option Holder) (pid : ℕ) (c : Cap)
    → ((t : Holder) → tasks pid ≡ some t → IsValid t)
    → grant_cap frame tasks pid c ≡ ok tasks'
    → (t' : Holder) × (tasks' pid ≡ some t') × IsValid t'
grant_cap-IsValid frame tasks tasks' pid c i h =
    let (t, t', n, d, e, s) = grant_cap-inv frame tasks tasks' pid c h in
    (t', rw s (ground arith), do_grant-IsValid t t' frame t.caps c refl (i t n) e d)
