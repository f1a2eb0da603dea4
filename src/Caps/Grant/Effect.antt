-- ===== src/Caps/Grant/Effect.antt =====
-- What a grant changes (kernel/src/caps/mod.rs, kernel/src/task/mod.rs).
use bedrock_stack.Base.{
  ◌≢◌, Option-cases, ℕ, ◌≡◌, refl, inl, inr, Bool, ◌&&◌, ◌||◌, Option, none, some, List, [], ◌∷◌,
  ◌++◌, Str, str_eq, opt_eq, str_eq_iff, opt_eq_iff, arith, ok, Bool-cases, Result-cases,
}
use bedrock_stack.Caps.{Perm, Cap, covers}
use bedrock_stack.Caps.Lookup.{has_perm}
use bedrock_stack.Caps.Validate.{validate_cap}
use bedrock_stack.Caps.Grant.{
  Holder, Visit, absent, kept, raised, behind, visit, finish, finish_valid, grant_held,
  grant_to_current, do_grant_to, do_grant, grant_cap, change,
}

abbrev pub caps_of : Option (List Cap) → List Cap
caps_of none = []
caps_of (some caps) = caps

-- The rights that one capability adds.
abbrev pub gives : Cap → Str → Option Str → Perm → Bool
gives c path method want = str_eq c.path path && opt_eq c.method method && covers c.perm want

has_perm-snoc :
    (caps : List Cap) (c : Cap) (q : Str) (m : Option Str) (w : Perm)
    → has_perm (caps ++ (c ∷ [])) q m w ≡ (has_perm caps q m w || gives c q m w)
unfolding has_perm
has_perm-snoc [] c q m w = ground arith
has_perm-snoc (d ∷ caps) c q m w = ground (arith, has_perm-snoc caps c q m w)

-- The list after the loop, if the loop settles the grant.
abbrev after : List Cap → Cap → Visit → List Cap
after caps c absent = caps ++ (c ∷ [])
after caps c kept = caps
after caps c (raised caps') = caps'

after-behind :
    (d c : Cap) (caps : List Cap) (v : Visit) → after (d ∷ caps) c (behind d v) ≡ d ∷ after caps c v
after-behind d c caps absent = refl
after-behind d c caps kept = refl
after-behind d c caps (raised caps') = refl

-- The rights after the loop are the old ones and those of the new capability.
has_perm-visit :
    (caps : List Cap) (c : Cap) (q : Str) (m : Option Str) (w : Perm)
    → has_perm (after caps c (visit caps c.path c.method c.perm)) q m w
      ≡ (has_perm caps q m w || gives c q m w)
unfolding has_perm visit
has_perm-visit [] c q m w = ground arith
has_perm-visit (d ∷ caps) c q m w =
    elim (Bool-cases (str_eq d.path c.path && opt_eq d.method c.method)) [
      | inl hit ↦
          let ep : d.path ≡ c.path = (str_eq_iff d.path c.path).0 (ground arith) in
          let em : d.method ≡ c.method = (opt_eq_iff d.method c.method).0 (ground arith) in
          ground (arith, ep, em)
      | inr miss ↦
          let v = visit caps c.path c.method c.perm in
          rw (miss, visit)
            (rw (after-behind d c caps v) (ground (arith, has_perm-visit caps c q m w)))
    ]

caps-finish :
    (t : Holder) (caps : List Cap) (c : Cap) (v : Visit) (t' : Holder)
    → t.caps ≡ some caps
    → finish t caps c v ≡ ok t'
    → caps_of t'.caps ≡ after caps c v
unfolding finish
caps-finish t caps c absent t' e h = ground arith
caps-finish t caps c kept t' e h = ground arith
caps-finish t caps c (raised caps') t' e h = ground arith

grant_held-rights :
    (t : Holder) (frame : Option ℕ) (old : Option (List Cap)) (c : Cap) (t' : Holder) (q : Str)
    (m : Option Str) (w : Perm)
    → t.caps ≡ old
    → grant_held t frame old c ≡ ok t'
    → has_perm (caps_of t'.caps) q m w ≡ (has_perm (caps_of old) q m w || gives c q m w)
unfolding grant_held
grant_held-rights t none none c t' q m w e h = absurd (ground arith)
grant_held-rights t (some phys) none c t' q m w e h =
    let same : t'.caps ≡ some (c ∷ []) = ground arith in rw same (unfold has_perm in ground arith)
grant_held-rights t frame (some caps) c t' q m w e h =
    let v = visit caps c.path c.method c.perm in
    rw (caps-finish t caps c v t' e (ground arith)) (has_perm-visit caps c q m w)

-- A grant to the current task that succeeds adds exactly the rights of the new capability: every
-- right held before is still held, and nothing else is.
pub grant_to_current-rights :
    (frame : Option ℕ) (t t' : Holder) (c : Cap) (q : Str) (m : Option Str) (w : Perm)
    → grant_to_current frame t c ≡ ok t'
    → has_perm (caps_of t'.caps) q m w ≡ (has_perm (caps_of t.caps) q m w || gives c q m w)
unfolding grant_to_current
grant_to_current-rights frame t t' c q m w h = grant_held-rights t frame t.caps c t' q m w refl h

caps-finish_valid :
    (t : Holder) (caps : List Cap) (c : Cap) (v : Visit)
    → t.caps ≡ some caps
    → caps_of (finish_valid t caps c v).caps ≡ after caps c v
unfolding finish_valid
caps-finish_valid t caps c absent e = refl
caps-finish_valid t caps c kept e = rw e
caps-finish_valid t caps c (raised caps') e = refl

do_grant_to-rights :
    (t t' : Holder) (caps : List Cap) (c : Cap) (q : Str) (m : Option Str) (w : Perm)
    → t.caps ≡ some caps
    → do_grant_to t caps c ≡ ok t'
    → has_perm (caps_of t'.caps) q m w ≡ (has_perm caps q m w || gives c q m w)
unfolding do_grant_to
do_grant_to-rights t t' caps c q m w e h =
    let v = visit caps c.path c.method c.perm in
    let same : t' ≡ finish_valid t caps c v = ground arith in
    rw (same, caps-finish_valid t caps c v e) (has_perm-visit caps c q m w)

do_grant-rights :
    (t t' : Holder) (frame : Option ℕ) (old : Option (List Cap)) (c : Cap) (q : Str)
    (m : Option Str) (w : Perm)
    → t.caps ≡ old
    → do_grant t frame old c ≡ ok t'
    → has_perm (caps_of t'.caps) q m w ≡ (has_perm (caps_of old) q m w || gives c q m w)
unfolding do_grant
do_grant-rights t t' none none c q m w e h = absurd (ground arith)
do_grant-rights t t' (some phys) none c q m w e h =
    do_grant_to-rights (record { caps = some []; phys = phys; window = [] }) t' [] c q m w refl h
do_grant-rights t t' frame (some caps) c q m w e h = do_grant_to-rights t t' caps c q m w e h

-- What a grant by pid that succeeds is made of.
pub grant_cap-inv :
    (frame : Option ℕ) (tasks tasks' : ℕ → Option Holder) (pid : ℕ) (c : Cap)
    → grant_cap frame tasks pid c ≡ ok tasks'
    → (t t' : Holder) × (tasks pid ≡ some t)
      × (do_grant t frame t.caps c ≡ ok t')
      × (validate_cap c ≡ ok tt)
      × (tasks' ≡ change pid t' tasks)
unfolding grant_cap
grant_cap-inv frame tasks tasks' pid c h = elim (Result-cases (validate_cap c)) [
  | inr (x, e) ↦ absurd (ground (arith, h, e))
  | inl (u, e) ↦ elim (Option-cases (tasks pid)) [
    | inl n ↦ absurd (ground (arith, h, e, n))
    | inr (t, n) ↦ elim (Result-cases (do_grant t frame t.caps c)) [
      | inr (x, d) ↦ absurd (ground (arith, h, e, n, d))
      | inl (t', d) ↦ (t, t', n, d, e, ground (arith, h, e, n, d))
    ]
  ]
]

-- A grant by pid that succeeds is one of a valid capability to a task that exists. It adds exactly the
-- rights of the capability to this task: every right the task held is still held, and nothing else is.
-- No other task changes.
pub grant_cap-rights :
    (frame : Option ℕ) (tasks tasks' : ℕ → Option Holder) (pid : ℕ) (c : Cap) (q : Str)
    (m : Option Str) (w : Perm)
    → grant_cap frame tasks pid c ≡ ok tasks'
    → (t t' : Holder) × (tasks pid ≡ some t)
      × (tasks' pid ≡ some t')
      × (validate_cap c ≡ ok tt)
      × (has_perm (caps_of t'.caps) q m w ≡ (has_perm (caps_of t.caps) q m w || gives c q m w))
      × ((p : ℕ) → p ≢ pid → tasks' p ≡ tasks p)
grant_cap-rights frame tasks tasks' pid c q m w h =
    let (t, t', n, d, e, s) = grant_cap-inv frame tasks tasks' pid c h in
    (
      t,
      t',
      n,
      rw s (ground arith),
      e,
      do_grant-rights t t' frame t.caps c q m w refl d,
      λ p ne. rw s (ground (arith, ne)),
    )
