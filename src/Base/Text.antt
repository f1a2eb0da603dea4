-- ===== src/Base/Text.antt =====
-- Byte strings: a Rust `str` is the list of its UTF-8 bytes. Equality, `split` and `join`.
use Prim.Native.Nat.{zero, suc, ℕ}
use mathlib.Core.Path.{◌≡◌, refl, ap, ◌∙◌}
use mathlib.Core.Logic.{◌≢◌, ◌↔◌, inl, inr}
use mathlib.Core.Bool.{Bool, true, false, ◌&&◌}
use mathlib.Core.List.{List, [], ◌∷◌, ◌++◌}
use mathlib.Core.Option.{Option, none, some}
use native.Mathlib.Omega.{arith}
use bedrock_stack.Base.Tests.{◌==◌, if◌then◌else◌, Bool-cases, ==_iff}
use bedrock_stack.Base.Lists.{any, All, take, drop}

abbrev pub Str : Type 0
Str = List ℕ

-- `a == b` on byte strings.
unfoldable pub str_eq : Str → Str → Bool
str_eq [] [] = true
str_eq [] (y ∷ t) = false
str_eq (x ∷ s) [] = false
str_eq (x ∷ s) (y ∷ t) = (x == y) && str_eq s t

pub str_eq_self : (s : Str) → str_eq s s ≡ true
unfolding str_eq
str_eq_self [] = refl
str_eq_self (x ∷ s) = ground (arith, str_eq_self s)

pub eq_of_str_eq : (s t : Str) → str_eq s t ≡ true → s ≡ t
unfolding str_eq
eq_of_str_eq [] [] h = refl
eq_of_str_eq [] (y ∷ t) h = cc
eq_of_str_eq (x ∷ s) [] h = cc
eq_of_str_eq (x ∷ s) (y ∷ t) h = ground (arith, eq_of_str_eq s t)

pub str_eq_iff : (s t : Str) → (str_eq s t ≡ true) ↔ (s ≡ t)
str_eq_iff s t = (eq_of_str_eq s t, λ e. rw e (str_eq_self t))

-- Equality of sequences of strings, as `Iterator::eq` has it.
unfoldable pub seq_eq : List Str → List Str → Bool
seq_eq [] [] = true
seq_eq [] (y ∷ t) = false
seq_eq (x ∷ s) [] = false
seq_eq (x ∷ s) (y ∷ t) = str_eq x y && seq_eq s t

seq_eq_self : (s : List Str) → seq_eq s s ≡ true
unfolding seq_eq
seq_eq_self [] = refl
seq_eq_self (x ∷ s) = ground (arith, str_eq_self x, seq_eq_self s)

eq_of_seq_eq : (s t : List Str) → seq_eq s t ≡ true → s ≡ t
unfolding seq_eq
eq_of_seq_eq [] [] h = refl
eq_of_seq_eq [] (y ∷ t) h = cc
eq_of_seq_eq (x ∷ s) [] h = cc
eq_of_seq_eq (x ∷ s) (y ∷ t) h = ground (arith, eq_of_str_eq x y, eq_of_seq_eq s t)

pub seq_eq_iff : (s t : List Str) → (seq_eq s t ≡ true) ↔ (s ≡ t)
seq_eq_iff s t = (eq_of_seq_eq s t, λ e. rw e (seq_eq_self t))

-- Equality of `Option<&str>`.
unfoldable pub opt_eq : Option Str → Option Str → Bool
opt_eq none none = true
opt_eq none (some t) = false
opt_eq (some s) none = false
opt_eq (some s) (some t) = str_eq s t

pub opt_eq_iff : (s t : Option Str) → (opt_eq s t ≡ true) ↔ (s ≡ t)
unfolding opt_eq
opt_eq_iff none none = (λ _. refl, λ _. refl)
opt_eq_iff none (some t) = (λ h. cc, λ h. cc)
opt_eq_iff (some s) none = (λ h. cc, λ h. cc)
opt_eq_iff (some s) (some t) =
    (λ h. ap some (eq_of_str_eq s t h), λ e. ground (arith, str_eq_self s))

abbrev cons_first : ℕ → List Str → List Str
cons_first x [] = (x ∷ []) ∷ []
cons_first x (w ∷ ws) = (x ∷ w) ∷ ws

-- `s.split(c)`: the pieces between the occurrences of `c`, empty ones included; never none.
unfoldable pub split : ℕ → Str → List Str
split c [] = [] ∷ []
split c (x ∷ s) = let rest = split c s in if x == c then [] ∷ rest else cons_first x rest

-- `parts.join(c)`.
unfoldable pub join : ℕ → List Str → Str
join c [] = []
join c (w ∷ []) = w
join c (w ∷ v ∷ ws) = w ++ (c ∷ join c (v ∷ ws))

-- `s.contains(c)` for a single byte.
unfoldable pub contains : ℕ → Str → Bool
contains c s = any (λ x. x == c) s

-- A piece of a path: not empty, and without the separator.
abbrev pub IsPiece : ℕ → Str → Type 0
IsPiece c w = (w ≢ []) × (contains c w ≡ false)

pub split-ne-nil : (c : ℕ) (s : Str) → split c s ≢ []
unfolding split
split-ne-nil c [] = λ e. cc
split-ne-nil c (x ∷ s) = elim (Bool-cases (x == c)) [
  | inl e ↦ rw e (λ h. cc)
  | inr e ↦ rw e (cons_first-ne-nil x (split c s))
]
  where
    cons_first-ne-nil : (y : ℕ) (ws : List Str) → cons_first y ws ≢ []
    cons_first-ne-nil y [] = λ h. cc
    cons_first-ne-nil y (w ∷ ws) = λ h. cc

join-cons_first : (c x : ℕ) (ws : List Str) → ws ≢ [] → join c (cons_first x ws) ≡ x ∷ join c ws
unfolding join
join-cons_first c x [] h = absurd (h refl)
join-cons_first c x (w ∷ []) h = refl
join-cons_first c x (w ∷ v ∷ ws) h = refl

join-nil_cons : (c : ℕ) (ws : List Str) → ws ≢ [] → join c ([] ∷ ws) ≡ c ∷ join c ws
unfolding join
join-nil_cons c [] h = absurd (h refl)
join-nil_cons c (w ∷ ws) h = refl

-- Joining what `split` returns gives the text back.
pub join-split : (c : ℕ) (s : Str) → join c (split c s) ≡ s
unfolding split
join-split c [] = unfold join in refl
join-split c (x ∷ s) = elim (Bool-cases (x == c)) [
  | inl e ↦
      rw e
        (rw (join-nil_cons c (split c s) (split-ne-nil c s), join-split c s, (==_iff x c).0 e) refl)
  | inr e ↦ rw e (rw (join-cons_first c x (split c s) (split-ne-nil c s), join-split c s) refl)
]

-- A text without the separator is its own only piece; one with a piece before it splits there.
pub split-free : (c : ℕ) (w : Str) → contains c w ≡ false → split c w ≡ w ∷ []
unfolding split contains
split-free c [] h = refl
split-free c (x ∷ w) h = ground (arith, split-free c w)

pub split-append :
    (c : ℕ) (w s : Str) → contains c w ≡ false → split c (w ++ (c ∷ s)) ≡ w ∷ split c s
unfolding split contains
split-append c [] s h = ground (arith)
split-append c (x ∷ w) s h = ground (arith, split-append c w s)

-- Splitting joined pieces gives the pieces back.
pub split-join :
    (c : ℕ) (ws : List Str)
    → ws ≢ []
    → All (λ w. contains c w ≡ false) ws
    → split c (join c ws) ≡ ws
unfolding join
split-join c [] h a = absurd (h refl)
split-join c (w ∷ []) h a = split-free c w a.0
split-join c (w ∷ v ∷ ws) h a =
    split-append c w (join c (v ∷ ws)) a.0 ∙ ap (λ r. w ∷ r) (split-join c (v ∷ ws) (λ e. cc) a.1)

All-cons_first :
    (c x : ℕ) (ws : List Str)
    → (x == c) ≡ false
    → All (λ w. contains c w ≡ false) ws
    → All (λ w. contains c w ≡ false) (cons_first x ws)
unfolding contains
All-cons_first c x [] h a = (ground arith, tt)
All-cons_first c x (w ∷ ws) h a = (ground (arith, a.0), a.1)

-- No piece holds the separator.
pub All-split : (c : ℕ) (s : Str) → All (λ w. contains c w ≡ false) (split c s)
unfolding split
All-split c [] = (unfold contains in refl, tt)
All-split c (x ∷ s) = elim (Bool-cases (x == c)) [
  | inl e ↦ rw e (unfold contains in refl, All-split c s)
  | inr e ↦ rw e (All-cons_first c x (split c s) e (All-split c s))
]

pub contains-take : (c n : ℕ) (s : Str) → contains c s ≡ false → contains c (take n s) ≡ false
unfolding contains
contains-take c zero s h = refl
contains-take c (suc n) [] h = refl
contains-take c (suc n) (x ∷ s) h = ground (arith, contains-take c n s)

pub contains-drop : (c n : ℕ) (s : Str) → contains c s ≡ false → contains c (drop n s) ≡ false
unfolding contains
contains-drop c zero s h = h
contains-drop c (suc n) [] h = refl
contains-drop c (suc n) (x ∷ s) h = contains-drop c n s (ground arith)

pub contains-append :
    (c : ℕ) (s t : Str) → contains c s ≡ false → contains c t ≡ false → contains c (s ++ t) ≡ false
unfolding contains
contains-append c [] t h k = k
contains-append c (x ∷ s) t h k = ground (arith, contains-append c s t)
