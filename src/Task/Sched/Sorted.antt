-- ===== src/Task/Sched/Sorted.antt =====
-- kernel/src/task/mod.rs: SLEEPING is in the order of the deadlines, and a search in it.
use bedrock_stack.Base.{
  ℕ, zero, suc, ◌≤◌, ◌≡◌, refl, Bool, true, false, ◌&&◌, List, [], ◌∷◌, ◌++◌, leb, arith,
}
use bedrock_stack.Task.Sched.{Parked, left, up_to, beyond, remove_entry}
use bedrock_stack.Task.Sched.Switch.{insert_at}

abbrev pub all_from : ℕ → List Parked → Bool
all_from d [] = true
all_from d (e ∷ l) = leb d e.key && all_from d l

abbrev pub is_sorted : List Parked → Bool
is_sorted [] = true
is_sorted (e ∷ l) = all_from e.key l && is_sorted l

-- What `binary_search_by` is documented to answer on a sorted list, whether the deadline is found or not.
abbrev pub is_place : ℕ → ℕ → List Parked → Bool
is_place d zero l = all_from d l
is_place d (suc i) [] = false
is_place d (suc i) (e ∷ l) = leb e.key d && is_place d i l

all_from-insert_at :
    (d i : ℕ) (e : Parked) (l : List Parked)
    → d ≤ e.key
    → all_from d l ≡ true
    → all_from d (insert_at i e l) ≡ true
all_from-insert_at d zero e l h a = ground (arith, h, a)
all_from-insert_at d (suc i) e [] h a = ground (arith, h)
all_from-insert_at d (suc i) e (x ∷ l) h a =
    let rest = all_from-insert_at d i e l h (ground (arith, a)) in ground (arith, rest, a)

pub is_sorted-insert_at :
    (i : ℕ) (e : Parked) (l : List Parked)
    → is_place e.key i l ≡ true
    → is_sorted l ≡ true
    → is_sorted (insert_at i e l) ≡ true
is_sorted-insert_at zero e l h a = ground (arith, h, a)
is_sorted-insert_at (suc i) e [] h a = refl
is_sorted-insert_at (suc i) e (x ∷ l) h a =
    let rest = is_sorted-insert_at i e l (ground (arith, h)) (ground (arith, a)) in
    let all = all_from-insert_at x.key i e l (ground (arith, h)) (ground (arith, a)) in
    ground (arith, rest, all)

all_from-remove_entry :
    (d p : ℕ) (l : List Parked) → all_from d l ≡ true → all_from d (remove_entry p l) ≡ true
all_from-remove_entry d p [] a = refl
all_from-remove_entry d p (e ∷ l) a =
    let rest = all_from-remove_entry d p l (ground (arith, a)) in ground (arith, rest, a)

pub is_sorted-remove_entry :
    (p : ℕ) (l : List Parked) → is_sorted l ≡ true → is_sorted (remove_entry p l) ≡ true
is_sorted-remove_entry p [] a = refl
is_sorted-remove_entry p (e ∷ l) a =
    let rest = is_sorted-remove_entry p l (ground (arith, a)) in
    let all = all_from-remove_entry e.key p l (ground (arith, a)) in ground (arith, rest, all, a)

all_from-left :
    (d : ℕ) (test : Parked → Bool) (l : List Parked)
    → all_from d l ≡ true
    → all_from d (left test l) ≡ true
all_from-left d test [] a = refl
all_from-left d test (e ∷ l) a =
    let rest = all_from-left d test l (ground (arith, a)) in ground (arith, rest, a)

pub is_sorted-left :
    (test : Parked → Bool) (l : List Parked) → is_sorted l ≡ true → is_sorted (left test l) ≡ true
is_sorted-left test [] a = refl
is_sorted-left test (e ∷ l) a =
    let rest = is_sorted-left test l (ground (arith, a)) in
    let all = all_from-left e.key test l (ground (arith, a)) in ground (arith, rest, all)

-- What a wake-up leaves of the list.
abbrev pub kept_of : (Parked → Bool) → ℕ → List Parked → List Parked
kept_of test now l = left test (up_to now l) ++ beyond now l

all_from-beyond :
    (d now : ℕ) (l : List Parked) → all_from d l ≡ true → all_from d (beyond now l) ≡ true
all_from-beyond d now [] a = refl
all_from-beyond d now (e ∷ l) a =
    let rest = all_from-beyond d now l (ground (arith, a)) in ground (arith, rest, a)

all_from-kept_of :
    (d now : ℕ) (test : Parked → Bool) (l : List Parked)
    → all_from d l ≡ true
    → all_from d (kept_of test now l) ≡ true
all_from-kept_of d now test [] a = refl
all_from-kept_of d now test (e ∷ l) a =
    let rest = all_from-kept_of d now test l (ground (arith, a)) in ground (arith, rest, a)

pub is_sorted-kept_of :
    (now : ℕ) (test : Parked → Bool) (l : List Parked)
    → is_sorted l ≡ true
    → is_sorted (kept_of test now l) ≡ true
is_sorted-kept_of now test [] a = refl
is_sorted-kept_of now test (e ∷ l) a =
    let rest = is_sorted-kept_of now test l (ground (arith, a)) in
    let all = all_from-kept_of e.key now test l (ground (arith, a)) in ground (arith, rest, all, a)
