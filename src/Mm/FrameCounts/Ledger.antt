-- ===== src/Mm/FrameCounts/Ledger.antt =====
-- kernel/src/mm/framecnt.rs: the table counts the owners of each frame.
use bedrock_stack.Base.{
  ℕ, ◌+◌, ◌-◌, ◌^◌, ◌≤◌, ◌<◌, ◌≡◌, refl, sym, Option, none, some, List, [], ◌∷◌, ◌++◌,
  if◌then◌else◌, leb, ◌==◌, arith, All, length, subst,
}
use bedrock_stack.Mm.FrameCounts.{
  Table, frame, table, slot, slot_of, put, share_frame, is_sole_owner, decref_or_free, privatize,
  unshare_step, unshare, Event, share, decref, unshare_first, untrack, step, run,
}

-- A frame without an entry has one owner.
abbrev pub owners : Option Table → ℕ → ℕ
owners none i = 1
owners (some t) i = if t.at i == 0 then 1 else t.at i

abbrev pub IsTable : ℕ → Option Table → Type 0
IsTable total none = Unit
IsTable total (some t) = t.total ≡ total

abbrev pub address : Event → ℕ
address (share phys) = phys
address (decref phys) = phys
address (unshare_first phys) = phys
address (untrack phys) = phys

-- The owners after a step, and the frame that has lost its last one. It goes back to the allocator,
-- and who gets it next is again its one owner.
abbrev pub owners_after : Event → ℕ → ℕ
owners_after (share phys) n = n + 1
owners_after (decref phys) n = if leb 2 n then n - 1 else n
owners_after (unshare_first phys) n = if leb 2 n then n - 1 else n
owners_after (untrack phys) n = n

abbrev pub freed_by : Event → ℕ → List ℕ
freed_by (decref phys) n = if leb 2 n then [] else phys ∷ []
freed_by (share phys) n = []
freed_by (unshare_first phys) n = []
freed_by (untrack phys) n = []

abbrev pub ledger_step : Event → (ℕ → ℕ) → ℕ → ℕ
ledger_step e f i = if i == frame (address e) then owners_after e (f i) else f i

-- The frames that lose their last owner in a sequence of steps.
abbrev pub ledger_run : List Event → (ℕ → ℕ) → List ℕ
ledger_run [] f = []
ledger_run (e ∷ events) f =
    freed_by e (f (frame (address e))) ++ ledger_run events (ledger_step e f)

-- A step keeps the table, does to the owners what the ledger does, and frees what the ledger frees.
abbrev pub Steps : ℕ → Event → Option Table → Type 0
Steps total e s =
    IsTable total (step total e s).0
    × ((i : ℕ) → owners (step total e s).0 i ≡ ledger_step e (owners s) i)
    × ((step total e s).1 ≡ freed_by e (owners s (frame (address e))))

step-Steps :
    (total : ℕ) (e : Event) (s : Option Table)
    → IsTable total s
    → frame (address e) < total
    → owners s (frame (address e)) + 1 < 2 ^ 32
    → Steps total e s
unfolding step share_frame decref_or_free unshare_step privatize slot_of slot put table
step-Steps total (share phys) none t b n = (ground (arith, b), λ i. ground (arith, b), refl)
step-Steps total (share phys) (some u) t b n =
    (ground (arith, t, b), λ i. ground (arith, t, b, n), refl)
step-Steps total (decref phys) none t b n = (tt, λ i. ground (arith), refl)
step-Steps total (decref phys) (some u) t b n =
    (ground (arith, t, b), λ i. ground (arith, t, b, n), ground (arith, t, b, n))
step-Steps total (unshare_first phys) none t b n = (tt, λ i. ground (arith), refl)
step-Steps total (unshare_first phys) (some u) t b n =
    (ground (arith, t, b), λ i. ground (arith, t, b, n), refl)
step-Steps total (untrack phys) none t b n = (tt, λ i. ground (arith), refl)
step-Steps total (untrack phys) (some u) t b n =
    (ground (arith, t, b), λ i. ground (arith, t, b, n), refl)

ledger_step_le :
    (e : Event) (f : ℕ → ℕ) (most : ℕ)
    → ((i : ℕ) → f i ≤ most)
    → (i : ℕ) → ledger_step e f i ≤ most + 1
ledger_step_le (share phys) f most m i = let h = m i in ground (arith, h)
ledger_step_le (decref phys) f most m i = let h = m i in ground (arith, h)
ledger_step_le (unshare_first phys) f most m i = let h = m i in ground (arith, h)
ledger_step_le (untrack phys) f most m i = let h = m i in ground (arith, h)

run_ledger_from :
    (total : ℕ) (events : List Event) (s : Option Table) (most : ℕ)
    → IsTable total s
    → All (λ e. frame (address e) < total) events
    → ((i : ℕ) → owners s i ≤ most)
    → most + length events < 2 ^ 32
    → (run total events s).1 ≡ ledger_run events (owners s)
unfolding run
run_ledger_from total [] s most t b m n = refl
run_ledger_from total (e ∷ events) s most t (b, bs) m n =
    let one = step-Steps total e s t b (omega (arith, m (frame (address e)), n)) in
    let next : owners (step total e s).0 ≡ ledger_step e (owners s) = λ i x. one.1 x i in
    let rest =
      run_ledger_from total events (step total e s).0 (most + 1) one.0 bs
        (λ i. subst (λ k. k ≤ most + 1) (sym (one.1 i)) (ledger_step_le e (owners s) most m i))
        (omega (arith, n)) in
    rw (one.2, rest, next) refl

-- From the start, when no frame is shared, less than 2 ^ 32 - 1 steps of the callers in whatever order,
-- on frames of the table, give the allocator exactly the frames that have lost their last owner, in that
-- order, where a share adds an owner, a release takes one away, and the step of a failed clone takes
-- away one that is not the last.
pub run_ledger :
    (total : ℕ) (events : List Event)
    → All (λ e. frame (address e) < total) events
    → length events + 1 < 2 ^ 32
    → (run total events none).1 ≡ ledger_run events (λ i. 1)
run_ledger total events b n =
    run_ledger_from total events none 1 tt b (λ i. omega arith) (omega (arith, n))

-- `is_sole_owner` answers true exactly where the frame has one owner, whether it is tracked or not, and
-- `unshare` takes away one owner of the frame unless it is the last, and none of any other frame.
pub unshare-owners :
    (total phys : ℕ) (s : Option Table)
    → IsTable total s
    → frame phys < total
    → (is_sole_owner phys s ≡ (owners s (frame phys) == 1))
      × ((i : ℕ) → owners (unshare phys s) i ≡ ledger_step (unshare_first phys) (owners s) i)
unfolding unshare is_sole_owner privatize unshare_step slot_of slot put
unshare-owners total phys none t b = (refl, λ i. ground (arith))
unshare-owners total phys (some u) t b = (ground (arith, t, b), λ i. ground (arith, t, b))
