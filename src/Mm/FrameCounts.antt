-- ===== src/Mm/FrameCounts.antt =====
-- kernel/src/mm/framecnt.rs: the reference counts of shared frames. The table of counts is absent until
-- the first share. An atomic update is one step, so a loop that repeats a failed exchange is the
-- exchange that succeeds.
pub mod Ledger
mod Tests
use bedrock_stack.Base.{
  ℕ, ◌+◌, ◌-◌, ◌*◌, ◌/◌, ◌%◌, ◌^◌, Bool, true, false, ◌&&◌, ◌||◌, Option, none, some, List, [], ◌∷◌,
  ◌++◌, if◌then◌else◌, ltb, leb, ◌==◌,
}

pub record Table : Type 0 where
  pub total : ℕ
  pub at : ℕ → ℕ

-- `phys >> 12`.
abbrev pub frame : ℕ → ℕ
frame phys = phys / 4096

-- The table, made with a zero for each frame where there is none.
unfoldable pub table : ℕ → Option Table → Table
table total none = record { total = total; at = λ i. 0 }
table total (some t) = t

unfoldable pub slot : Table → ℕ → Option ℕ
slot t phys = if ltb (frame phys) t.total then some (t.at (frame phys)) else none

unfoldable pub slot_of : Option Table → ℕ → Option ℕ
unfolding slot
slot_of none phys = none
slot_of (some t) phys = slot t phys

unfoldable pub put : ℕ → ℕ → Table → Table
put phys count t = record t { at = λ i. if i == frame phys then count else t.at i }

abbrev pub put_some : ℕ → ℕ → Option Table → Option Table
unfolding put
put_some phys count none = none
put_some phys count (some t) = some (put phys count t)

unfoldable pub share_frame : ℕ → ℕ → Option Table → Option Table
unfolding table slot put
share_frame total phys s = elim (slot (table total s) phys) [
  | none ↦ some (table total s)
  | some cur ↦ some (put phys (if cur == 0 then 2 else (cur + 1) % 2 ^ 32) (table total s))
]

unfoldable pub is_sole_owner : ℕ → Option Table → Bool
unfolding slot_of
is_sole_owner phys s = elim (slot_of s phys) [ none ↦ true | some cur ↦ (cur == 0) || (cur == 1) ]

-- The table afterwards, and whether the frame is given to the allocator.
unfoldable pub decref_or_free : ℕ → Option Table → Option Table × Bool
unfolding slot_of put_some
decref_or_free phys s = elim (slot_of s phys) [
  | none ↦ (s, true)
  | some cur ↦ if cur == 0 then (s, true) else (put_some phys (cur - 1) s, cur == 1)
]

-- The exchange of 1 for 0.
unfoldable pub privatize : ℕ → Option Table → Option Table
unfolding slot_of put_some
privatize phys s = elim (slot_of s phys) [
  | none ↦ s
  | some cur ↦ if cur == 1 then put_some phys 0 s else s
]

-- The first step of `unshare`, and whether the second one follows.
unfoldable pub unshare_step : ℕ → Option Table → Option Table × Bool
unfolding slot_of put_some
unshare_step phys s = elim (slot_of s phys) [
  | none ↦ (s, false)
  | some cur ↦ if leb 2 cur then (put_some phys (cur - 1) s, cur == 2) else (s, false)
]

unfoldable pub unshare : ℕ → Option Table → Option Table
unfolding unshare_step privatize
unshare phys s = let (t, last) = unshare_step phys s in if last then privatize phys t else t

-- An atomic step of one of the callers: `untrack` is that of `privatize` and the second one of
-- `unshare`.
pub data Event : Type 0 where
  share : ℕ → Event
  decref : ℕ → Event
  unshare_first : ℕ → Event
  untrack : ℕ → Event

-- One step, with the frame it gives to the allocator.
unfoldable pub step : ℕ → Event → Option Table → Option Table × List ℕ
unfolding share_frame decref_or_free unshare_step privatize
step total (share phys) s = (share_frame total phys s, [])
step total (decref phys) s =
    let (t, freed) = decref_or_free phys s in (t, if freed then phys ∷ [] else [])
step total (unshare_first phys) s = ((unshare_step phys s).0, [])
step total (untrack phys) s = (privatize phys s, [])

-- The steps in the order in which they take effect, and the frames given to the allocator.
unfoldable pub run : ℕ → List Event → Option Table → Option Table × List ℕ
unfolding step
run total [] s = (s, [])
run total (e ∷ events) s =
    let one = step total e s in let rest = run total events one.0 in (rest.0, one.1 ++ rest.1)
