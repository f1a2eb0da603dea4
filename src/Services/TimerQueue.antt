-- ===== src/Services/TimerQueue.antt =====
-- kernel/src/services/timer_queue.rs: the pending timers, ordered by their deadlines. The binary heap is
-- the list of its entries; its greatest entry, by the reversed order, is one of the least deadline.
pub mod Drain
mod Tests
use bedrock_stack.Base.{
  ℕ, zero, suc, ◌+◌, Bool, true, false, not, ◌&&◌, Option, none, some, List, [], ◌∷◌, ◌++◌,
  if◌then◌else◌, leb, ◌==◌, length, filter,
}

-- `callback` and `context` are addresses.
pub record TimerEntry : Type 0 where
  pub id : ℕ
  pub deadline : ℕ
  pub period : Option ℕ
  pub callback : ℕ
  pub context : ℕ

-- `self >= other` by the reversed comparison of the deadlines.
abbrev pub is_above : TimerEntry → TimerEntry → Bool
is_above a b = leb a.deadline b.deadline

pub record TimerQueue : Type 0 where
  pub heap : List TimerEntry

-- `BinaryHeap::pop`, without the order of the rest, which the heap does not promise.
unfoldable pub heap_pop : List TimerEntry → Option (TimerEntry × List TimerEntry)
heap_pop [] = none
heap_pop (e ∷ es) = elim (heap_pop es) [
  | none ↦ some (e, [])
  | some (m, rest) ↦ if is_above e m then some (e, es) else some (m, e ∷ rest)
]

abbrev pub new : TimerQueue
new = record { heap = [] }

abbrev pub len : TimerQueue → ℕ
len q = length q.heap

abbrev pub is_empty : TimerQueue → Bool
is_empty q = len q == 0

abbrev pub insert : TimerQueue → TimerEntry → TimerQueue
insert q entry = record { heap = entry ∷ q.heap }

-- `heap.retain(|e| e.id != id)`, and whether the length has changed.
unfoldable pub cancel : TimerQueue → ℕ → Bool × TimerQueue
cancel q id =
    let kept = filter (λ e. not (e.id == id)) q.heap in
    (not (length kept == length q.heap), record { heap = kept })

-- The loop of `remove` over the drained heap.
unfoldable pub take_out :
    ℕ → List TimerEntry → Option TimerEntry → Option TimerEntry × List TimerEntry
take_out id [] found = (found, [])
take_out id (e ∷ es) none =
    let hit = take_out id es (some e) in
    let miss = take_out id es none in if e.id == id then hit else (miss.0, e ∷ miss.1)
take_out id (e ∷ es) (some f) = let (found, rest) = take_out id es (some f) in (found, e ∷ rest)

unfoldable pub remove : TimerQueue → ℕ → Option TimerEntry × TimerQueue
unfolding take_out
remove q id = let (found, rest) = take_out id q.heap none in (found, record { heap = rest })

unfoldable pub next_deadline : TimerQueue → Option ℕ
unfolding heap_pop
next_deadline q = elim (heap_pop q.heap) [ none ↦ none | some (m, rest) ↦ some m.deadline ]

-- The loop of `drain_expired`: every round but the last takes an entry out.
unfoldable pub drain : ℕ → ℕ → List TimerEntry → List TimerEntry × List TimerEntry
unfolding heap_pop
drain now zero heap = ([], heap)
drain now (suc n) heap = elim (heap_pop heap) [
  | none ↦ ([], heap)
  | some (m, rest) ↦
      let (fired, left) = drain now n rest in
      if leb m.deadline now then (m ∷ fired, left) else ([], heap)
]

unfoldable pub drain_expired : TimerQueue → ℕ → List TimerEntry × TimerQueue
unfolding drain
drain_expired q now =
    let (fired, left) = drain now (len q) q.heap in (fired, record { heap = left })
