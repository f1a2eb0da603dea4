-- ===== src/Mm/Heap/Arena.antt =====
-- kernel/src/mm/heap.rs: how `heap_grow` reserves addresses for a chunk, from the top of the arena down,
-- and gives them back when it finds no frames. The heap is not locked in between, so several calls
-- have reserved at a time.
pub mod Layout
use bedrock_stack.Base.{
  ℕ, zero, suc, ◌+◌, ◌-◌, ◌*◌, ◌^◌, ◌≤◌, ◌<◌, ◌≡◌, refl, ◌⊎◌, inl, inr, Bool, true, false, ◌||◌,
  Option, none, some, List, [], ◌∷◌, if◌then◌else◌, ltb, leb, ◌==◌,
}

-- 0xFFFFFFFFB8000000
abbrev pub heap_top : ℕ
heap_top = 18446744072501592064

-- 0xFFFFFFFF90000000
abbrev pub heap_floor : ℕ
heap_floor = 18446744071830503424

abbrev pub heap_guard_bytes : ℕ
heap_guard_bytes = 4096

-- `u64::MAX`, before the first chunk.
abbrev pub no_chunk : ℕ
no_chunk = 2 ^ 64 - 1

-- What a call keeps of its reservation.
pub record Chunk : Type 0 where
  pub start : ℕ
  pub size : ℕ
  pub old_low : ℕ

-- The lowest address, and the chunks that are reserved or mapped, the last one first.
pub record Arena : Type 0 where
  pub low : ℕ
  pub chunks : List Chunk

unfoldable pub place_below : ℕ → ℕ → Option ℕ
place_below low size =
    if low == no_chunk
    then if ltb heap_top size || ltb (heap_top - size) heap_floor
      then none
      else some (heap_top - size)
    else if ltb low heap_guard_bytes
        || ltb (low - heap_guard_bytes) size
        || ltb (low - heap_guard_bytes - size) heap_floor
    then none
    else some (low - heap_guard_bytes - size)

-- The number of pages, as the reservation of `heap_grow`: `none` where there is no room.
unfoldable pub reserve : ℕ → Arena → Option Arena
unfolding place_below
reserve count a =
    if leb (2 ^ 64) (count * 4096) then none else elim (place_below a.low (count * 4096)) [
      | none ↦ none
      | some low ↦ some (record {
        low = low;
        chunks = record { start = low; size = count * 4096; old_low = a.low } ∷ a.chunks;
      })
    ]

abbrev pub remove_at : ℕ → List Chunk → List Chunk
remove_at i [] = []
remove_at zero (c ∷ rest) = rest
remove_at (suc i) (c ∷ rest) = c ∷ remove_at i rest

abbrev pub chunk_at : ℕ → List Chunk → Option Chunk
chunk_at i [] = none
chunk_at zero (c ∷ rest) = some c
chunk_at (suc i) (c ∷ rest) = chunk_at i rest

-- The call that reserved the chunk at `i` found no frames for it.
unfoldable pub rollback : ℕ → Arena → Arena
rollback i a = elim (chunk_at i a.chunks) [
  | none ↦ a
  | some c ↦ record {
    low = if a.low == c.start then c.old_low else a.low;
    chunks = remove_at i a.chunks;
  }
]

-- What the calls of `heap_grow` can make of the arena. A chunk that is mapped is not given back by the
-- code; the relation allows that too.
pub data Reach : Arena → Type 0 where
  empty : Reach (record { low = no_chunk; chunks = [] })
  reserves : (count : ℕ) (a b : Arena) → Reach a → reserve count a ≡ some b → Reach b
  rolls_back : (i : ℕ) (a : Arena) → Reach a → Reach (rollback i a)
