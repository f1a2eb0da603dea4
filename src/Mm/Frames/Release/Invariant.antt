-- ===== src/Mm/Frames/Release/Invariant.antt =====
-- What allocation, release and reservation keep (kernel/src/mm/phys_alloc.rs).
use bedrock_stack.Base.{
  Bool, ◌*◌, ◌⊎◌, ◌==◌, min, none, if◌then◌else◌, ℕ, zero, suc, ◌+◌, ◌-◌, ◌/◌, ◌^◌, ◌≤◌, ◌<◌, ◌≡◌,
  inl, inr, refl, true, false, not, ◌&&◌, some, ltb, arith, Bool-cases, Option-cases,
}
use bedrock_stack.Mm.Frames.{Frames, set_bit, page, is_reserved_frame}
use bedrock_stack.Mm.Frames.Count.Bits.{
  free_below, free_below-le, free_below-take, free_below-release,
}
use bedrock_stack.Mm.Frames.Alloc.{alloc, take_frame, search_frame, hand_out}
use bedrock_stack.Mm.Frames.Alloc.Sound.{
  CursorIn, IsAvailable, search-IsAvailable, alloc-IsAvailable,
}
use bedrock_stack.Mm.Frames.Release.{
  release, free, reserve_one, reserve_from, reserve_region, end_frame,
}

-- The free count is exact, the cursor and its hint are one and lie in the bitmap, and the reserved
-- frames are marked used. A 64-bit address space has fewer than 2^52 frames.
pub record IsValid (s : Frames) : Type 0 where
  pub small : s.total ≤ 2 ^ 52
  pub counted : s.free_count ≡ free_below s.used s.total
  pub cursor_in : s.next_free ≤ s.total
  pub hinted : s.hint ≡ s.next_free
  pub reserved : (i : ℕ) → i < s.total → is_reserved_frame s i ≡ true → s.used i ≡ true

take-IsValid : (s : Frames) (idx : ℕ) → IsValid s → IsAvailable s idx → IsValid (take_frame s idx)
unfolding take_frame is_reserved_frame
take-IsValid s idx v a = record {
  small = v.small;
  counted = omega (
    arith,
    v.small,
    v.counted,
    free_below-take s.used idx s.total a.managed a.free,
    free_below-le s.used s.total,
  );
  cursor_in = omega (arith, a.managed);
  hinted = refl;
  reserved = λ i h r. ground (arith, v.reserved i h r);
}

CursorIn-of_IsValid : (s : Frames) → IsValid s → CursorIn s
CursorIn-of_IsValid s v = record {
  hint_in = omega (arith, v.hinted, v.cursor_in);
  next_in = v.cursor_in;
}

-- `alloc` keeps the allocator valid, whether it finds a frame or not: the free count stays exact, the
-- cursor inside the bitmap and the reserved frames used.
pub alloc-IsValid : (s : Frames) → IsValid s → IsValid (alloc s).1
unfolding alloc hand_out
alloc-IsValid s v = elim (Option-cases (search_frame s)) [
  | inl e ↦ rw (e, hand_out) v
  | inr (i, e) ↦
      rw (e, hand_out) (take-IsValid s i v (search-IsAvailable s i (CursorIn-of_IsValid s v) e))
]

release-IsValid :
    (s : Frames) (idx : ℕ)
    → IsValid s
    → idx < s.total
    → is_reserved_frame s idx ≡ false
    → s.used idx ≡ true
    → IsValid (release s idx)
unfolding release is_reserved_frame
release-IsValid s idx v h n u = record {
  small = v.small;
  counted = omega (
    arith,
    v.small,
    v.counted,
    free_below-release s.used idx s.total h u,
    free_below-le s.used s.total,
  );
  cursor_in = ground (arith, v.cursor_in);
  hinted = ground (arith, v.hinted);
  reserved = λ i k r. ground (arith, v.reserved i k r);
}

-- `free` on each of its branches: an address beyond the managed memory changes nothing; nor does one of a
-- reserved frame (frame 0 or one of the kernel image), which in a debug build fails an assertion; any other
-- frame that is in use becomes free, no other frame's bit changes, the free count goes up by one, the
-- cursor goes back to the frame if it stood behind it, and the allocator stays valid.
pub free-IsValid :
    (debug : Bool) (s : Frames) (addr idx : ℕ)
    → IsValid s
    → idx ≡ addr / 4096
    → s.used idx ≡ true
    → (s.total ≤ idx → free debug s addr ≡ some s)
      × (idx < s.total
          → (idx ≡ 0) ⊎ ((s.kernel_start ≤ idx * 4096) × (idx * 4096 < s.kernel_end))
          → free debug s addr ≡ (if debug then none else some s))
      × (idx < s.total
          → 0 < idx
          → (idx * 4096 < s.kernel_start) ⊎ (s.kernel_end ≤ idx * 4096)
          → (t : Frames) × (free debug s addr ≡ some t)
            × IsValid t
            × ((i : ℕ) → t.used i ≡ (s.used i && not (i == idx)))
            × (t.free_count ≡ s.free_count + 1)
            × (t.next_free ≡ min idx s.next_free)
            × (t.total ≡ s.total))
unfolding free release is_reserved_frame
free-IsValid debug s addr idx v e u = (
  λ out. ground (arith, out, e),
  λ inside r. ground (arith, inside, r, e),
  λ inside positive outside.
      let n : is_reserved_frame s idx ≡ false = ground (arith, positive, outside) in
      let counts = free_below-release s.used idx s.total inside u in
      let some_used = free_below-le (set_bit false idx s.used) s.total in
      (
        release s idx,
        ground (arith, inside, n, e),
        release-IsValid s idx v inside n u,
        λ i. ground arith,
        omega (arith, v.small, v.counted, counts, some_used),
        ground arith,
        refl,
      ),
)

reserve_one-IsValid : (s : Frames) (frame : ℕ) → IsValid s → IsValid (reserve_one s frame)
unfolding reserve_one is_reserved_frame
reserve_one-IsValid s frame v = elim (Bool-cases (ltb frame s.total && not (s.used frame))) [
  | inr no_change ↦ rw no_change v
  | inl e ↦ rw e (record {
    small = v.small;
    counted = omega (
      arith,
      v.small,
      v.counted,
      free_below-take s.used frame s.total (ground arith) (ground arith),
      free_below-le s.used s.total,
    );
    cursor_in = v.cursor_in;
    hinted = v.hinted;
    reserved = λ i h r. ground (arith, v.reserved i h r);
  })
]

reserve_from-IsValid : (s : Frames) (frame n : ℕ) → IsValid s → IsValid (reserve_from s frame n)
unfolding reserve_from
reserve_from-IsValid s frame zero v = v
reserve_from-IsValid s frame (suc n) v =
    reserve_from-IsValid (reserve_one s frame) (frame + 1) n (reserve_one-IsValid s frame v)

-- Reserving any region keeps the allocator valid, also where the region reaches beyond the bitmap or
-- is reserved in part already.
pub reserve_region-IsValid :
    (s : Frames) (start end : ℕ) → IsValid s → IsValid (reserve_region s start end)
unfolding reserve_region
reserve_region-IsValid s start end v =
    reserve_from-IsValid s (start / page) (end_frame s.total end - start / page) v

-- Freeing the frame that an allocation has just returned gives back the bitmap and the free count.
pub free-alloc :
    (debug : Bool) (s s' : Frames) (addr i : ℕ)
    → IsValid s
    → alloc s ≡ (some addr, s')
    → (t : Frames) × (free debug s' addr ≡ some t)
      × (t.used i ≡ s.used i)
      × (t.free_count ≡ s.free_count)
unfolding free release take_frame is_reserved_frame
free-alloc debug s s' addr i v h =
    let (idx, q, a, e) = alloc-IsAvailable s s' addr (CursorIn-of_IsValid s v) h in
    let back : addr / page ≡ idx = omega (arith, q) in
    let outside = a.unreserved in
    let inside = a.managed in
    let was = a.free in
    let counts = free_below-take s.used idx s.total a.managed a.free in
    let fits = free_below-le s.used s.total in
    let small = v.small in
    let counted = v.counted in
    let reserved : is_reserved_frame s idx ≡ false = outside in
    (
      release (take_frame s idx) idx,
      rw (e, back) (ground (arith, inside, outside)),
      ground (arith, was),
      omega (arith, counts, fits, small, counted),
    )
