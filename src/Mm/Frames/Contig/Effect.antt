-- ===== src/Mm/Frames/Contig/Effect.antt =====
-- What contiguous allocation returns, and that its search ends (kernel/src/mm/phys_alloc.rs).
use bedrock_stack.Base.{
  leb, ◌&&◌, ◌^◌, ◌⊎◌, ℕ, zero, suc, ◌+◌, ◌-◌, ◌*◌, ◌%◌, ◌≤◌, ◌<◌, ◌≡◌, ◌≢◌, refl, sym, ap, ◌∙◌,
  inl, inr, Bool, true, false, not, ◌||◌, none, some, if◌then◌else◌, ltb, ◌==◌, arith, Option-cases,
  ok,
}
use bedrock_stack.Mm.Frames.{set_range, Frames, page, range_overlaps_kernel}
use bedrock_stack.Mm.Frames.Alloc.{start_idx}
use bedrock_stack.Mm.Frames.Alloc.Sound.{CursorIn}
use bedrock_stack.Mm.Frames.Contig.{
  Request, Round, found, again, gave_up, wrap, round, take_run, search_run, serve,
  alloc_contig_core, is_power_of_two, rounds,
}
use bedrock_stack.Mm.Frames.Contig.Search.{Window, find_run}
use bedrock_stack.Mm.Frames.Contig.Run.{find_run-IsPlace}

abbrev window : Frames → ℕ → ℕ → Window
window s lo hi = record { used = s.used; total = s.total; lo = lo; hi = hi }

-- The rounds that are left: those of this window, and those of the one after the wrap.
abbrev left : Frames → ℕ → ℕ → Bool → ℕ
left s lo hi t = hi - lo + 1 + (if t then 0 else s.total + 2)

-- A round that goes on leaves fewer rounds, and keeps the window within the bitmap.
round_decreases :
    (s : Frames) (q : Request) (lo hi lo' hi' : ℕ) (t t' : Bool)
    → 0 < q.align
    → start_idx s ≤ s.total
    → hi ≤ s.total
    → round s q lo hi t ≡ again lo' hi' t'
    → (hi' ≤ s.total) × (left s lo' hi' t' < left s lo hi t)
unfolding round wrap
round_decreases s q lo hi lo' hi' t t' pos st h e =
    elim (Option-cases (find_run (window s lo hi) q.count q.align)) [
      | inl n ↦ ground (arith, n, e)
      | inr (r, n) ↦
          let p = find_run-IsPlace (window s lo hi) q.count q.align pos r n in
          ground (arith, n, p, e)
    ]

search_run_ends :
    (s : Frames) (q : Request) (n lo hi : ℕ) (t : Bool)
    → 0 < q.align
    → start_idx s ≤ s.total
    → hi ≤ s.total
    → left s lo hi t ≤ n
    → search_run s q n lo hi t ≢ none
unfolding search_run
search_run_ends s q zero lo hi t pos st h k e = omega arith
search_run_ends s q (suc n) lo hi t pos st h k e =
    go (round s q lo hi t) refl (λ lo' hi' t'. search_run_ends s q n lo' hi' t' pos st)
  where
    go :
        (r : Round)
        → round s q lo hi t ≡ r
        → ((lo' hi' : ℕ) (t' : Bool)
            → hi' ≤ s.total
            → left s lo' hi' t' ≤ n
            → search_run s q n lo' hi' t' ≢ none)
        → ⊥
    go (found r) z rest = ground (arith, z, e)
    go gave_up z rest = ground (arith, z, e)
    go (again lo' hi' t') z rest =
        let (a, b) = round_decreases s q lo hi lo' hi' t t' pos st h z in
        rest lo' hi' t' a (omega (arith, b, k)) (ground (arith, z, e))

-- The search of a contiguous allocation ends within the rounds given, if the cursor lies in the bitmap:
-- the kernel's loop terminates.
pub search_run_terminates :
    (s : Frames) (q : Request)
    → CursorIn s
    → 0 < q.align
    → q.hi_cap ≤ s.total
    → search_run s q (rounds s) (start_idx s) q.hi_cap false ≢ none
unfolding start_idx
search_run_terminates s q c pos h =
    search_run_ends s q (rounds s) (start_idx s) q.hi_cap false pos
      (omega (arith, c.hint_in, c.next_in)) h (omega (arith, c.hint_in, c.next_in))

round-found :
    (s : Frames) (q : Request) (lo hi : ℕ) (t : Bool) (r : ℕ)
    → 0 < q.align
    → round s q lo hi t ≡ found r
    → (r % q.align ≡ 0) × (range_overlaps_kernel s r q.count ≡ false)
unfolding round wrap
round-found s q lo hi t r pos e = elim (Option-cases (find_run (window s lo hi) q.count q.align)) [
  | inl n ↦ absurd (ground (arith, n, e))
  | inr (b, n) ↦
      let p = find_run-IsPlace (window s lo hi) q.count q.align pos b n in
      let same : b ≡ r = ground (arith, n, e) in
      (ap (λ k. k % q.align) (sym same) ∙ p.1, ground (arith, n, e))
]

-- What a run that is found satisfies.
search_run-found :
    (s : Frames) (q : Request) (n lo hi : ℕ) (t : Bool) (r : ℕ)
    → 0 < q.align
    → search_run s q n lo hi t ≡ some (some r)
    → (r % q.align ≡ 0) × (range_overlaps_kernel s r q.count ≡ false)
unfolding search_run
search_run-found s q zero lo hi t r pos e = absurd (ground arith)
search_run-found s q (suc n) lo hi t r pos e =
    go (round s q lo hi t) refl (λ lo' hi' t'. search_run-found s q n lo' hi' t' r pos)
  where
    go :
        (o : Round)
        → round s q lo hi t ≡ o
        → ((lo' hi' : ℕ) (t' : Bool)
            → search_run s q n lo' hi' t' ≡ some (some r)
            → (r % q.align ≡ 0) × (range_overlaps_kernel s r q.count ≡ false))
        → (r % q.align ≡ 0) × (range_overlaps_kernel s r q.count ≡ false)
    go (found b) z rest =
        let same : b ≡ r = ground (arith, z, e) in round-found s q lo hi t r pos (z ∙ ap found same)
    go gave_up z rest = absurd (ground (arith, z, e))
    go (again lo' hi' t') z rest = rest lo' hi' t' (ground (arith, z, e))

-- What a contiguous allocation returns, by the functions it is made of.
pub contig_found :
    (s s' : Frames) (q : Request) (addr : ℕ)
    → alloc_contig_core s q ≡ (ok addr, s')
    → (r : ℕ) × (addr ≡ r * page)
      × (r % q.align ≡ 0)
      × (range_overlaps_kernel s r q.count ≡ false)
      × (s' ≡ take_run s r q.count)
unfolding alloc_contig_core serve
contig_found s s' q addr e =
    let sane : ((q.count == 0) || ltb s.total q.count || ltb q.hi_cap q.count) ≡ false =
      ground (arith, e) in
    let power : ((q.align == 0) || not (is_power_of_two q.align)) ≡ false = ground (arith, e) in
    elim (Option-cases (search_run s q (rounds s) (start_idx s) q.hi_cap false)) [
      | inl n ↦ absurd (ground (arith, e))
      | inr (none, n) ↦ absurd (ground (arith, e))
      | inr (some r, n) ↦
          let (a, k) =
            search_run-found s q (rounds s) (start_idx s) q.hi_cap false r (ground arith) n in
          (r, ground (arith, e), a, k, ground (arith, e))
    ]

marked :
    (r n : ℕ) (bits : ℕ → Bool) (i : ℕ)
    → set_range true r n bits i ≡ (bits i || (leb r i && ltb i (r + n)))
unfolding set_range
marked r n bits i = ground arith

-- A contiguous allocation that succeeds returns the address of a range of `count` frames that is aligned
-- as asked, does not begin with frame 0 and does not meet the kernel image. Afterwards the frames of the
-- range are in use, no other frame's bit has changed, the cursor and its hint stand behind the range, and
-- the free count is lower by `count`.
pub contig_sound :
    (s s' : Frames) (q : Request) (addr : ℕ)
    → alloc_contig_core s q ≡ (ok addr, s')
    → (r : ℕ) × (addr ≡ r * 4096)
      × (0 < r)
      × (r % q.align ≡ 0)
      × ((addr + q.count * 4096 ≤ s.kernel_start) ⊎ (s.kernel_end ≤ addr))
      × ((i : ℕ) → s'.used i ≡ (s.used i || (leb r i && ltb i (r + q.count))))
      × (s'.next_free ≡ r + q.count)
      × (s'.hint ≡ r + q.count)
      × (s'.free_count ≡ (s.free_count + 2 ^ 64 - q.count) % 2 ^ 64)
      × (s'.total ≡ s.total)
unfolding take_run range_overlaps_kernel
contig_sound s s' q addr h =
    let (r, e, a, k, t) = contig_found s s' q addr h in
    (
      r,
      e,
      ground (arith, k),
      a,
      ground (arith, k, e),
      rw t (λ i. marked r q.count s.used i),
      rw t refl,
      rw t refl,
      rw t refl,
      rw t refl,
    )
