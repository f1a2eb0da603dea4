-- ===== src/Mm/Frames/Startup/Valid.antt =====
-- The allocator that `new` builds is valid (kernel/src/mm/phys_alloc.rs).
use bedrock_stack.Base.{
  ℕ, ◌+◌, ◌-◌, ◌*◌, ◌/◌, ◌^◌, ◌≤◌, ◌<◌, ◌≡◌, subst, inl, inr, refl, Bool, true, some, List, ltb,
  ◌==◌, arith, Bool-cases,
}
use bedrock_stack.Mm.Frames.{Frames, page, add64, set_range, is_reserved_frame}
use bedrock_stack.Mm.Frames.Count.Exact.{count_free_locked_lem}
use bedrock_stack.Mm.Frames.Release.Invariant.{IsValid}
use bedrock_stack.Mm.Frames.Startup.{
  find_max_addr, mark_bits, mark_region_used, first_bits, boot_bits, with_seeded_free_count,
  asserts, boot_state, built, new, page_up, page_down, bitmap_base, MemoryRegion,
}

mark_bits-marks :
    (base size total : ℕ) (bits : ℕ → Bool) (i : ℕ)
    → base + size < 2 ^ 63
    → base ≤ i * page
    → i * page < base + size
    → i < total
    → mark_bits true base size total bits i ≡ true
unfolding mark_bits set_range
mark_bits-marks base size total bits i small l r h = ground arith

mark_bits-keeps :
    (base size total : ℕ) (bits : ℕ → Bool) (i : ℕ)
    → bits i ≡ true
    → mark_bits true base size total bits i ≡ true
unfolding mark_bits set_range
mark_bits-keeps base size total bits i u = ground (arith, u)

boot_bits-zero :
    (map : List MemoryRegion) (total base ks ke : ℕ)
    → 0 < total
    → boot_bits map total base ks ke 0 ≡ true
unfolding boot_bits first_bits mark_region_used
boot_bits-zero map total base ks ke h = elim (Bool-cases (ltb ks ke)) [
  | inl e ↦
      rw e (mark_bits-keeps ks (ke - ks) total (first_bits map total base) 0 (ground (arith, h)))
  | inr e ↦ rw e (ground (arith, h))
]

boot_bits-kernel :
    (map : List MemoryRegion) (total base ks ke i : ℕ)
    → ke < 2 ^ 63
    → i < total
    → ks ≤ i * page
    → i * page < ke
    → boot_bits map total base ks ke i ≡ true
unfolding boot_bits mark_region_used
boot_bits-kernel map total base ks ke i small h l r =
    let proper : ltb ks ke ≡ true = ground arith in
    rw proper (
      mark_bits-marks ks (ke - ks) total (first_bits map total base) i (omega arith) l (omega arith)
        h)

built-IsValid :
    (base : ℕ) (map : List MemoryRegion) (kernel_start kernel_end : ℕ)
    → base ≤ find_max_addr map
    → find_max_addr map ≤ 2 ^ 62
    → kernel_end < 2 ^ 62
    → IsValid (built base map kernel_start kernel_end)
unfolding built boot_state with_seeded_free_count is_reserved_frame
built-IsValid base map kernel_start kernel_end inside small kernel = record {
  small = omega (arith, small);
  counted = count_free_locked_lem (boot_state base map kernel_start kernel_end);
  cursor_in = omega (arith, small, inside);
  hinted = refl;
  reserved = λ i h r. elim (Bool-cases (i == 0)) [
    | inl z ↦
        let zero_frame : i ≡ 0 = ground arith in
        rw zero_frame (
          boot_bits-zero map (add64 (find_max_addr map) 4095 / page) base (page_down kernel_start)
            (page_up kernel_end) (omega (arith, h)))
    | inr nz ↦
        boot_bits-kernel map (add64 (find_max_addr map) 4095 / page) base (page_down kernel_start)
          (page_up kernel_end) i (omega (arith, kernel)) h (ground (arith, r, nz))
          (ground (arith, r, nz))
  ];
}

base_inside :
    (region_base region_size : ℕ) (map : List MemoryRegion) (kernel_end : ℕ)
    → asserts region_base region_size map kernel_end ≡ true
    → region_base + region_size ≤ find_max_addr map
    → find_max_addr map ≤ 2 ^ 62
    → kernel_end < 2 ^ 62
    → bitmap_base region_base kernel_end ≤ find_max_addr map
unfolding asserts
base_inside region_base region_size map kernel_end good inside small kernel =
    ground (arith, good, inside, small, kernel)

-- Where the asserts hold and the region for the bitmap lies in the memory that the map calls usable,
-- `new` builds a valid allocator: its free count is exact, its cursor inside the bitmap, and frame 0
-- and the kernel image are used.
pub new-IsValid :
    (region_base region_size : ℕ) (map : List MemoryRegion) (kernel_start kernel_end : ℕ)
    (s : Frames)
    → new region_base region_size map kernel_start kernel_end ≡ some s
    → region_base + region_size ≤ find_max_addr map
    → find_max_addr map ≤ 2 ^ 62
    → kernel_end < 2 ^ 62
    → IsValid s
unfolding new
new-IsValid region_base region_size map kernel_start kernel_end s e inside small kernel =
    elim (Bool-cases (asserts region_base region_size map kernel_end)) [
      | inr bad ↦ absurd (ground (arith, bad, e))
      | inl good ↦ subst IsValid (ground (arith, good, e)) (
          built-IsValid (bitmap_base region_base kernel_end) map kernel_start kernel_end
            (base_inside region_base region_size map kernel_end good inside small kernel) small
            kernel)
    ]
