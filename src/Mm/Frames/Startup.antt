-- ===== src/Mm/Frames/Startup.antt =====
-- kernel/src/mm/phys_alloc.rs: `new`, the bitmap built from the memory map of the boot loader.
pub mod Valid
use bedrock_stack.Base.{
  ℕ, suc, ◌+◌, ◌-◌, ◌*◌, ◌/◌, ◌^◌, ◌≤◌, ◌<◌, ◌≡◌, subst, inl, inr, refl, max, Bool, true, false,
  not, ◌&&◌, Option, none, some, List, [], ◌∷◌, if◌then◌else◌, ltb, leb, ◌==◌, arith, Bool-cases,
}
use bedrock_stack.Mm.Frames.{Frames, page, add64, set_range, set_bit, is_reserved_frame}
use bedrock_stack.Mm.Frames.Count.{count_free_locked}
use bedrock_stack.Mm.Frames.Count.Exact.{count_free_locked_lem}
use bedrock_stack.Mm.Frames.Release.{saturating_add, end_frame}
use bedrock_stack.Mm.Frames.Release.Invariant.{IsValid}

pub data MemoryRegionKind : Type 0 where
  usable : MemoryRegionKind
  reserved : MemoryRegionKind
  acpi_reclaimable : MemoryRegionKind
  acpi_nvs : MemoryRegionKind
  boot_services_code : MemoryRegionKind
  boot_services_data : MemoryRegionKind
  loader_code : MemoryRegionKind
  loader_data : MemoryRegionKind

pub record MemoryRegion : Type 0 where
  pub base : ℕ
  pub size : ℕ
  pub kind : MemoryRegionKind

abbrev is_usable : MemoryRegion → Bool
is_usable r = elim r.kind [ usable ↦ true | _ ↦ false ]

abbrev region_end : MemoryRegion → ℕ
region_end r = saturating_add r.base r.size

unfoldable pub find_max_addr : List MemoryRegion → ℕ
find_max_addr [] = 0
find_max_addr (r ∷ rs) =
    let rest = find_max_addr rs in if is_usable r then max (region_end r) rest else rest

-- The frames from the one of `base` to the one that holds the last byte.
pub mark_bits : Bool → ℕ → ℕ → ℕ → (ℕ → Bool) → ℕ → Bool
mark_bits b base size total bits =
    set_range b (base / page) (end_frame total (saturating_add base size) - base / page) bits

clear_region : MemoryRegion → ℕ → (ℕ → Bool) → ℕ → Bool
unfolding mark_bits
clear_region r total bits = mark_bits false r.base r.size total bits

pub mark_region_used : MemoryRegion → ℕ → (ℕ → Bool) → ℕ → Bool
unfolding mark_bits
mark_region_used r total bits = mark_bits true r.base r.size total bits

clear_usable : List MemoryRegion → ℕ → (ℕ → Bool) → ℕ → Bool
unfolding clear_region
clear_usable [] total bits = bits
clear_usable (r ∷ rs) total bits =
    clear_usable rs total (if is_usable r then clear_region r total bits else bits)

-- The usable regions that are not empty.
pub usable_len : List MemoryRegion → ℕ
usable_len [] = 0
usable_len (r ∷ rs) =
    let rest = usable_len rs in if is_usable r && not (r.size == 0) then suc rest else rest

abbrev pub max_usable_regions : ℕ
max_usable_regions = 32

-- `(x + 4095) & !4095` and `x & !0xFFF`.
abbrev pub page_up : ℕ → ℕ
page_up x = add64 x 4095 / page * page

abbrev pub page_down : ℕ → ℕ
page_down x = x / page * page

-- The bitmap lies at the start of its region, or behind the kernel image.
abbrev pub bitmap_base : ℕ → ℕ → ℕ
bitmap_base base kernel_end = if ltb base kernel_end then page_up kernel_end else base

abbrev pub bitmap_len : ℕ → ℕ
bitmap_len total = (total + 7) / 8

-- The bits before the kernel image is marked: all used, the usable regions cleared, the bitmap's own
-- frames and frame 0 used again.
pub first_bits : List MemoryRegion → ℕ → ℕ → ℕ → Bool
unfolding clear_usable mark_region_used
first_bits map total base =
    let marked =
      mark_region_used (record { base = base; size = bitmap_len total; kind = reserved }) total
        (clear_usable map total (λ _. true)) in
    if ltb 0 total then set_bit true 0 marked else marked

pub boot_bits : List MemoryRegion → ℕ → ℕ → ℕ → ℕ → ℕ → Bool
unfolding first_bits mark_region_used
boot_bits map total base ks ke =
    if ltb ks ke
    then mark_region_used (record { base = ks; size = ke - ks; kind = reserved }) total
        (first_bits map total base)
    else first_bits map total base

-- `with_seeded_free_count`
pub with_seeded_free_count : Frames → Frames
with_seeded_free_count s = record s { free_count = count_free_locked s }

-- The asserts: a region for the bitmap, room for it, and a bounded number of usable regions.
pub asserts : ℕ → ℕ → List MemoryRegion → ℕ → Bool
unfolding find_max_addr usable_len
asserts region_base region_size map kernel_end =
    let total = add64 (find_max_addr map) 4095 / page in
    let base = bitmap_base region_base kernel_end in
    not (region_size == 0)
    && leb region_base base
    && leb (add64 base (bitmap_len total)) (add64 region_base region_size)
    && leb (usable_len map) max_usable_regions

-- The allocator that `new` builds, before the free count is seeded and after.
pub boot_state : ℕ → List MemoryRegion → ℕ → ℕ → Frames
unfolding boot_bits
boot_state base map kernel_start kernel_end =
    let total = add64 (find_max_addr map) 4095 / page in
    record {
      used = boot_bits map total base (page_down kernel_start) (page_up kernel_end);
      total = total;
      kernel_start = page_down kernel_start;
      kernel_end = page_up kernel_end;
      free_count = 0;
      hint = base / page;
      next_free = base / page;
    }

pub built : ℕ → List MemoryRegion → ℕ → ℕ → Frames
unfolding boot_state with_seeded_free_count
built base map kernel_start kernel_end =
    with_seeded_free_count (boot_state base map kernel_start kernel_end)

-- `none` where an assert fails.
unfoldable pub new : ℕ → ℕ → List MemoryRegion → ℕ → ℕ → Option Frames
unfolding asserts built
new region_base region_size map kernel_start kernel_end =
    if asserts region_base region_size map kernel_end
    then some (built (bitmap_base region_base kernel_end) map kernel_start kernel_end)
    else none
