-- ===== src/Mm/Pmm/Boot.antt =====
-- include/northstar/boot_info.h and the initialisation in kernel/mm/pmm.c. The E820 table is the list
-- of the entries that `entry_at` reads, in order; the checksum runs over the little-endian words of
-- the boot structure, which are a field of the model. The pointer arguments are not null.
pub mod Initial
pub mod Exposure
pub mod Usable
pub mod Parts
pub mod Reservations
pub mod Startup
mod Tests
use Prim.Native.Nat.{bit_and}
use northstar_os.Base.{
  ℕ, zero, suc, ◌+◌, ◌-◌, ◌*◌, ◌/◌, ◌%◌, ◌^◌, Bool, true, false, not, ◌&&◌, ◌||◌, List, [], ◌∷◌,
  ◌++◌, ltb, leb, ◌==◌, if◌then◌else◌, replicate,
}
use northstar_os.Base.Words.{u64_max, add64, add32}
use northstar_os.Mm.Bitmap.{bitmap_get, bitmap_clear}
use northstar_os.Mm.Pmm.{Status, ok, einval, ecorrupt, enospc, Pmm, page_size}
use northstar_os.Mm.Pmm.Reserve.{align_down_page, align_up_page_saturating, reserve_range_unlocked}
use northstar_os.Mm.Pmm.Audit.{check_invariants}

-- `northstar_e820_entry`
pub record Entry : Type 0 where
  pub base : ℕ
  pub length : ℕ
  pub kind : ℕ
  pub attributes : ℕ

-- `northstar_boot_info`: the fields that the code reads.
pub record BootInfo : Type 0 where
  pub magic : ℕ
  pub version : ℕ
  pub size : ℕ
  pub flags : ℕ
  pub e820_entries_phys : ℕ
  pub e820_entry_count : ℕ
  pub e820_entry_size : ℕ
  pub kernel_phys_base : ℕ
  pub kernel_virt_base : ℕ
  pub kernel_size : ℕ
  pub pml4_phys : ℕ
  pub initrd_phys_base : ℕ
  pub initrd_size : ℕ
  pub direct_map_base : ℕ
  pub direct_map_size : ℕ
  pub bootloader_phys_base : ℕ
  pub bootloader_size : ℕ
  pub page_tables_phys_base : ℕ
  pub page_tables_size : ℕ
  pub boot_info_phys : ℕ
  pub framebuffer_phys_base : ℕ
  pub framebuffer_size : ℕ
  pub words : List ℕ

abbrev pub boot_magic : ℕ
boot_magic = 0x544f4f425254534e

-- The lowest address of the kernel half.
abbrev pub high_half : ℕ
high_half = 0xffff800000000000

abbrev pub low_memory_reserve : ℕ
low_memory_reserve = 0x100000

-- `(value & (NS_PAGE_SIZE - 1u)) != 0`
abbrev pub misaligned : ℕ → Bool
misaligned value = not (bit_and value (page_size - 1) == 0)

-- `add_overflow_u64`
abbrev pub overflows : ℕ → ℕ → Bool
overflows a b = ltb (add64 a b) a

abbrev pub has_flag : BootInfo → ℕ → Bool
has_flag boot flag = not (bit_and boot.flags flag == 0)

-- `entry_enabled`
pub entry_enabled : Entry → Bool
entry_enabled e = (e.attributes == 0) || not (bit_and e.attributes 1 == 0)

bad_header : BootInfo → Bool
bad_header b =
    not (b.magic == boot_magic)
    || not (b.version == 1)
    || not (b.size == 192)
    || not (has_flag b 1)
    || (b.e820_entries_phys == 0)
    || (b.e820_entry_count == 0)
    || ltb 4096 b.e820_entry_count
    || ltb b.e820_entry_size 20
    || ltb 64 b.e820_entry_size

bad_kernel : BootInfo → Bool
bad_kernel b =
    (b.kernel_size == 0)
    || misaligned b.kernel_phys_base
    || misaligned b.kernel_virt_base
    || overflows b.kernel_phys_base b.kernel_size
    || overflows b.kernel_virt_base b.kernel_size
    || ltb b.kernel_virt_base high_half
    || ltb (add64 b.kernel_virt_base b.kernel_size) high_half

bad_direct_map : BootInfo → Bool
bad_direct_map b =
    (b.direct_map_size == 0)
    || misaligned b.direct_map_size
    || ltb (u64_max - (b.direct_map_size - 1)) b.direct_map_base
    || ltb (b.direct_map_base + b.direct_map_size - 1) high_half
    || ltb b.direct_map_size (add64 b.kernel_phys_base b.kernel_size)
    || (b.pml4_phys == 0)
    || misaligned b.pml4_phys
    || ltb (b.direct_map_size - page_size) b.pml4_phys
    || misaligned b.direct_map_base
    || ltb b.direct_map_base high_half
    || leb b.direct_map_size b.e820_entries_phys
    || ltb (b.direct_map_size - b.e820_entries_phys) (b.e820_entry_count * b.e820_entry_size)
    || leb b.direct_map_size b.boot_info_phys
    || ltb (b.direct_map_size - b.boot_info_phys) b.size

bad_page_tables : BootInfo → Bool
bad_page_tables b =
    not (b.page_tables_size == 0)
    && (misaligned b.page_tables_phys_base
        || misaligned b.page_tables_size
        || leb b.direct_map_size b.page_tables_phys_base
        || ltb (b.direct_map_size - b.page_tables_phys_base) b.page_tables_size
        || ltb b.pml4_phys b.page_tables_phys_base
        || leb b.page_tables_size (b.pml4_phys - b.page_tables_phys_base))

-- The `uint32_t` sum of the words.
word_sum : ℕ → List ℕ → ℕ
word_sum sum [] = sum
word_sum sum (w ∷ ws) = word_sum (add32 sum w) ws

-- `ns_boot_info_validate`
pub boot_info_validate : BootInfo → Status
unfolding bad_header bad_kernel bad_direct_map bad_page_tables word_sum
boot_info_validate b =
    if bad_header b
    then ecorrupt
    else if bad_kernel b || bad_direct_map b
    then ecorrupt
    else if bad_page_tables b
    then ecorrupt
    else if has_flag b 16 && not (word_sum 0 b.words == 0)
    then ecorrupt
    else ok

-- The end of an entry, saturated.
abbrev pub entry_end : Entry → ℕ
entry_end e = if overflows e.base e.length then u64_max else add64 e.base e.length

-- The loop of `discover_limit`.
pub highest_end : ℕ → List Entry → ℕ
highest_end highest [] = highest
highest_end highest (e ∷ es) =
    highest_end
      (if not (entry_enabled e) || (e.length == 0)
        then highest
        else if ltb highest (entry_end e)
        then entry_end e
        else highest)
      es

-- `discover_limit`
pub discover_limit : BootInfo → List Entry → ℕ
discover_limit b entries =
    let highest = highest_end 0 entries in
    align_up_page_saturating (
      if not (b.direct_map_size == 0) && ltb b.direct_map_size highest
      then b.direct_map_size
      else highest)

-- `ns_pmm_storage_required`; `SIZE_MAX` is that of 64 bits.
pub storage_required : BootInfo → List Entry → ℕ
storage_required b entries = elim (boot_info_validate b) [
  | ok ↦
      let bytes = (discover_limit b entries / page_size + 7) / 8 in
      if ltb (u64_max / 2) bytes then 0 else bytes * 2
  | failure ↦ 0
]

-- `mark_frame_free_initial`
pub mark_frame_free_initial : Pmm → ℕ → Pmm
mark_frame_free_initial p frame =
    if leb p.frame_count frame || not (bitmap_get p.reserved_bitmap frame) then p else record p {
      reserved_bitmap = bitmap_clear p.reserved_bitmap frame;
      allocated_bitmap = bitmap_clear p.allocated_bitmap frame;
      usable_frames = p.usable_frames + 1;
      free_frames = p.free_frames + 1;
    }

-- The loop over the whole pages of a usable range, `rounds` of them from `address` on.
pub expose : Pmm → ℕ → ℕ → Pmm
expose p address zero = p
expose p address (suc rounds) =
    expose (mark_frame_free_initial p (address / page_size)) (address + page_size) rounds

abbrev pub usable_end : Pmm → Entry → ℕ
usable_end p e = align_down_page (
    if overflows e.base e.length || ltb p.managed_limit (add64 e.base e.length)
    then p.managed_limit
    else add64 e.base e.length)

pub expose_entry : Pmm → Entry → Pmm
expose_entry p e =
    if not (entry_enabled e) || not (e.kind == 1) || (e.length == 0)
    then p
    else expose p (align_up_page_saturating e.base)
        ((usable_end p e - align_up_page_saturating e.base + (page_size - 1)) / page_size)

-- The first loop of `ns_pmm_init` over the entries, then the second.
pub expose_entries : Pmm → List Entry → Pmm
expose_entries p [] = p
expose_entries p (e ∷ es) = expose_entries (expose_entry p e) es

pub withdraw_entry : Pmm → Entry → Pmm
withdraw_entry p e =
    if not (entry_enabled e) || (e.kind == 1) then p else reserve_range_unlocked p e.base e.length

pub withdraw_entries : Pmm → List Entry → Pmm
withdraw_entries p [] = p
withdraw_entries p (e ∷ es) = withdraw_entries (withdraw_entry p e) es

-- The ranges that `reserve_boot_regions` reserves, in order.
abbrev pub boot_regions : BootInfo → ℕ → ℕ → List (ℕ × ℕ)
boot_regions b bitmap_phys bitmap_size =
    (0, low_memory_reserve)
    ∷ (b.kernel_phys_base, b.kernel_size)
    ∷ (b.bootloader_phys_base, b.bootloader_size)
    ∷ (b.page_tables_phys_base, b.page_tables_size)
    ∷ (b.pml4_phys, page_size)
    ∷ (b.boot_info_phys, b.size)
    ∷ (b.e820_entries_phys, b.e820_entry_count * b.e820_entry_size)
    ∷ (bitmap_phys, bitmap_size)
    ∷ ((if has_flag b 4 then (b.initrd_phys_base, b.initrd_size) ∷ [] else [])
        ++ (if has_flag b 2 then (b.framebuffer_phys_base, b.framebuffer_size) ∷ [] else []))

pub reserve_all : Pmm → List (ℕ × ℕ) → Pmm
reserve_all p [] = p
reserve_all p ((base, length) ∷ rs) = reserve_all (reserve_range_unlocked p base length) rs

-- The state before the first loop: every frame is unavailable.
pub blank : ℕ → Pmm
blank limit = record {
  allocated_bitmap = replicate ((limit / page_size + 7) / 8) 255;
  reserved_bitmap = replicate ((limit / page_size + 7) / 8) 255;
  bytes_per_bitmap = (limit / page_size + 7) / 8;
  frame_count = limit / page_size;
  usable_frames = 0;
  free_frames = 0;
  next_hint = 0;
  managed_limit = limit;
  initialized = 0;
}

-- The hint and the flag at the end.
pub ready : Pmm → Pmm
ready p = record p {
  next_hint =
      if leb p.frame_count (low_memory_reserve / page_size)
      then 0
      else low_memory_reserve / page_size;
  initialized = 1;
}

-- The state that `ns_pmm_init` builds once its arguments are accepted.
pub build : BootInfo → List Entry → ℕ → Pmm
build b entries bitmap_phys = ready (
    reserve_all
      (withdraw_entries (expose_entries (blank (discover_limit b entries)) entries) entries)
      (boot_regions b bitmap_phys (storage_required b entries)))

-- `ns_pmm_init`; `old` is what `*pmm` held.
pub init : BootInfo → List Entry → ℕ → ℕ → Pmm → Status × Pmm
init b entries bitmap_phys storage_size old = elim (boot_info_validate b) [
  | ok ↦
      if misaligned bitmap_phys
      then (einval, old)
      else if (storage_required b entries == 0) || ltb storage_size (storage_required b entries)
      then (enospc, old)
      else (check_invariants (build b entries bitmap_phys), build b entries bitmap_phys)
  | failure ↦ (einval, old)
]
