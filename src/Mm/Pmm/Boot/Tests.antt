-- ===== src/Mm/Pmm/Boot/Tests.antt =====
-- `ns_pmm_init` of kernel/mm/pmm.c on a memory map of two megabytes.
use northstar_os.Base.{◌≡◌, refl, List, [], ◌∷◌, arith}
use northstar_os.Mm.Pmm.{ok, Pmm}
use northstar_os.Mm.Pmm.Boot.{
  Entry, BootInfo, init, boot_info_validate, bad_header, bad_kernel, bad_direct_map,
  bad_page_tables, word_sum, storage_required, discover_limit, highest_end, entry_enabled,
}
use northstar_os.Mm.Pmm.Boot.Parts.{BootRanges, IsWide}
use northstar_os.Mm.Pmm.Boot.Startup.{InitCases, init-InitCases}

abbrev boot : BootInfo
boot = record {
  magic = 0x544f4f425254534e;
  version = 1;
  size = 192;
  flags = 1;
  e820_entries_phys = 0x5000;
  e820_entry_count = 2;
  e820_entry_size = 24;
  kernel_phys_base = 0x100000;
  kernel_virt_base = 0xffff800000100000;
  kernel_size = 0x10000;
  pml4_phys = 0x2000;
  initrd_phys_base = 0;
  initrd_size = 0;
  direct_map_base = 0xffff800000000000;
  direct_map_size = 0x200000;
  bootloader_phys_base = 0x7c00;
  bootloader_size = 512;
  page_tables_phys_base = 0;
  page_tables_size = 0;
  boot_info_phys = 0x6000;
  framebuffer_phys_base = 0;
  framebuffer_size = 0;
  words = [];
}

abbrev memory_map : List Entry
memory_map =
    record { base = 0; length = 0x1f0000; kind = 1; attributes = 0 }
    ∷ record { base = 0x1f0000; length = 0x10000; kind = 2; attributes = 0 }
    ∷ []

accepted : boot_info_validate boot ≡ ok
unfolding boot_info_validate bad_header bad_kernel bad_direct_map bad_page_tables word_sum
accepted = refl

storage : storage_required boot memory_map ≡ 128
unfolding storage_required boot_info_validate bad_header bad_kernel bad_direct_map bad_page_tables
    word_sum discover_limit highest_end entry_enabled
storage = refl

-- What the object held before.
abbrev unset : Pmm
unset = record {
  allocated_bitmap = [];
  reserved_bitmap = [];
  bytes_per_bitmap = 0;
  frame_count = 0;
  usable_frames = 0;
  free_frames = 0;
  next_hint = 0;
  managed_limit = 0;
  initialized = 0;
}

environment-BootRanges : BootRanges IsWide boot 0x120000 (storage_required boot memory_map)
environment-BootRanges = record {
  low_memory = (omega arith, omega arith);
  kernel = (omega arith, omega arith);
  bootloader = (omega arith, omega arith);
  page_tables = (omega arith, omega arith);
  pml4 = (omega arith, omega arith);
  boot_info = (omega arith, omega arith);
  memory_map = (omega arith, omega arith);
  bitmaps = (omega arith, omega (arith, storage));
  initrd = λ e. (omega arith, omega arith);
  framebuffer = λ e. (omega arith, omega arith);
}

init-InitCases_example :
    InitCases boot memory_map 0x120000 unset (init boot memory_map 0x120000 4096 unset)
init-InitCases_example =
    init-InitCases boot memory_map 0x120000
      (omega arith, omega arith, (omega arith, omega arith, tt)) (omega arith)
      environment-BootRanges 4096 unset
