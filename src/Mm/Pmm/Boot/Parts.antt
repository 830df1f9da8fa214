-- ===== src/Mm/Pmm/Boot/Parts.antt =====
-- The ranges that `ns_pmm_init` takes from the free memory (kernel/mm/pmm.c): those of the firmware and
-- the parts of the boot environment.
use northstar_os.Base.{
  ℕ, ◌+◌, ◌*◌, ◌/◌, ◌^◌, ◌≤◌, ◌<◌, ◌≡◌, refl, ◌≢◌, ◌⊎◌, true, false, Bool, List, [], ◌∷◌, ◌++◌,
  if◌then◌else◌,
}
use northstar_os.Mm.Bitmap.{bitmap_get}
use northstar_os.Mm.Pmm.{page_size}
use northstar_os.Mm.Pmm.Boot.{Entry, BootInfo, entry_enabled, has_flag, boot_regions}
use northstar_os.Mm.Pmm.Boot.Initial.{WideRanges}

-- Every byte of the range below the limit lies in a frame that is set in the bitmap.
abbrev pub ReservedRange : ℕ → List ℕ → ℕ → ℕ → Type 0
ReservedRange limit bitmap base length =
    (address : ℕ)
    → base ≤ address
    → address < base + length
    → address < limit
    → bitmap_get bitmap (address / page_size) ≡ true

-- The range has no byte in the frame.
abbrev pub IsApart : ℕ → ℕ → ℕ → Type 0
IsApart f base length =
    (length ≡ 0) ⊎ ((f + 1) * page_size ≤ base) ⊎ (base + length ≤ f * page_size)

-- All ranges, and all entries of the map that are enabled and not usable memory, have the property.
abbrev pub EachRange : (ℕ → ℕ → Type 0) → List (ℕ × ℕ) → Type 0
EachRange P [] = Unit {0}
EachRange P ((base, length) ∷ rs) = P base length × EachRange P rs

abbrev pub EachFirmware : (ℕ → ℕ → Type 0) → List Entry → Type 0
EachFirmware P [] = Unit {0}
EachFirmware P (e ∷ es) =
    (entry_enabled e ≡ true → e.kind ≢ 1 → P e.base e.length) × EachFirmware P es

pub EachFirmware-map :
    (P Q : ℕ → ℕ → Type 0) (es : List Entry)
    → ((base length : ℕ) → P base length → Q base length)
    → EachFirmware P es
    → EachFirmware Q es
EachFirmware-map P Q [] f a = tt
EachFirmware-map P Q (e ∷ es) f (h, a) =
    (λ on k. f e.base e.length (h on k), EachFirmware-map P Q es f a)

-- The parts of the boot environment, each with the property: the first megabyte, the kernel, the boot
-- loader, the page tables and the top one of them, the boot information, the memory map, the storage of the
-- bitmaps, and, where the flags say that there is one, the initial RAM disk and the frame buffer.
pub record BootRanges (P : ℕ → ℕ → Type 0) (b : BootInfo) (bitmap_phys bitmap_size : ℕ)
    : Type 0 where
  pub low_memory : P 0 0x100000
  pub kernel : P b.kernel_phys_base b.kernel_size
  pub bootloader : P b.bootloader_phys_base b.bootloader_size
  pub page_tables : P b.page_tables_phys_base b.page_tables_size
  pub pml4 : P b.pml4_phys 4096
  pub boot_info : P b.boot_info_phys b.size
  pub memory_map : P b.e820_entries_phys (b.e820_entry_count * b.e820_entry_size)
  pub bitmaps : P bitmap_phys bitmap_size
  pub initrd : has_flag b 4 ≡ true → P b.initrd_phys_base b.initrd_size
  pub framebuffer : has_flag b 2 ≡ true → P b.framebuffer_phys_base b.framebuffer_size

-- The two parts that may be missing.
optional-ranges :
    (P : ℕ → ℕ → Type 0) (c d : Bool) (i n j m : ℕ)
    → EachRange P ((if c then (i, n) ∷ [] else []) ++ (if d then (j, m) ∷ [] else []))
    → (c ≡ true → P i n) × (d ≡ true → P j m)
optional-ranges P true true i n j m (x, (y, z)) = (λ _. x, λ _. y)
optional-ranges P true false i n j m (x, z) = (λ _. x, λ e. absurd (cc))
optional-ranges P false true i n j m (y, z) = (λ e. absurd (cc), λ _. y)
optional-ranges P false false i n j m z = (λ e. absurd (cc), λ e. absurd (cc))

ranges-optional :
    (P : ℕ → ℕ → Type 0) (c d : Bool) (i n j m : ℕ)
    → (c ≡ true → P i n)
    → (d ≡ true → P j m)
    → EachRange P ((if c then (i, n) ∷ [] else []) ++ (if d then (j, m) ∷ [] else []))
ranges-optional P true true i n j m x y = (x refl, (y refl, tt))
ranges-optional P true false i n j m x y = (x refl, tt)
ranges-optional P false true i n j m x y = (y refl, tt)
ranges-optional P false false i n j m x y = tt

module _ (P : ℕ → ℕ → Type 0) (b : BootInfo) (bitmap_phys bitmap_size : ℕ) where
  -- The ranges that the code reserves are these parts.
  pub boot_regions-BootRanges :
      EachRange P (boot_regions b bitmap_phys bitmap_size) → BootRanges P b bitmap_phys bitmap_size
  boot_regions-BootRanges
        (low, (kernel, (loader, (tables, (top, (info, (table, (storage, rest)))))))) =
      let o = optional-ranges P (has_flag b 4) (has_flag b 2) _ _ _ _ rest in
      record {
        low_memory = low;
        kernel = kernel;
        bootloader = loader;
        page_tables = tables;
        pml4 = top;
        boot_info = info;
        memory_map = table;
        bitmaps = storage;
        initrd = o.0;
        framebuffer = o.1;
      }

  pub BootRanges-boot_regions :
      BootRanges P b bitmap_phys bitmap_size → EachRange P (boot_regions b bitmap_phys bitmap_size)
  BootRanges-boot_regions r =
      let o = ranges-optional P (has_flag b 4) (has_flag b 2) _ _ _ _ r.initrd r.framebuffer in
      (
        r.low_memory,
        (
          r.kernel,
          (r.bootloader, (r.page_tables, (r.pml4, (r.boot_info, (r.memory_map, (r.bitmaps, o)))))),
        ),
      )

-- Numbers of 64 bits.
abbrev pub IsWide : ℕ → ℕ → Type 0
IsWide base length = (base < 2 ^ 64) × (length < 2 ^ 64)

pub EachRange-WideRanges : (rs : List (ℕ × ℕ)) → EachRange IsWide rs → WideRanges rs
EachRange-WideRanges [] w = tt
EachRange-WideRanges ((base, length) ∷ rs) ((x, y), w) = (x, y, EachRange-WideRanges rs w)
