-- ===== src/Proc/Elf.antt =====
-- include/northstar/elf_loader.h and `ns_elf64_plan` of kernel/proc/elf_loader.c: the validation of
-- an ELF64 image. The source's `read` callback is a field, none where it reports an error; the
-- elements of a buffer are `unsigned char`, so each is read modulo 256. Pointers are not null.
pub mod Segments
pub mod Plan
pub mod Images
pub mod Load
mod Tests
use Prim.Native.Nat.{bit_and, bit_or}
use northstar_os.Base.{
  ℕ, zero, suc, ◌+◌, ◌-◌, ◌*◌, ◌/◌, ◌%◌, ◌^◌, Bool, true, false, not, ◌&&◌, ◌||◌, Option, none,
  some, List, [], ◌∷◌, ◌++◌, ◌⊎◌, inl, inr, ltb, leb, ◌==◌, if◌then◌else◌, get_or,
}
use northstar_os.Base.Words.{u64_max, add64, sub64, mul64, is_power_of_two}

-- `ns_elf_error`, without success.
pub data ElfError : Type 0 where
  io truncated magic class endian version machine kind header program_headers unsupported : ElfError
  alignment bounds overflow overlap permissions entry too_large map copy protect : ElfError

-- `ns_elf_source`
pub record Source : Type 0 where
  pub size : ℕ
  pub read : ℕ → ℕ → Option (List ℕ)

-- `ns_elf_config`
pub record Config : Type 0 where
  pub user_min : ℕ
  pub user_max : ℕ
  pub page_size : ℕ
  pub dynamic_bias : ℕ
  pub max_image_size : ℕ
  pub max_segments : ℕ
  pub allow_dynamic : ℕ
  pub allow_writable_executable : ℕ

-- `ns_elf_segment`
pub record Segment : Type 0 where
  pub address : ℕ
  pub memory_size : ℕ
  pub file_size : ℕ
  pub file_offset : ℕ
  pub map_address : ℕ
  pub map_size : ℕ
  pub flags : ℕ

-- `ns_elf_image`; the list holds the first `segment_count` entries of the array.
pub record Image : Type 0 where
  pub entry_point : ℕ
  pub image_start : ℕ
  pub image_end : ℕ
  pub load_bias : ℕ
  pub segment_count : ℕ
  pub segments : List Segment

-- `elf64_ehdr`: the fields that the code reads.
pub record Ehdr : Type 0 where
  pub ident : List ℕ
  pub kind_ : ℕ
  pub machine_ : ℕ
  pub version_ : ℕ
  pub entry_ : ℕ
  pub phoff : ℕ
  pub ehsize : ℕ
  pub phentsize : ℕ
  pub phnum : ℕ

-- `elf64_phdr`: the fields that the code reads.
pub record Phdr : Type 0 where
  pub kind_ : ℕ
  pub flags : ℕ
  pub offset : ℕ
  pub vaddr : ℕ
  pub filesz : ℕ
  pub memsz : ℕ
  pub align : ℕ

-- A little-endian field of `width` bytes.
unfoldable pub field : List ℕ → ℕ → ℕ → ℕ
field bytes offset zero = 0
field bytes offset (suc width) = get_or bytes offset 0 % 256 + 256 * field bytes (offset + 1) width

pub decode_ehdr : List ℕ → Ehdr
decode_ehdr b = record {
  ident =
      field b 0 1
      ∷ field b 1 1
      ∷ field b 2 1
      ∷ field b 3 1
      ∷ field b 4 1
      ∷ field b 5 1
      ∷ field b 6 1
      ∷ [];
  kind_ = field b 16 2;
  machine_ = field b 18 2;
  version_ = field b 20 4;
  entry_ = field b 24 8;
  phoff = field b 32 8;
  ehsize = field b 52 2;
  phentsize = field b 54 2;
  phnum = field b 56 2;
}

pub decode_phdr : List ℕ → Phdr
decode_phdr b = record {
  kind_ = field b 0 4;
  flags = field b 4 4;
  offset = field b 8 8;
  vaddr = field b 16 8;
  filesz = field b 32 8;
  memsz = field b 40 8;
  align = field b 48 8;
}

-- `add_overflow_u64` and `mul_overflow_u64`, the flags that they return.
abbrev pub add_overflows : ℕ → ℕ → Bool
add_overflows a b = ltb (add64 a b) a

abbrev pub mul_overflows : ℕ → ℕ → Bool
mul_overflows a b = not (a == 0) && ltb (u64_max / a) b

-- `align_up`: whether it overflows, and its result.
abbrev pub align_up_overflows : ℕ → ℕ → Bool
align_up_overflows value granule = ltb (u64_max - (granule - 1)) value

abbrev pub align_up : ℕ → ℕ → ℕ
align_up value granule = bit_and (add64 value (granule - 1)) (u64_max - (granule - 1))

-- `range_in_file`
abbrev pub range_in_file : Source → ℕ → ℕ → Bool
range_in_file source offset length = leb offset source.size && leb length (source.size - offset)

-- `source_read`
pub source_read : Source → ℕ → ℕ → ElfError ⊎ List ℕ
source_read source offset length =
    if not (range_in_file source offset length)
    then inl truncated
    else elim (source.read offset length) [ none ↦ inl io | some bytes ↦ inr bytes ]

abbrev pub has : ℕ → ℕ → Bool
has flags flag = not (bit_and flags flag == 0)

-- `convert_flags`: PF_R, PF_W and PF_X are 4, 2 and 1.
abbrev pub convert_flags : ℕ → ℕ
convert_flags flags =
    let readable : ℕ = if has flags 4 then bit_or 8 1 else 8 in
    let writable : ℕ = if has flags 2 then bit_or readable 2 else readable in
    if has flags 1 then bit_or writable 4 else writable

-- `valid_config`
abbrev pub valid_config : Config → Bool
valid_config c =
    is_power_of_two c.page_size
    && leb 4096 c.page_size
    && ltb c.user_min c.user_max
    && not (c.max_segments == 0)
    && leb c.max_segments 32
    && not (c.max_image_size == 0)

-- A sequence of `if (test) return error;`.
unfoldable pub first_failure : List (Bool × ElfError) → Option ElfError
first_failure [] = none
first_failure ((test, error) ∷ rest) = if test then some error else first_failure rest

-- The checks of the file's header.
abbrev pub ehdr_tests : Source → Config → Ehdr → List (Bool × ElfError)
ehdr_tests source c eh =
    ((
      not (get_or eh.ident 0 0 == 0x7f)
          || not (get_or eh.ident 1 0 == 0x45)
          || not (get_or eh.ident 2 0 == 0x4c)
          || not (get_or eh.ident 3 0 == 0x46),
      magic,
    )
      ∷ (not (get_or eh.ident 4 0 == 2), class)
      ∷ (not (get_or eh.ident 5 0 == 1), endian)
      ∷ (not (get_or eh.ident 6 0 == 1) || not (eh.version_ == 1), version)
      ∷ (not (eh.machine_ == 62), machine)
      ∷ (not (eh.kind_ == 2) && not (eh.kind_ == 3), kind)
      ∷ ((eh.kind_ == 3) && (c.allow_dynamic == 0), unsupported)
      ∷ (not (eh.ehsize == 64) || not (eh.phentsize == 56) || (eh.phnum == 0), header)
      ∷ (ltb (c.max_segments + 16) eh.phnum, program_headers)
      ∷ (
        mul_overflows eh.phnum eh.phentsize || add_overflows eh.phoff (mul64 eh.phnum eh.phentsize),
        overflow,
      )
      ∷ (ltb source.size (add64 eh.phoff (mul64 eh.phnum eh.phentsize)), truncated)
      ∷ [])

pub check_ehdr : Source → Config → Ehdr → Option ElfError
check_ehdr source c eh = first_failure (ehdr_tests source c eh)

-- The variables of the loop over the program headers, with the image's part.
pub record Partial : Type 0 where
  pub count : ℕ
  pub total_mapped : ℕ
  pub image_start : ℕ
  pub image_end : ℕ
  pub segments : List Segment

-- The segment that a program header describes.
abbrev pub segment_of : Config → ℕ → Phdr → Segment
segment_of c bias ph =
    let address = add64 ph.vaddr bias in
    let map_address = bit_and address (u64_max - (c.page_size - 1)) in
    record {
      address = address;
      memory_size = ph.memsz;
      file_size = ph.filesz;
      file_offset = ph.offset;
      map_address = map_address;
      map_size = sub64 (align_up (add64 address ph.memsz) c.page_size) map_address;
      flags = convert_flags ph.flags;
    }

abbrev pub skipped : Phdr → Bool
skipped ph = not (ph.kind_ == 1) || (ph.memsz == 0)

abbrev pub alignment_of : Phdr → ℕ
alignment_of ph = if ltb 1 ph.align then ph.align else 1

-- The checks of a header to load, up to the comparison with the segments before it.
abbrev pub phdr_tests : Source → Config → ℕ → ℕ → Phdr → List (Bool × ElfError)
phdr_tests source c bias count ph =
    ((leb c.max_segments count, too_large)
      ∷ (ltb ph.memsz ph.filesz, bounds)
      ∷ (not (ph.align == 0) && not (ph.align == 1) && not (is_power_of_two ph.align), alignment)
      ∷ (
        not (bit_and ph.vaddr (alignment_of ph - 1) == bit_and ph.offset (alignment_of ph - 1)),
        alignment,
      )
      ∷ (not (range_in_file source ph.offset ph.filesz), truncated)
      ∷ (has ph.flags 2 && has ph.flags 1 && (c.allow_writable_executable == 0), permissions)
      ∷ (
        add_overflows ph.vaddr bias
            || add_overflows (add64 ph.vaddr bias) ph.memsz
            || add_overflows ph.offset ph.filesz,
        overflow,
      )
      ∷ (
        ltb (add64 ph.vaddr bias) c.user_min
            || ltb c.user_max (add64 (add64 ph.vaddr bias) ph.memsz)
            || leb (add64 (add64 ph.vaddr bias) ph.memsz) (add64 ph.vaddr bias),
        bounds,
      )
      ∷ (align_up_overflows (add64 (add64 ph.vaddr bias) ph.memsz) c.page_size, overflow)
      ∷ [])

pub check_phdr : Source → Config → ℕ → ℕ → Phdr → Option ElfError
check_phdr source c bias count ph = first_failure (phdr_tests source c bias count ph)

-- The two tests of the inner loop: the bytes overlap, or the pages do.
abbrev pub overlaps : Segment → Segment → Bool
overlaps segment prior =
    (ltb segment.address (add64 prior.address prior.memory_size)
      && ltb prior.address (add64 segment.address segment.memory_size))
    || (ltb segment.map_address (add64 prior.map_address prior.map_size)
        && ltb prior.map_address (add64 segment.map_address segment.map_size))

pub overlaps_any : Segment → List Segment → Bool
overlaps_any segment [] = false
overlaps_any segment (prior ∷ rest) = overlaps segment prior || overlaps_any segment rest

abbrev pub too_big : Config → Partial → Segment → Bool
too_big c p s =
    ltb c.max_image_size s.map_size || ltb (c.max_image_size - s.map_size) p.total_mapped

abbrev pub add_segment : Partial → Segment → Partial
add_segment p s = record {
  count = p.count + 1;
  total_mapped = p.total_mapped + s.map_size;
  image_start = if ltb s.map_address p.image_start then s.map_address else p.image_start;
  image_end =
      if ltb p.image_end (add64 s.map_address s.map_size)
      then add64 s.map_address s.map_size
      else p.image_end;
  segments = p.segments ++ (s ∷ []);
}

-- One round of the loop, from the header that it read.
pub plan_phdr : Source → Config → ℕ → Partial → Phdr → ElfError ⊎ Partial
plan_phdr source c bias p ph =
    if (ph.kind_ == 3) || (ph.kind_ == 2)
    then inl unsupported
    else if skipped ph
    then inr p
    else elim (check_phdr source c bias p.count ph) [
      | some error ↦ inl error
      | none ↦
          let s = segment_of c bias ph in
          if overlaps_any s p.segments
          then inl overlap
          else if too_big c p s
          then inl too_large
          else inr (add_segment p s)
    ]

-- The loop, with the number of headers that are left.
pub plan_loop : Source → Config → Ehdr → ℕ → ℕ → ℕ → Partial → ElfError ⊎ Partial
plan_loop source c eh bias index zero p = inr p
plan_loop source c eh bias index (suc rest) p =
    if mul_overflows index eh.phentsize || add_overflows eh.phoff (mul64 index eh.phentsize)
    then inl overflow
    else elim (source_read source (add64 eh.phoff (mul64 index eh.phentsize)) 56) [
      | inl error ↦ inl io
      | inr bytes ↦ elim (plan_phdr source c bias p (decode_phdr bytes)) [
        | inl error ↦ inl error
        | inr next ↦ plan_loop source c eh bias (index + 1) rest next
      ]
    ]

-- The search for an executable segment that holds the entry point.
pub entry_found : ℕ → List Segment → Bool
entry_found point [] = false
entry_found point (s ∷ rest) =
    (has s.flags 4 && leb s.address point && ltb point (add64 s.address s.memory_size))
    || entry_found point rest

pub finish : Ehdr → ℕ → Partial → ElfError ⊎ Image
finish eh bias p =
    if p.count == 0
    then inl program_headers
    else if add_overflows eh.entry_ bias
    then inl overflow
    else if not (entry_found (add64 eh.entry_ bias) p.segments)
    then inl entry
    else inr (record {
      entry_point = add64 eh.entry_ bias;
      image_start = p.image_start;
      image_end = p.image_end;
      load_bias = bias;
      segment_count = p.count;
      segments = p.segments;
    })

abbrev pub bias_of : Config → Ehdr → ℕ
bias_of c eh = if eh.kind_ == 3 then c.dynamic_bias else 0

abbrev pub nothing_planned : Config → Partial
nothing_planned c = record {
  count = 0;
  total_mapped = 0;
  image_start = c.user_max;
  image_end = c.user_min;
  segments = [];
}

pub plan_from : Source → Config → Ehdr → ElfError ⊎ Image
plan_from source c eh = elim (check_ehdr source c eh) [
  | some error ↦ inl error
  | none ↦
      if not (bit_and (bias_of c eh) (c.page_size - 1) == 0)
      then inl alignment
      else elim (plan_loop source c eh (bias_of c eh) 0 eh.phnum (nothing_planned c)) [
        | inl error ↦ inl error
        | inr p ↦ finish eh (bias_of c eh) p
      ]
]

-- `ns_elf64_plan`; what a failure leaves in the image is not part of its result.
pub plan : Source → Config → ElfError ⊎ Image
plan source c = if not (valid_config c) then inl header else elim (source_read source 0 64) [
  | inl error ↦ inl truncated
  | inr bytes ↦ plan_from source c (decode_ehdr bytes)
]
