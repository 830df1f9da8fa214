-- ===== src/Proc/Elf/Segments.antt =====
-- The segments that `ns_elf64_plan` (kernel/proc/elf_loader.c) accepts.
use Prim.Native.Nat.{bit_and, bit_or}
use northstar_os.Base.{
  ℕ, zero, suc, ◌+◌, ◌-◌, ◌^◌, ◌≤◌, ◌<◌, ◌≡◌, refl, ◌≢◌, Bool, true, false, ◌&&◌, none, List, [],
  ◌∷◌, ◌⊎◌, inl, inr, arith, if◌then◌else◌, Bool-cases,
}
use northstar_os.Base.Words.{u64_max, add64}
use northstar_os.Base.Align.{page_floor}
use native.Mathlib.Nat.{pow-suc}
use northstar_os.Proc.Elf.{
  ElfError, Source, Config, Segment, Phdr, field, decode_phdr, has, convert_flags, valid_config,
  check_phdr, phdr_tests, first_failure, segment_of, align_up,
}

-- What holds of a segment by itself.
pub record Sound (source : Source) (c : Config) (s : Segment) : Type 0 where
  pub starts : c.user_min ≤ s.address
  pub stops : s.address + s.memory_size ≤ c.user_max
  pub nonempty : s.memory_size ≢ 0
  pub file_fits : s.file_size ≤ s.memory_size
  pub in_file : s.file_offset + s.file_size ≤ source.size
  pub map_starts : s.map_address ≤ s.address
  pub map_slack : s.address < s.map_address + c.page_size
  pub map_stops : s.address + s.memory_size ≤ s.map_address + s.map_size
  pub map_width : s.map_address + s.map_size < 2 ^ 64
  pub write_or_execute : c.allow_writable_executable ≡ 0 → (has s.flags 2 && has s.flags 4) ≡ false

-- Two segments share no byte and no page.
pub record Apart (s t : Segment) : Type 0 where
  pub bytes_apart :
      (s.address + s.memory_size ≤ t.address) ⊎ (t.address + t.memory_size ≤ s.address)
  pub pages_apart :
      (s.map_address + s.map_size ≤ t.map_address) ⊎ (t.map_address + t.map_size ≤ s.map_address)

-- The header's numbers are those of `uint64_t` fields.
pub record Wide (ph : Phdr) : Type 0 where
  pub offset : ph.offset < 2 ^ 64
  pub vaddr : ph.vaddr < 2 ^ 64
  pub filesz : ph.filesz < 2 ^ 64
  pub memsz : ph.memsz < 2 ^ 64

pub field-lt : (bytes : List ℕ) (offset width : ℕ) → field bytes offset width < 256 ^ width
unfolding field
field-lt bytes offset zero = omega arith
field-lt bytes offset (suc width) =
    omega (arith, field-lt bytes (offset + 1) width, pow-suc 256 width)

pub decode_phdr-Wide : (bytes : List ℕ) → Wide (decode_phdr bytes)
unfolding decode_phdr
decode_phdr-Wide bytes = record {
  offset = field-lt bytes 8 8;
  vaddr = field-lt bytes 16 8;
  filesz = field-lt bytes 32 8;
  memsz = field-lt bytes 40 8;
}

convert_table : Bool → Bool → Bool → ℕ
convert_table r w x =
    let readable : ℕ = if r then bit_or 8 1 else 8 in
    let writable : ℕ = if w then bit_or readable 2 else readable in
    if x then bit_or writable 4 else writable

convert_table_keeps :
    (r w x : Bool) → (has (convert_table r w x) 2 ≡ w) × (has (convert_table r w x) 4 ≡ x)
unfolding convert_table
convert_table_keeps true true true = (refl, refl)
convert_table_keeps true true false = (refl, refl)
convert_table_keeps true false true = (refl, refl)
convert_table_keeps true false false = (refl, refl)
convert_table_keeps false true true = (refl, refl)
convert_table_keeps false true false = (refl, refl)
convert_table_keeps false false true = (refl, refl)
convert_table_keeps false false false = (refl, refl)

-- The permissions are those of the header.
convert_keeps :
    (flags : ℕ)
    → (has (convert_flags flags) 2 ≡ has flags 2) × (has (convert_flags flags) 4 ≡ has flags 1)
unfolding convert_table
convert_keeps flags = convert_table_keeps (has flags 4) (has flags 2) (has flags 1)

-- Every test of a sequence failed to hold.
abbrev pub AllPassed : List (Bool × ElfError) → Type 0
AllPassed [] = Unit {0}
AllPassed ((test, error) ∷ rest) = (test ≡ false) × AllPassed rest

pub first_failure-none :
    (tests : List (Bool × ElfError)) → first_failure tests ≡ none → AllPassed tests
unfolding first_failure
first_failure-none [] h = tt
first_failure-none ((test, error) ∷ rest) h = elim (Bool-cases test) [
  | inl fails ↦ absurd (ground (arith, fails, h))
  | inr holds ↦ (holds, first_failure-none rest (ground (arith, holds, h)))
]

module _ (source : Source) (c : Config) (bias count : ℕ) (ph : Phdr) (w : Wide ph)
    (hb : bias < 2 ^ 64) (hm : c.user_max < 2 ^ 64) (hp : c.page_size < 2 ^ 64)
    (hc : valid_config c ≡ true) (e : check_phdr source c bias count ph ≡ none) where
  pub passed : AllPassed (phdr_tests source c bias count ph)
  unfolding check_phdr
  passed = first_failure-none _ e

  no_wrap : ph.vaddr + bias + ph.memsz < 2 ^ 64
  no_wrap = ground (arith, w.vaddr, w.memsz, passed.1.1.1.1.1.1.0)

  floor :
      (bit_and (add64 ph.vaddr bias) (u64_max - (c.page_size - 1)) ≤ add64 ph.vaddr bias)
      × (add64 ph.vaddr bias
          < bit_and (add64 ph.vaddr bias) (u64_max - (c.page_size - 1)) + c.page_size)
  floor =
      let (lo, hi, m) =
        page_floor c.page_size (add64 ph.vaddr bias) (ground (arith, hc)) (omega arith)
          (omega arith) in
      (lo, hi)

  ceiling :
      (ph.vaddr + bias + ph.memsz ≤ align_up (add64 (add64 ph.vaddr bias) ph.memsz) c.page_size)
      × (align_up (add64 (add64 ph.vaddr bias) ph.memsz) c.page_size < 2 ^ 64)
  ceiling =
      let t =
        page_floor c.page_size (add64 (add64 (add64 ph.vaddr bias) ph.memsz) (c.page_size - 1))
          (ground (arith, hc)) (omega arith) (omega arith) in
      let power : 4096 ≤ c.page_size = ground (arith, hc) in
      (ground (arith, t.1, passed.1.1.1.1.1.1.1.1.0, no_wrap), omega (arith, t.0))

  pub check-Sound : ph.memsz ≢ 0 → Sound source c (segment_of c bias ph)
  check-Sound nz = record {
    starts = ground (arith, passed.1.1.1.1.1.1.1.0);
    stops = ground (arith, passed.1.1.1.1.1.1.1.0, no_wrap);
    nonempty = nz;
    file_fits = ground (arith, passed.1.0);
    in_file = ground (arith, passed.1.1.1.1.0);
    map_starts = floor.0;
    map_slack = floor.1;
    map_stops = omega (arith, floor.0, ceiling.0, ceiling.1, no_wrap);
    map_width = omega (arith, floor.0, ceiling.0, ceiling.1, no_wrap);
    write_or_execute = λ z. ground (arith, passed.1.1.1.1.1.0, convert_keeps ph.flags, z);
  }
