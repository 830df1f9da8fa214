-- ===== src/Proc/Elf/Load.antt =====
-- `ns_elf64_load` of kernel/proc/elf_loader.c: mapping and filling a plan, with its rollback. The
-- mapper's callbacks are fields over an address space `S`; each reports whether it succeeded.
pub mod Rollback
use northstar_os.Base.{
  ℕ, zero, suc, ◌+◌, ◌-◌, ◌*◌, ◌/◌, Bool, true, false, not, ◌&&◌, Option, none, some, List, [], ◌∷◌,
  ◌⊎◌, inl, inr, ltb, leb, ◌==◌, if◌then◌else◌,
}
use northstar_os.Proc.Elf.{
  ElfError, map, copy, protect, Source, Config, Segment, Image, plan, source_read,
}

-- `ns_elf_mapper`
pub record Mapper (S : Type 0) : Type 0 where
  pub map_pages : S → ℕ → ℕ → ℕ → Bool × S
  pub write : S → ℕ → List ℕ → Bool × S
  pub zero_fill : S → ℕ → ℕ → Bool × S
  pub protect_pages : S → ℕ → ℕ → ℕ → Bool × S
  pub unmap : S → ℕ → ℕ → S

-- NS_ELF_MAP_USER | NS_ELF_MAP_READ | NS_ELF_MAP_WRITE
abbrev pub temporary : ℕ
temporary = 11

-- The size of the copy buffer.
abbrev pub buffer_size : ℕ
buffer_size = 512

-- The size of the next piece to copy.
abbrev pub chunk_of : Segment → ℕ → ℕ
chunk_of segment copied =
    if ltb (segment.file_size - copied) buffer_size then segment.file_size - copied else buffer_size

-- `if (error) goto rollback;`, over any state.
unfoldable pub chain :
    {T : Type 0} → Option ElfError × T → (T → Option ElfError × T) → Option ElfError × T
chain (some error, state) next = (some error, state)
chain (none, state) next = next state

-- The answer of a callback, with the error that the code gives to its failure.
unfoldable pub answer : {T : Type 0} → ElfError → Bool × T → Option ElfError × T
answer error (true, state) = (none, state)
answer error (false, state) = (some error, state)

-- A result of the mapper next to the segments that are mapped.
unfoldable pub beside :
    {T : Type 0} → List Segment → Option ElfError × T → Option ElfError × (List Segment × T)
beside mapped (error, state) = (error, (mapped, state))

module _ {S : Type 0} (source : Source) (m : Mapper S) where
  -- The copy loop, in at most `rounds` rounds; the caller gives one for each byte.
  pub copy_loop : Segment → ℕ → ℕ → S → Option ElfError × S
  copy_loop segment copied zero space = (none, space)
  copy_loop segment copied (suc rounds) space =
      if not (ltb copied segment.file_size)
      then (none, space)
      else elim (source_read source (segment.file_offset + copied) (chunk_of segment copied)) [
        | inl error ↦ (some error, space)
        | inr bytes ↦
            chain (answer copy (m.write space (segment.address + copied) bytes))
              (λ after. copy_loop segment (copied + chunk_of segment copied) rounds after)
      ]

  -- The zeroes after a segment's file part.
  pub zero_rest : Segment → S → Option ElfError × S
  zero_rest segment space =
      if ltb segment.file_size segment.memory_size
      then answer copy (
          m.zero_fill space (segment.address + segment.file_size)
            (segment.memory_size - segment.file_size))
      else (none, space)

  -- What follows the mapping of a segment.
  pub fill : Segment → S → Option ElfError × S
  fill segment space = chain (copy_loop segment 0 segment.file_size space) (zero_rest segment)

  -- The first loop; the list holds the segments that are mapped, the last one first.
  pub map_all : List Segment → List Segment → S → Option ElfError × (List Segment × S)
  map_all [] mapped space = (none, (mapped, space))
  map_all (segment ∷ rest) mapped space =
      chain
        (beside mapped
          (answer map (m.map_pages space segment.map_address segment.map_size temporary)))
        (λ now.
          chain (beside (segment ∷ mapped) (fill segment now.1))
            (λ full. map_all rest full.0 full.1))

  -- The second loop.
  pub protect_all : List Segment → S → Option ElfError × S
  protect_all [] space = (none, space)
  protect_all (segment ∷ rest) space =
      chain
        (answer protect (m.protect_pages space segment.map_address segment.map_size segment.flags))
        (λ after. protect_all rest after)

  -- The loop at `rollback`.
  pub rollback : List Segment → S → S
  rollback [] space = space
  rollback (segment ∷ rest) space =
      rollback rest (m.unmap space segment.map_address segment.map_size)

  -- The end of the function: success, or the label `rollback`.
  pub undo : Option ElfError × (List Segment × S) → Option ElfError × S
  undo (some error, (mapped, space)) = (some error, rollback mapped space)
  undo (none, (mapped, space)) = (none, space)

  pub load_image : Image → S → Option ElfError × S
  load_image image space =
      undo
        (chain (map_all image.segments [] space) (λ w. beside w.0 (protect_all image.segments w.1)))

  pub report : Image → Option ElfError × S → (ElfError ⊎ Image) × S
  report image (some error, space) = (inl error, space)
  report image (none, space) = (inr image, space)

  pub load_planned : ElfError ⊎ Image → S → (ElfError ⊎ Image) × S
  load_planned (inl error) space = (inl error, space)
  load_planned (inr image) space = report image (load_image image space)

  -- `ns_elf64_load`
  pub load : Config → S → (ElfError ⊎ Image) × S
  load c space = load_planned (plan source c) space
