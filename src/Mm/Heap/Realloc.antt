-- ===== src/Mm/Heap/Realloc.antt =====
-- `ns_kheap_realloc` of kernel/mm/heap.c, where no other call on the heap comes between its critical
-- sections. The clients' bytes are part of the state that the page callbacks run on.
use northstar_os.Base.{
  ℕ, zero, suc, ◌+◌, Bool, true, false, Option, none, some, List, [], ◌∷◌, ltb, ◌==◌, if◌then◌else◌,
}
use northstar_os.Base.Words.{add64, sub64}
use northstar_os.Base.Align.{align_up_checked}
use northstar_os.Mm.Heap.{
  HeapStatus, ok, Block, Heap, PageOps, min_alignment, failed, put_tag, tag_for, refused, valid,
  validate_pointer, merge_next, split_trailing,
}
use northstar_os.Mm.Heap.Operations.{alloc, free}

-- Reading and writing a byte at an address.
pub record Memory (S : Type 0) : Type 0 where
  pub read : S → ℕ → ℕ
  pub write : S → ℕ → ℕ → S

-- `heap_copy`, from the index `i` on.
pub heap_copy : {S : Type 0} → Memory S → ℕ → ℕ → ℕ → ℕ → S → S
heap_copy memory destination source i zero s = s
heap_copy memory destination source i (suc left) s =
    heap_copy memory destination source (i + 1) left
      (memory.write s (destination + i) (memory.read s (source + i)))

-- The bytes from the pointer to the end of its block.
abbrev pub available : Block → ℕ → ℕ
available b pointer = sub64 b.span (sub64 pointer b.address)

-- The block takes in a free one behind it, if it is short.
abbrev pub widen : ℕ → ℕ → Block → List Block → List Block
widen size pointer b rest = if ltb (available b pointer) size then merge_next b rest else b ∷ rest

-- The block gets its new size and gives back what it does not need. The split does not read the size.
abbrev pub cut : ℕ → ℕ → Block → List Block → List Block
cut size pointer b rest =
    elim (align_up_checked (sub64 (add64 pointer size) b.address) min_alignment) [
      | none ↦ record b { requested = size } ∷ rest
      | some consumed ↦ split_trailing consumed (record b { requested = size }) rest
    ]

-- The first block gets its new size, if it has room.
abbrev pub fit : ℕ → ℕ → List Block → Bool × List Block
fit size pointer [] = (false, [])
fit size pointer (b ∷ rest) =
    if ltb (available b pointer) size then (false, b ∷ rest) else (true, cut size pointer b rest)

-- The same for the block at an address, and whether it had room.
unfoldable pub resize : ℕ → ℕ → ℕ → List Block → Bool × List Block
resize address size pointer [] = (false, [])
resize address size pointer (b ∷ rest) =
    let later = resize address size pointer rest in
    if b.address == address
    then fit size pointer (widen size pointer b rest)
    else (later.0, b ∷ later.1)

-- The old allocation goes, when there is a new one.
abbrev pub give_back : {S : Type 0} → ℕ → ℕ → S → HeapStatus × Heap → Option (Option ℕ × Heap × S)
give_back pointer replacement s (ok, h) = some (some replacement, h, s)
give_back pointer replacement s (_, h) = some (none, (free h replacement).1, s)

abbrev pub replace :
    {S : Type 0}
    → Memory S
    → ℕ
    → ℕ
    → ℕ
    → Option (Option ℕ × Heap × S)
    → Option (Option ℕ × Heap × S)
replace memory pointer old_size size none = none
replace memory pointer old_size size (some (none, h, s)) = some (none, h, s)
replace memory pointer old_size size (some (some replacement, h, s)) =
    give_back pointer replacement
      (heap_copy memory replacement pointer 0 (if ltb old_size size then old_size else size) s)
      (free h pointer)

-- What follows the validation.
abbrev pub moved_or_resized :
    {S : Type 0}
    → PageOps S
    → Memory S
    → ℕ
    → Heap
    → ℕ
    → ℕ
    → S
    → Block
    → Bool × List Block
    → Option (Option ℕ × Heap × S)
moved_or_resized ops memory fuel h pointer size s b (true, after) = some (
  some pointer,
  record h {
    blocks = after;
    tags = put_tag h.tags pointer (tag_for h b.address pointer size);
    last_error = ok;
  },
  s,
)
moved_or_resized ops memory fuel h pointer size s b (false, after) =
    replace memory pointer b.requested size (alloc ops fuel (record h { blocks = after }) size s)

unfoldable pub realloc :
    {S : Type 0} → PageOps S → Memory S → ℕ → Heap → ℕ → ℕ → S → Option (Option ℕ × Heap × S)
realloc ops memory fuel h pointer size s =
    if pointer == 0
    then alloc ops fuel h size s
    else if size == 0
    then some (none, (free h pointer).1, s)
    else if h.initialized == 0
    then some (none, h, s)
    else elim (validate_pointer h pointer) [
      | refused error ↦ some (none, failed h error, s)
      | valid b ↦
          moved_or_resized ops memory fuel h pointer size s b
            (resize b.address size pointer h.blocks)
    ]
