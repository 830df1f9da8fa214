-- ===== src/Mm/Heap.antt =====
-- include/northstar/mm_heap.h and kernel/mm/heap.c: the kernel heap. The blocks, which the source
-- links through their headers in the order of their addresses, are a list; the tags that stand in
-- front of the pointers handed out are a function on these. An operation is one critical section. The
-- page callbacks are parameters over a state `S`. Pointers to heaps and results are not null. What an
-- address other than a block's holds is taken not to be a header's magic number.
pub mod Tiling
pub mod Live
pub mod Search
pub mod Growth
pub mod Release
pub mod Operations
pub mod Validity
pub mod Allocation
pub mod Pointers
pub mod Freeing
pub mod Startup
pub mod Realloc
pub mod Resizing
pub mod Exchange
pub mod Replacing
pub mod Statistics
pub mod Audit
mod Tests
use Prim.Native.Nat.{bit_and, bit_xor}
use northstar_os.Base.{
  ℕ, zero, suc, ◌+◌, ◌-◌, ◌*◌, ◌/◌, ◌%◌, ◌^◌, Bool, true, false, not, ◌&&◌, ◌||◌, Option, none,
  some, List, [], ◌∷◌, ltb, leb, ◌==◌, if◌then◌else◌,
}
use northstar_os.Base.Words.{u64_max, add64, sub64, is_power_of_two}
use northstar_os.Base.Align.{align_up_checked}

-- `ns_kheap_error`
pub data HeapStatus : Type 0 where
  ok einval enomem ecorrupt edoublefree ebusy : HeapStatus

-- `ns_kheap_block`, with its address.
pub record Block : Type 0 where
  pub address : ℕ
  pub magic : ℕ
  pub span : ℕ
  pub requested : ℕ
  pub user_pointer : ℕ
  pub free : Bool

-- `allocation_tag`
pub record Tag : Type 0 where
  pub cookie : ℕ
  pub block : ℕ
  pub requested : ℕ

-- `ns_kheap`
pub record Heap : Type 0 where
  pub arena_base : ℕ
  pub arena_size : ℕ
  pub committed_size : ℕ
  pub minimum_growth_pages : ℕ
  pub blocks : List Block
  pub tags : ℕ → Tag
  pub cookie : ℕ
  pub last_error : HeapStatus
  pub initialized : ℕ

-- `ns_kheap_page_ops`
pub record PageOps (S : Type 0) : Type 0 where
  pub map_pages : S → ℕ → ℕ → Bool × S
  pub unmap_pages : Option (S → ℕ → ℕ → S)

abbrev pub page_size : ℕ
page_size = 4096

abbrev pub block_magic : ℕ
block_magic = 0x4e5348454150424c

-- `BLOCK_HEADER_SIZE`, the size of a tag, NS_KHEAP_MIN_ALIGNMENT and `MIN_BLOCK_SPAN`.
abbrev pub header_size : ℕ
header_size = 64

abbrev pub tag_size : ℕ
tag_size = 24

abbrev pub min_alignment : ℕ
min_alignment = 16

abbrev pub min_block_span : ℕ
min_block_span = 104

-- `initialize_free_block`
abbrev pub free_block_at : ℕ → ℕ → Block
free_block_at address span = record {
  address = address;
  magic = block_magic;
  span = span;
  requested = 0;
  user_pointer = 0;
  free = true;
}

-- `allocation_cookie`
abbrev pub allocation_cookie : Heap → ℕ → ℕ → ℕ
allocation_cookie h block pointer = bit_xor (bit_xor h.cookie block) pointer

-- `allocation_layout`: the pointer and the bytes that the block keeps.
abbrev pub consumed_by : Block → ℕ → ℕ → Option (ℕ × ℕ)
consumed_by b size pointer =
    if ltb (u64_max - size) pointer
    then none
    else elim (align_up_checked (pointer + size - b.address) min_alignment) [
      | none ↦ none
      | some consumed ↦ if ltb b.span consumed then none else some (pointer, consumed)
    ]

pub allocation_layout : Block → ℕ → ℕ → Option (ℕ × ℕ)
allocation_layout b size alignment =
    if ltb (u64_max - header_size - tag_size) b.address
    then none
    else elim (align_up_checked (b.address + header_size + tag_size) alignment) [
      | none ↦ none
      | some pointer ↦ consumed_by b size pointer
    ]

-- `merge_next`, on a block and those behind it.
pub merge_next : Block → List Block → List Block
merge_next b [] = b ∷ []
merge_next b (next ∷ rest) =
    if next.free then record b { span = b.span + next.span } ∷ rest else b ∷ next ∷ rest

-- `split_trailing`, on a block and those behind it.
pub split_trailing : ℕ → Block → List Block → List Block
split_trailing consumed b rest =
    if ltb (sub64 b.span consumed) min_block_span
    then b ∷ rest
    else record b { span = consumed }
      ∷ merge_next (free_block_at (b.address + consumed) (sub64 b.span consumed)) rest

-- What `ns_kheap_alloc_aligned` makes of the block that it takes. The split reads none of these fields.
abbrev pub taken : Block → ℕ → ℕ → Block
taken b size pointer = record b { requested = size; user_pointer = pointer; free = false }

-- The search of `ns_kheap_alloc_aligned`: the pointer, the address of its block, and the blocks.
pub alloc_in : ℕ → ℕ → List Block → Option (ℕ × ℕ × List Block)
alloc_in size alignment [] = none
alloc_in size alignment (b ∷ rest) =
    elim (if b.free then allocation_layout b size alignment else none) [
      | some (pointer, consumed) ↦
          some (pointer, b.address, split_trailing consumed (taken b size pointer) rest)
      | none ↦ elim (alloc_in size alignment rest) [
        | some (pointer, address, after) ↦ some (pointer, address, b ∷ after)
        | none ↦ none
      ]
    ]

-- The end of `grow_heap`: the last block grows, or a new one follows it.
pub extend : ℕ → ℕ → List Block → List Block
extend address growth [] = free_block_at address growth ∷ []
extend address growth (b ∷ []) =
    if b.free
    then record b { span = b.span + growth } ∷ []
    else b ∷ free_block_at address growth ∷ []
extend address growth (b ∷ c ∷ rest) = b ∷ extend address growth (c ∷ rest)

-- The number of pages that `grow_heap` asks for first.
abbrev pub wanted_pages : Heap → ℕ → ℕ
wanted_pages h minimum =
    if ltb ((minimum + page_size - 1) / page_size) h.minimum_growth_pages
    then h.minimum_growth_pages
    else (minimum + page_size - 1) / page_size

-- The bytes by which the heap grows: these pages, or what is left of the arena.
abbrev pub growth_of : Heap → ℕ → ℕ
growth_of h minimum =
    if ltb (h.arena_size - h.committed_size) (wanted_pages h minimum * page_size)
    then h.arena_size - h.committed_size
    else wanted_pages h minimum * page_size

abbrev pub no_growth : Heap → ℕ → Bool
no_growth h minimum =
    ltb (u64_max - (page_size - 1)) minimum
    || ltb (u64_max / page_size) (wanted_pages h minimum)
    || ltb (growth_of h minimum) minimum
    || (growth_of h minimum / page_size == 0)

-- The heap with `growth` bytes more.
abbrev pub grown : Heap → ℕ → Heap
grown h growth = record h {
  blocks = extend (h.arena_base + h.committed_size) growth h.blocks;
  committed_size = h.committed_size + growth;
}

-- The error of an operation, which is also the heap's last one.
abbrev pub failed : Heap → HeapStatus → Heap
failed h status = record h { last_error = status }

-- A tag more.
abbrev pub put_tag : (ℕ → Tag) → ℕ → Tag → ℕ → Tag
put_tag tags pointer tag other = if other == pointer then tag else tags other

abbrev pub tag_for : Heap → ℕ → ℕ → ℕ → Tag
tag_for h block pointer size = record {
  cookie = allocation_cookie h block pointer;
  block = block;
  requested = size;
}

-- The heap after a search that found a block.
abbrev pub allocated : Heap → ℕ → ℕ → ℕ → List Block → Heap
allocated h size pointer address after = record h {
  blocks = after;
  tags = put_tag h.tags pointer (tag_for h address pointer size);
  last_error = ok;
}

-- A validated pointer, or the error.
pub data Checked : Type 0 where
  refused : HeapStatus → Checked
  valid : Block → Checked

pub find_block : ℕ → List Block → Option Block
find_block address [] = none
find_block address (b ∷ rest) = if b.address == address then some b else find_block address rest

-- The tests of `validate_pointer` on the tag and its block.
abbrev pub check_block : Heap → ℕ → Block → Checked
check_block h pointer b =
    if not (b.magic == block_magic)
    then refused ecorrupt
    else if b.free
    then refused edoublefree
    else if not (b.user_pointer == pointer)
        || not (b.requested == (h.tags pointer).requested)
        || not ((h.tags pointer).cookie == allocation_cookie h b.address pointer)
    then refused ecorrupt
    else valid b

-- The tests of `validate_pointer` on the pointer, and on the block that its tag names.
abbrev pub out_of_range : Heap → ℕ → Bool
out_of_range h pointer =
    (pointer == 0)
    || ltb pointer (h.arena_base + header_size + tag_size)
    || leb (h.arena_base + h.committed_size) pointer

abbrev pub names_no_block : Heap → ℕ → Bool
names_no_block h pointer =
    ltb (h.tags pointer).block h.arena_base
    || ltb (h.arena_base + h.committed_size - header_size) (h.tags pointer).block

-- `validate_pointer`
pub validate_pointer : Heap → ℕ → Checked
validate_pointer h pointer =
    if out_of_range h pointer
    then refused einval
    else if names_no_block h pointer
    then refused ecorrupt
    else elim (find_block (h.tags pointer).block h.blocks) [
      | none ↦ refused ecorrupt
      | some b ↦ check_block h pointer b
    ]

-- The block before one that has just been freed takes it in, if it is free.
pub rejoin : ℕ → Block → List Block → List Block
rejoin address b [] = b ∷ []
rejoin address b (next ∷ rest) =
    if (next.address == address) && b.free then merge_next b (next ∷ rest) else b ∷ next ∷ rest

abbrev pub freed : Block → Block
freed b = record b { requested = 0; user_pointer = 0; free = true }

-- What `ns_kheap_free` does to the blocks.
pub release : ℕ → List Block → List Block
release address [] = []
release address (b ∷ rest) =
    if b.address == address
    then merge_next (freed b) rest
    else rejoin address b (release address rest)
