-- ===== src/Mm/Heap/Operations.antt =====
-- The public operations of kernel/mm/heap.c, over the state `S` of the page callbacks. The loop of
-- `ns_kheap_alloc_aligned` runs on fuel: an answer of `none` means that it ran out.
use northstar_os.Base.{
  ℕ, zero, suc, ◌+◌, ◌-◌, ◌*◌, ◌/◌, ◌^◌, Bool, true, false, not, ◌&&◌, ◌||◌, Option, none, some,
  List, [], ◌∷◌, ltb, ◌==◌, if◌then◌else◌,
}
use Prim.Native.Nat.{bit_and, bit_xor}
use northstar_os.Base.Words.{u64_max, add64, mul64, is_power_of_two}
use northstar_os.Mm.Heap.{
  HeapStatus, ok, einval, enomem, ebusy, Block, Tag, Heap, PageOps, page_size, header_size,
  tag_size, min_alignment, alloc_in, growth_of, no_growth, grown, failed, put_tag, allocated,
  refused, valid, validate_pointer, release,
}

-- `KHEAP_COOKIE_SEED`
abbrev pub cookie_seed : ℕ
cookie_seed = 0x9e3779b97f4a7c15

-- The outcome of `grow_heap`: NS_KHEAP_OK with the larger heap, or an error with the heap as it was.
pub data Growth (S : Type 0) : Type 0 where
  larger : Heap → S → Growth S
  short : HeapStatus → S → Growth S

-- The answer of the page callback.
abbrev pub mapped : {S : Type 0} → Heap → ℕ → Bool × S → Growth S
mapped h growth (true, s) = larger (grown h growth) s
mapped h growth (false, s) = short enomem s

-- The whole of `grow_heap`. The bytes that it clears are not part of the model.
unfoldable pub grow_heap : {S : Type 0} → PageOps S → Heap → ℕ → S → Growth S
grow_heap ops h minimum s =
    if no_growth h minimum
    then short enomem s
    else mapped h (growth_of h minimum)
        (ops.map_pages s (h.arena_base + h.committed_size) (growth_of h minimum / page_size))

-- The arguments that `ns_kheap_init` refuses.
abbrev pub init_refuses : ℕ → ℕ → ℕ → ℕ → Bool
init_refuses base size initial_pages minimum_growth_pages =
    (base == 0)
    || not (bit_and base (page_size - 1) == 0)
    || ltb size page_size
    || not (bit_and size (page_size - 1) == 0)
    || (initial_pages == 0)
    || ltb (size / page_size) initial_pages
    || (minimum_growth_pages == 0)
    || ltb (u64_max - size) base

-- The fields that it sets before the heap has its first block.
abbrev pub fresh : ℕ → ℕ → ℕ → (ℕ → Tag) → Heap
fresh base size minimum_growth_pages tags = record {
  arena_base = base;
  arena_size = size;
  committed_size = 0;
  minimum_growth_pages = minimum_growth_pages;
  blocks = [];
  tags = tags;
  cookie = bit_xor (bit_xor cookie_seed base) (mul64 size (2 ^ 17));
  last_error = ok;
  initialized = 1;
}

-- `ns_kheap_init`, on a heap of any content.
unfoldable pub init : {S : Type 0} → PageOps S → Heap → ℕ → ℕ → ℕ → ℕ → S → HeapStatus × Heap × S
init ops h base size initial_pages minimum_growth_pages s =
    if init_refuses base size initial_pages minimum_growth_pages
    then (einval, h, s)
    else elim (grow_heap ops (fresh base size minimum_growth_pages h.tags)
        (initial_pages * page_size) s) [
          | larger ready after ↦ (ok, ready, after)
          | short error after ↦ (
            error,
            record (fresh base size minimum_growth_pages h.tags) {
              initialized = 0;
              last_error = error;
            },
            after,
          )
        ]

abbrev pub all_free : List Block → Bool
all_free [] = true
all_free (b ∷ rest) = b.free && all_free rest

-- `ns_kheap_destroy`
unfoldable pub destroy : {S : Type 0} → PageOps S → Heap → S → HeapStatus × Heap × S
destroy ops h s =
    if h.initialized == 0
    then (einval, h, s)
    else if not (all_free h.blocks)
    then (ebusy, failed h ebusy, s)
    else (
      ok,
      record h { blocks = []; committed_size = 0; initialized = 0; last_error = ok },
      elim ops.unmap_pages [
        | none ↦ s
        | some unmap ↦ unmap s h.arena_base (h.committed_size / page_size)
      ],
    )

-- The bytes that the heap grows by at least, or none if they do not fit in a word.
abbrev pub minimum_for : ℕ → ℕ → Option ℕ
minimum_for size alignment =
    if ltb (add64 (header_size + tag_size) size) (header_size + tag_size)
    then none
    else if ltb (add64 (add64 (header_size + tag_size) size) alignment)
        (add64 (header_size + tag_size) size)
    then none
    else some (add64 (add64 (header_size + tag_size) size) alignment)

-- The loop of `ns_kheap_alloc_aligned`: the pointer, or none for a null one.
unfoldable pub alloc_rounds :
    {S : Type 0} → PageOps S → ℕ → Heap → ℕ → ℕ → S → Option (Option ℕ × Heap × S)
alloc_rounds ops zero h size alignment s = none
alloc_rounds ops (suc fuel) h size alignment s = elim (alloc_in size alignment h.blocks) [
  | some (pointer, address, after) ↦ some (some pointer, allocated h size pointer address after, s)
  | none ↦ elim (minimum_for size alignment) [
    | none ↦ some (none, failed h enomem, s)
    | some minimum ↦ elim (grow_heap ops h minimum s) [
      | larger more after ↦ alloc_rounds ops fuel more size alignment after
      | short error after ↦ some (none, failed h error, after)
    ]
  ]
]

abbrev pub effective : ℕ → ℕ
effective alignment = if ltb alignment min_alignment then min_alignment else alignment

-- `ns_kheap_alloc_aligned`
unfoldable pub alloc_aligned :
    {S : Type 0} → PageOps S → ℕ → Heap → ℕ → ℕ → S → Option (Option ℕ × Heap × S)
alloc_aligned ops fuel h size alignment s =
    if (h.initialized == 0) || (size == 0) || not (is_power_of_two alignment)
    then some (none, failed h einval, s)
    else alloc_rounds ops fuel h size (effective alignment) s

-- `ns_kheap_alloc`
abbrev pub alloc : {S : Type 0} → PageOps S → ℕ → Heap → ℕ → S → Option (Option ℕ × Heap × S)
alloc ops fuel h size s = alloc_aligned ops fuel h size min_alignment s

-- `ns_kheap_calloc`, but for the bytes that it clears.
unfoldable pub calloc :
    {S : Type 0} → PageOps S → ℕ → Heap → ℕ → ℕ → S → Option (Option ℕ × Heap × S)
calloc ops fuel h count size s =
    if (count == 0) || (size == 0) || ltb (u64_max / size) count
    then some (none, failed h einval, s)
    else alloc ops fuel h (count * size) s

-- `ns_kheap_free`, a null pointer being 0.
unfoldable pub free : Heap → ℕ → HeapStatus × Heap
free h pointer =
    if pointer == 0
    then (ok, h)
    else if h.initialized == 0
    then (einval, h)
    else elim (validate_pointer h pointer) [
      | refused error ↦ (error, failed h error)
      | valid b ↦ (
        ok,
        record h {
          blocks = release b.address h.blocks;
          tags = put_tag h.tags pointer (record (h.tags pointer) { cookie = 0 });
          last_error = ok;
        },
      )
    ]

-- `ns_kheap_usable_size`
unfoldable pub usable_size : Heap → ℕ → ℕ × Heap
usable_size h pointer =
    if (pointer == 0) || (h.initialized == 0) then (0, h) else elim (validate_pointer h pointer) [
      | refused error ↦ (0, failed h error)
      | valid b ↦ (b.requested, failed h ok)
    ]
