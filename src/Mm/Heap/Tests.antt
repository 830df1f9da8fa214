-- ===== src/Mm/Heap/Tests.antt =====
-- Runs of the heap of kernel/mm/heap.c in an arena of 16 pages at 65536.
use northstar_os.Base.{
  ℕ, ◌+◌, ◌≡◌, ◌≢◌, refl, inl, true, false, Option, none, some, List, [], ◌∷◌, arith, ◌↔◌,
}
use northstar_os.Mm.Heap.{
  ok, ecorrupt, edoublefree, allocated, block_magic, free_block_at, Heap, PageOps,
  allocation_layout, alloc_in, merge_next, split_trailing, extend, find_block, validate_pointer,
  rejoin, release, failed,
}
use northstar_os.Mm.Heap.Live.{live}
use northstar_os.Mm.Heap.Tiling.{Tiles}
use northstar_os.Mm.Heap.Operations.{grow_heap, init, alloc_rounds, alloc_aligned, free}
use northstar_os.Mm.Heap.Validity.{Valid}
use northstar_os.Mm.Heap.Allocation.{AlignedCases, alloc_aligned-AlignedCases}
use northstar_os.Mm.Heap.Freeing.{FreeCases, free-FreeCases, free-alloc_aligned}
use northstar_os.Mm.Heap.Realloc.{Memory, realloc, resize}
use northstar_os.Mm.Heap.Replacing.{ReallocCases, realloc-ReallocCases}
use northstar_os.Mm.Heap.Statistics.{
  HeapStats, get_stats, count_blocks, ExactStats, get_stats-exact,
}
use northstar_os.Mm.Heap.Startup.{InitCases, init-InitCases_of_heap}
use northstar_os.Mm.Heap.Audit.{
  Links, Linked, check_blocks, check_invariants, check_invariants-Tiles,
}

-- Mapping succeeds, and counts the pages.
abbrev counting : PageOps ℕ
counting = record { map_pages = λ s address pages. (true, s + pages); unmap_pages = none }

-- One committed page, which is a free block.
abbrev one_page : Heap
one_page = record {
  arena_base = 65536;
  arena_size = 65536;
  committed_size = 4096;
  minimum_growth_pages = 2;
  blocks = free_block_at 65536 4096 ∷ [];
  tags = λ p. record { cookie = 0; block = 0; requested = 0 };
  cookie = 77;
  last_error = ok;
  initialized = 1;
}

one_page-Valid : Valid one_page
unfolding live
one_page-Valid = record {
  tiles = (
    refl,
    record {
      marked = refl;
      holds_header = omega arith;
      rounded = refl;
      empty = λ e. (refl, refl);
      full = λ e. absurd (cc);
    },
    refl,
    refl,
  );
  tagged = tt;
  somewhere = omega arith;
  base_page = refl;
  width = omega arith;
  within = omega arith;
  arena_pages = refl;
  committed_pages = refl;
  started = omega arith;
  running = omega arith;
}

-- The heap after an allocation, and the pointer.
abbrev handed : Option (Option ℕ × Heap × ℕ) → Option ℕ × List (ℕ × ℕ × ℕ) × ℕ
handed none = (none, [], 0)
handed (some (p, h, s)) = (p, live h.blocks, s)

-- 100 bytes at a multiple of 64 come from the first page; 5000 bytes need two pages more.
small_run :
    handed (alloc_aligned counting 2 one_page 100 64 0) ≡ (some 65664, (65536, 65664, 100) ∷ [], 0)
unfolding alloc_aligned alloc_rounds alloc_in allocation_layout split_trailing merge_next live
small_run = refl

large_run :
    handed (alloc_aligned counting 2 one_page 5000 16 0)
    ≡ (some 65632, (65536, 65632, 5000) ∷ [], 2)
unfolding alloc_aligned alloc_rounds alloc_in allocation_layout split_trailing merge_next live
    grow_heap extend
large_run = refl

-- The heap after the small allocation.
abbrev after_small : Heap
after_small = allocated one_page 100 65664 65536 (
    record {
      address = 65536;
      magic = block_magic;
      span = 240;
      requested = 100;
      user_pointer = 65664;
      free = false;
    }
    ∷ free_block_at 65776 3856
    ∷ [])

small_result : alloc_aligned counting 2 one_page 100 64 0 ≡ some (some 65664, after_small, 0)
unfolding alloc_aligned alloc_rounds alloc_in allocation_layout split_trailing merge_next
small_result = refl

-- Its pointer can be freed once.
freed_run :
    ((free after_small 65664).0 ≡ ok)
    × ((free after_small 65664).1.blocks ≡ one_page.blocks)
    × ((free (free after_small 65664).1 65664).0 ≡ edoublefree)
unfolding free validate_pointer find_block release rejoin merge_next
freed_run = (refl, refl, refl)

after_small-Valid : Valid after_small
unfolding live
after_small-Valid = record {
  tiles = (
    refl,
    record {
      marked = refl;
      holds_header = omega arith;
      rounded = refl;
      empty = λ e. absurd (cc);
      full = λ e. (omega arith, omega arith, omega arith);
    },
    refl,
    (
      refl,
      record {
        marked = refl;
        holds_header = omega arith;
        rounded = refl;
        empty = λ e. (refl, refl);
        full = λ e. absurd (cc);
      },
      refl,
      refl,
    ),
  );
  tagged = (omega arith, refl, tt);
  somewhere = omega arith;
  base_page = refl;
  width = omega arith;
  within = omega arith;
  arena_pages = refl;
  committed_pages = refl;
  started = omega arith;
  running = omega arith;
}

alloc_example : AlignedCases 100 64 one_page (alloc_aligned counting 2 one_page 100 64 0)
alloc_example =
    alloc_aligned-AlignedCases counting 0 one_page 100 64 0 one_page-Valid (omega arith)
      (omega arith)

free_example : FreeCases after_small 65664 (free after_small 65664)
free_example = free-FreeCases after_small 65664 after_small-Valid

free_alloc_example :
    ((free after_small 65664).0 ≡ ok)
    × (live (free after_small 65664).1.blocks ≡ live one_page.blocks)
    × Valid (free after_small 65664).1
free_alloc_example =
    free-alloc_aligned counting 0 one_page after_small 100 64 65664 0 0 one_page-Valid (omega arith)
      (omega arith) small_result

init_example : InitCases one_page 65536 65536 1 (init counting one_page 65536 65536 1 2 0)
init_example = init-InitCases_of_heap counting one_page 65536 65536 1 2 0 (omega arith)

-- A memory of one byte, which every write changes.
abbrev one_byte : Memory ℕ
one_byte = record { read = λ s address. s; write = λ s address byte. byte }

abbrev page_links : Links
page_links = record { previous = λ address. 0; last = 65536 }

audit_run :
    ((check_invariants page_links one_page).0 ≡ ok)
    × ((check_invariants (record page_links { previous = λ address. 1 }) one_page).0 ≡ ecorrupt)
    × ((check_invariants (record page_links { last = 0 }) one_page).0 ≡ ecorrupt)
unfolding check_invariants check_blocks
audit_run = (refl, refl, refl)

audit_example :
    (((check_invariants page_links one_page).0 ≡ ok) ↔ (
      (page_links.last ≢ 0)
      × Tiles 65536 69632 false one_page.blocks
      × Linked page_links 0 one_page.blocks))
    × (check_invariants page_links one_page ≡ (
      (check_invariants page_links one_page).0,
      failed one_page (check_invariants page_links one_page).0,
    ))
audit_example =
    check_invariants-Tiles page_links one_page (omega arith) (omega arith) (omega arith)
      (λ e. (refl, refl), λ e. absurd (cc), tt)

-- The allocation of 100 bytes grows where it is.
realloc_run :
    handed (realloc counting one_byte 2 after_small 65664 1000 0)
    ≡ (some 65664, (65536, 65664, 1000) ∷ [], 0)
unfolding realloc resize validate_pointer find_block merge_next split_trailing live
realloc_run = refl

realloc_example :
    ReallocCases after_small 65664 1000 (realloc counting one_byte 2 after_small 65664 1000 0)
unfolding live
realloc_example =
    realloc-ReallocCases counting one_byte 0 after_small 65664 1000 0 after_small-Valid
      (omega arith) (inl refl) (omega arith) (omega arith)

abbrev no_stats : HeapStats
no_stats = record {
  arena_size = 0;
  committed_size = 0;
  requested_bytes = 0;
  free_span_bytes = 0;
  largest_free_span = 0;
  live_allocations = 0;
  free_blocks = 0;
}

stats_example : ExactStats after_small (get_stats after_small no_stats)
stats_example = get_stats-exact after_small no_stats after_small-Valid

stats_run :
    ((get_stats after_small no_stats).free_span_bytes + (get_stats after_small no_stats).free_blocks
      ≡ (get_stats after_small no_stats).largest_free_span + 1)
unfolding get_stats count_blocks
stats_run = refl
