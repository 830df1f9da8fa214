-- ===== src/Mm/Pmm.antt =====
-- kernel/mm/pmm.c: the physical page allocator after its initialisation. The state is the struct
-- `ns_pmm` without its spinlock: each operation is one critical section. The pointer arguments are
-- not null. An operation returns its status, what it stores through `out_phys` and the new state.
pub mod Runs
pub mod Invariant
pub mod Search
pub mod Allocation
pub mod Completeness
pub mod Release
pub mod Reserve
pub mod Audit
pub mod Boot
mod Tests
use Prim.Native.Nat.{bit_and}
use northstar_os.Base.{
  ℕ, zero, suc, ◌+◌, ◌-◌, ◌*◌, ◌/◌, ◌%◌, ◌^◌, Bool, true, false, not, ◌&&◌, ◌||◌, Option, none,
  some, List, ltb, leb, ◌==◌, if◌then◌else◌,
}
use northstar_os.Base.Words.{u64_max, add64}
use northstar_os.Mm.Bitmap.{bitmap_get, bitmap_set, bitmap_clear}

-- `ns_pmm_error`
pub data Status : Type 0 where
  ok einval ecorrupt enospc erange eperm edoublefree : Status

-- `ns_pmm`
pub record Pmm : Type 0 where
  pub allocated_bitmap : List ℕ
  pub reserved_bitmap : List ℕ
  pub bytes_per_bitmap : ℕ
  pub frame_count : ℕ
  pub usable_frames : ℕ
  pub free_frames : ℕ
  pub next_hint : ℕ
  pub managed_limit : ℕ
  pub initialized : ℕ

abbrev pub page_size : ℕ
page_size = 4096

abbrev pub invalid_phys : ℕ
invalid_phys = u64_max

-- `align_frame`
unfoldable pub align_frame : ℕ → ℕ → ℕ
align_frame frame alignment =
    if ltb (u64_max - (alignment - 1)) frame
    then u64_max
    else bit_and (frame + (alignment - 1)) (u64_max - (alignment - 1))

-- The loop of `span_is_free`: no frame of `count` from `frame` on is allocated.
pub all_free : List ℕ → ℕ → ℕ → Bool
all_free bitmap frame zero = true
all_free bitmap frame (suc count) = elim (bitmap_get bitmap frame) [
  | true ↦ false
  | false ↦ all_free bitmap (frame + 1) count
]

-- `span_is_free`
pub span_is_free : List ℕ → ℕ → ℕ → ℕ → Bool
span_is_free bitmap first count limit =
    if ltb limit first || ltb (limit - first) count then false else all_free bitmap first count

-- The inner loop of `find_run`: one past the first occupied frame of the candidate.
pub skip_from : List ℕ → ℕ → ℕ → ℕ → ℕ
skip_from bitmap frame i zero = 1
skip_from bitmap frame i (suc count) = elim (bitmap_get bitmap (frame + i)) [
  | true ↦ i + 1
  | false ↦ skip_from bitmap frame (i + 1) count
]

-- The outer loop of `find_run`, at most `fuel` candidates.
pub find_from : ℕ → List ℕ → ℕ → ℕ → ℕ → ℕ → Option ℕ
find_from zero bitmap frame end_ count alignment = none
find_from (suc fuel) bitmap frame end_ count alignment =
    elim (ltb frame end_ && leb count (end_ - frame)) [
      | false ↦ none
      | true ↦ elim (span_is_free bitmap frame count end_) [
        | true ↦ some frame
        | false ↦
            find_from fuel bitmap
              (align_frame (add64 frame (skip_from bitmap frame 0 count)) alignment) end_ count
              alignment
      ]
    ]

-- `find_run`. Candidates grow and stay below `end_`, so that many rounds are enough.
pub find_run : List ℕ → ℕ → ℕ → ℕ → ℕ → Option ℕ
find_run bitmap begin end_ count alignment =
    find_from (suc end_) bitmap (align_frame begin alignment) end_ count alignment

-- The loops that set and clear `count` bits from `frame` on.
pub set_run : List ℕ → ℕ → ℕ → List ℕ
set_run bitmap frame zero = bitmap
set_run bitmap frame (suc count) = set_run (bitmap_set bitmap frame) (frame + 1) count

pub clear_run : List ℕ → ℕ → ℕ → List ℕ
clear_run bitmap frame zero = bitmap
clear_run bitmap frame (suc count) = clear_run (bitmap_clear bitmap frame) (frame + 1) count

-- The bound on frames that `max_phys_exclusive` and the managed memory give.
abbrev pub frame_limit : Pmm → ℕ → ℕ
frame_limit p max_phys =
    if not (max_phys == 0) && ltb (max_phys / page_size) p.frame_count
    then max_phys / page_size
    else p.frame_count

-- The frame at which the first search of `ns_pmm_alloc_pages` starts.
abbrev pub hint_below : Pmm → ℕ → ℕ
hint_below p limit = if ltb p.next_hint limit then p.next_hint else 0

-- The two searches: from the hint to the limit, then from 0 to the hint.
pub search_runs : Pmm → ℕ → ℕ → ℕ → Option ℕ
search_runs p limit count alignment =
    elim (find_run p.allocated_bitmap (hint_below p limit) limit count alignment) [
      | some frame ↦ some frame
      | none ↦ elim (hint_below p limit == 0) [
        | true ↦ none
        | false ↦ find_run p.allocated_bitmap 0 (hint_below p limit) count alignment
      ]
    ]

pub take_run : Pmm → ℕ → ℕ → Pmm
take_run p frame count = record p {
  allocated_bitmap = set_run p.allocated_bitmap frame count;
  free_frames = p.free_frames - count;
  next_hint = if leb p.frame_count (frame + count) then 0 else frame + count;
}

-- `ns_pmm_alloc_pages`
pub alloc_pages : Pmm → ℕ → ℕ → ℕ → Status × Option ℕ × Pmm
alloc_pages p count alignment max_phys =
    if (p.initialized == 0)
      || (count == 0)
      || (alignment == 0)
      || not (bit_and alignment (alignment - 1) == 0)
    then (einval, none, p)
    else if ltb p.free_frames count
    then (enospc, some invalid_phys, p)
    else elim (search_runs p (frame_limit p max_phys) count alignment) [
      | none ↦ (enospc, some invalid_phys, p)
      | some frame ↦ (ok, some (frame * page_size), take_run p frame count)
    ]

-- `ns_pmm_alloc_page`
pub alloc_page : Pmm → Status × Option ℕ × Pmm
alloc_page p = alloc_pages p 1 1 0

-- The first loop of `ns_pmm_free_pages`: every frame is allocated, and none is reserved.
pub check_free : Pmm → ℕ → ℕ → Status
check_free p frame zero = ok
check_free p frame (suc count) = elim (bitmap_get p.reserved_bitmap frame) [
  | true ↦ eperm
  | false ↦ elim (bitmap_get p.allocated_bitmap frame) [
    | false ↦ edoublefree
    | true ↦ check_free p (frame + 1) count
  ]
]

pub give_back : Pmm → ℕ → ℕ → Pmm
give_back p frame count = record p {
  allocated_bitmap = clear_run p.allocated_bitmap frame count;
  free_frames = p.free_frames + count;
  next_hint = if ltb frame p.next_hint then frame else p.next_hint;
}

-- `ns_pmm_free_pages`
pub free_pages : Pmm → ℕ → ℕ → Status × Pmm
free_pages p phys count =
    if (p.initialized == 0) || (count == 0) || not (bit_and phys (page_size - 1) == 0)
    then (einval, p)
    else if leb p.frame_count (phys / page_size) || ltb (p.frame_count - phys / page_size) count
    then (erange, p)
    else elim (check_free p (phys / page_size) count) [
      | ok ↦ (ok, give_back p (phys / page_size) count)
      | failure ↦ (failure, p)
    ]

-- `ns_pmm_free_page`
pub free_page : Pmm → ℕ → Status × Pmm
free_page p phys = free_pages p phys 1

-- `ns_pmm_is_allocated`
pub is_allocated : Pmm → ℕ → Bool
is_allocated p phys =
    if (p.initialized == 0) || not (bit_and phys (page_size - 1) == 0) || leb p.managed_limit phys
    then true
    else bitmap_get p.allocated_bitmap (phys / page_size)

-- `ns_pmm_is_permanently_reserved`
pub is_permanently_reserved : Pmm → ℕ → Bool
is_permanently_reserved p phys =
    if (p.initialized == 0) || not (bit_and phys (page_size - 1) == 0) || leb p.managed_limit phys
    then true
    else bitmap_get p.reserved_bitmap (phys / page_size)
