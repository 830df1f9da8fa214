-- ===== src/Mm/Pmm/Reserve.antt =====
-- kernel/mm/pmm.c: taking ranges of frames out of the allocator for good.
pub mod Ranges
use Prim.Native.Nat.{bit_and}
use northstar_os.Base.{
  ℕ, zero, suc, ◌+◌, ◌-◌, ◌*◌, ◌/◌, ◌%◌, ◌^◌, Bool, true, false, not, ◌&&◌, ◌||◌, Option, none,
  some, List, ltb, leb, ◌==◌, if◌then◌else◌, ◌≤◌, ◌<◌, ◌≡◌, refl, sym, ap, ◌∙◌, ◌≢◌, ◌↔◌, arith,
  Bool-cases, inl, inr,
}
use northstar_os.Base.Words.{u64_max, add64}
use northstar_os.Mm.Bitmap.{bitmap_get, bitmap_set, bitmap_clear}
use northstar_os.Mm.Bitmap.{Fits, set-Fits, get-set_fit}
use northstar_os.Mm.Pmm.Invariant.{Inv, in_run, free_below, free_below-set}
use northstar_os.Mm.Pmm.{
  Status, ok, einval, ecorrupt, enospc, erange, eperm, edoublefree, Pmm, page_size,
}

-- `align_down_page`
abbrev pub align_down_page : ℕ → ℕ
align_down_page value = bit_and value (u64_max - (page_size - 1))

-- `align_up_page_saturating`
abbrev pub align_up_page_saturating : ℕ → ℕ
align_up_page_saturating value =
    if ltb (u64_max - (page_size - 1)) value
    then bit_and u64_max (u64_max - (page_size - 1))
    else bit_and (value + page_size - 1) (u64_max - (page_size - 1))

-- `mark_frame_permanent`
pub mark_frame_permanent : Pmm → ℕ → Pmm
mark_frame_permanent p frame =
    if leb p.frame_count frame
    then p
    else if bitmap_get p.allocated_bitmap frame
    then record p { reserved_bitmap = bitmap_set p.reserved_bitmap frame }
    else record p {
      allocated_bitmap = bitmap_set p.allocated_bitmap frame;
      free_frames = if p.free_frames == 0 then 0 else p.free_frames - 1;
      reserved_bitmap = bitmap_set p.reserved_bitmap frame;
    }

-- The loop of `reserve_range_unlocked` over `count` frames.
pub mark_run : Pmm → ℕ → ℕ → Pmm
mark_run p frame zero = p
mark_run p frame (suc count) = mark_run (mark_frame_permanent p frame) (frame + 1) count

-- `reserve_range_unlocked`: `end_` saturates, and the loop goes from `first` to `last`.
pub reserve_frames : Pmm → ℕ → ℕ → Pmm
reserve_frames p first last = mark_run p first (last - first)

abbrev pub range_end : Pmm → ℕ → ℕ → ℕ
range_end p base length =
    if ltb (add64 base length) base || ltb p.managed_limit (add64 base length)
    then p.managed_limit
    else add64 base length

abbrev pub last_frame : Pmm → ℕ → ℕ
last_frame p end_ =
    if ltb p.frame_count (align_up_page_saturating end_ / page_size)
    then p.frame_count
    else align_up_page_saturating end_ / page_size

pub reserve_range_unlocked : Pmm → ℕ → ℕ → Pmm
reserve_range_unlocked p base length =
    if (length == 0) || leb p.managed_limit base
    then p
    else reserve_frames p (align_down_page base / page_size)
        (last_frame p (range_end p base length))

-- `ns_pmm_reserve_range`
pub reserve_range : Pmm → ℕ → ℕ → Status × Pmm
reserve_range p base length =
    if (p.initialized == 0) || (length == 0)
    then (einval, p)
    else if leb p.managed_limit base
    then (erange, p)
    else (ok, reserve_range_unlocked p base length)
