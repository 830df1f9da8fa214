-- ===== src/Mm/Pmm/Tests.antt =====
-- Runs of the allocator of kernel/mm/pmm.c on eight frames, of which the first three are reserved.
use northstar_os.Base.{
  ℕ, ◌+◌, ◌<◌, ◌≤◌, ◌≡◌, refl, ◌⊎◌, inl, Bool, true, false, not, ◌||◌, some, [], ◌∷◌, arith, ltb,
  ◌==◌, ◌↔◌,
}
use northstar_os.Base.Tables.{all_below, all_below_sound}
use northstar_os.Mm.Bitmap.{bitmap_get, bitmap_set}
use northstar_os.Mm.Pmm.{
  ok, enospc, Pmm, invalid_phys, align_frame, all_free, span_is_free, skip_from, find_from,
  find_run, set_run, search_runs, take_run, alloc_pages, free_pages, frame_limit,
}
use northstar_os.Mm.Pmm.Runs.{IsRun}
use northstar_os.Mm.Pmm.Invariant.{Inv, free_below}
use northstar_os.Mm.Pmm.Allocation.{Found, NoRun, alloc_pages-Found, alloc_pages-enospc}
use northstar_os.Mm.Pmm.Completeness.{alloc_pages-succeeds, straddling_run_missed}
use northstar_os.Mm.Pmm.Release.{FreeCases, free_pages-FreeCases, free-alloc_pages}
use northstar_os.Mm.Pmm.Reserve.{reserve_range_unlocked}
use northstar_os.Mm.Pmm.Reserve.Ranges.{Covers, reserve_range-Covers}
use northstar_os.Mm.Pmm.Audit.{check_invariants, Consistent, check_invariants-Consistent}

-- Frames 3 to 7 are free.
abbrev plain : Pmm
plain = record {
  allocated_bitmap = 7 ∷ [];
  reserved_bitmap = 7 ∷ [];
  bytes_per_bitmap = 1;
  frame_count = 8;
  usable_frames = 5;
  free_frames = 5;
  next_hint = 0;
  managed_limit = 32768;
  initialized = 1;
}

-- Frames 3 and 4 are free, and the hint is between them.
abbrev split : Pmm
split = record {
  allocated_bitmap = 231 ∷ [];
  reserved_bitmap = 7 ∷ [];
  bytes_per_bitmap = 1;
  frame_count = 8;
  usable_frames = 5;
  free_frames = 2;
  next_hint = 4;
  managed_limit = 32768;
  initialized = 1;
}

-- Each reserved frame of the first eight is allocated.
abbrev kept : Pmm → ℕ → Bool
kept p f = not (bitmap_get p.reserved_bitmap f) || bitmap_get p.allocated_bitmap f

kept_all :
    (p : Pmm)
    → all_below 8 (kept p) ≡ true
    → (f : ℕ) → f < 8
    → bitmap_get p.reserved_bitmap f ≡ true
    → bitmap_get p.allocated_bitmap f ≡ true
kept_all p h f l r = ground (arith, all_below_sound 8 (kept p) f l h, r)

plain-Inv : Inv plain
unfolding bitmap_get free_below all_below
plain-Inv = record {
  allocated_fits = record { bytes = (omega arith, tt); size = refl };
  reserved_fits = record { bytes = (omega arith, tt); size = refl };
  reserved_allocated = kept_all plain refl;
  counted = refl;
  sized = refl;
  nonempty = omega arith;
  bounded = omega arith;
}

split-Inv : Inv split
unfolding bitmap_get free_below all_below
split-Inv = record {
  allocated_fits = record { bytes = (omega arith, tt); size = refl };
  reserved_fits = record { bytes = (omega arith, tt); size = refl };
  reserved_allocated = kept_all split refl;
  counted = refl;
  sized = refl;
  nonempty = omega arith;
  bounded = omega arith;
}

-- Two frames at an even frame number.
abbrev taken : Pmm
taken = record plain { allocated_bitmap = 55 ∷ []; free_frames = 3; next_hint = 6 }

two_frames : alloc_pages plain 2 2 0 ≡ (ok, some 16384, taken)
unfolding alloc_pages search_runs find_run find_from span_is_free all_free skip_from align_frame
    take_run set_run bitmap_get bitmap_set
two_frames = refl

alloc_pages-Found_example : Found plain 2 2 0 (some 16384) taken
alloc_pages-Found_example =
    alloc_pages-Found plain plain-Inv 2 0 2 (some 16384) taken (omega arith) two_frames

six_frames : alloc_pages plain 6 1 0 ≡ (enospc, some invalid_phys, plain)
unfolding alloc_pages
six_frames = refl

alloc_pages-enospc_example :
    (plain ≡ plain)
    × (some invalid_phys ≡ some invalid_phys)
    × ((plain.free_frames < 6) ⊎ NoRun 0 plain (frame_limit plain 0) 6)
alloc_pages-enospc_example =
    alloc_pages-enospc plain plain-Inv 6 0 0 (some invalid_phys) plain (omega arith) six_frames

free_at :
    (f : ℕ)
    → all_below 8 (λ g. ltb g 4 || not (bitmap_get plain.allocated_bitmap g)) ≡ true
    → 4 ≤ f
    → f < 8
    → bitmap_get plain.allocated_bitmap f ≡ false
free_at f h lo hi =
    ground
      (arith, all_below_sound 8 (λ g. ltb g 4 || not (bitmap_get plain.allocated_bitmap g)) f hi h)

alloc_pages-succeeds_example : (alloc_pages plain 2 2 0).0 ≡ ok
unfolding bitmap_get all_below
alloc_pages-succeeds_example =
    alloc_pages-succeeds plain plain-Inv 2 0 1 (omega arith) 4 (omega arith) (omega arith)
      (omega arith)
      (inl (
        omega arith,
        omega arith,
        (2, refl),
        λ f lo hi. free_at f refl (omega arith) (omega arith),
      ))

-- Two frames of `split` in a row are free only at 3.
abbrev busy_pair : ℕ → Bool
busy_pair c =
    (c == 3) || bitmap_get split.allocated_bitmap c || bitmap_get split.allocated_bitmap (c + 1)

only_run : (c : ℕ) → all_below 7 busy_pair ≡ true → IsRun 0 split.allocated_bitmap 0 8 2 c → c ≡ 3
only_run c h (lo, hi, al, free) = ground (
  arith,
  all_below_sound 7 busy_pair c (omega arith) h,
  free c (omega arith) (omega arith),
  free (c + 1) (omega arith) (omega arith),
)

straddling_run_missed_example : alloc_pages split 2 1 0 ≡ (enospc, some invalid_phys, split)
unfolding bitmap_get all_below
straddling_run_missed_example =
    straddling_run_missed split split-Inv 2 0 0 (omega arith) (omega arith) (omega arith)
      (omega arith) (λ c r. (omega (arith, only_run c refl r), omega (arith, only_run c refl r)))

free_pages-FreeCases_example :
    FreeCases taken 16384 2 (free_pages taken 16384 2).0 (free_pages taken 16384 2).1
free_pages-FreeCases_example =
    free_pages-FreeCases taken 16384 2 (alloc_pages-Found_example.consistent)

free-alloc_pages_example :
    ((free_pages taken 16384 2).0 ≡ ok)
    × ((f : ℕ)
        → f < 8
        → bitmap_get (free_pages taken 16384 2).1.allocated_bitmap f
          ≡ bitmap_get plain.allocated_bitmap f)
    × ((free_pages taken 16384 2).1.free_frames ≡ 5)
    × ((free_pages taken 16384 2).1.reserved_bitmap ≡ plain.reserved_bitmap)
free-alloc_pages_example =
    free-alloc_pages plain 2 2 0 16384 taken plain-Inv (omega arith) (omega arith) (omega arith)
      two_frames

reserve_range-Covers_example : Covers plain (reserve_range_unlocked plain 20000 5000) 20000 5000
reserve_range-Covers_example =
    reserve_range-Covers plain 20000 5000 plain-Inv refl (omega arith) (omega arith) (omega arith)
      (omega arith) (omega arith)

check_invariants-Consistent_example : (check_invariants split ≡ ok) ↔ Consistent split
check_invariants-Consistent_example = check_invariants-Consistent split
