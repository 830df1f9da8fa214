-- ===== src/Mm/Pmm/Reserve/Ranges.antt =====
-- What `ns_pmm_reserve_range` of kernel/mm/pmm.c makes of every frame.
use northstar_os.Base.{
  ℕ, zero, suc, ◌+◌, ◌-◌, ◌*◌, ◌/◌, ◌^◌, true, false, ◌||◌, leb, ◌==◌, if◌then◌else◌, ◌≤◌, ◌<◌, ◌≡◌,
  refl, ap, ◌∙◌, ◌≢◌, arith, Bool-cases, inl, inr, ◌⊎◌, min,
}
use northstar_os.Mm.Bitmap.{bitmap_get, bitmap_set}
use northstar_os.Mm.Bitmap.{set-Fits, get-set_fit}
use northstar_os.Mm.Pmm.Invariant.{Inv, in_run, free_below-set}
use northstar_os.Mm.Pmm.{Pmm, page_size}
use northstar_os.Base.Bits.{mask_split, high_split}
use northstar_os.Mm.Pmm.Reserve.{
  align_down_page, align_up_page_saturating, mark_frame_permanent, mark_run, reserve_frames,
  range_end, last_frame, reserve_range_unlocked,
}

-- Exactly the frames of the run become reserved, and with that unavailable.
pub record Reserves (p q : Pmm) (first count : ℕ) : Type 0 where
  pub reserved_bits :
      (f : ℕ)
      → bitmap_get q.reserved_bitmap f
        ≡ (if in_run first count f then true else bitmap_get p.reserved_bitmap f)
  pub allocated_bits :
      (f : ℕ)
      → bitmap_get q.allocated_bitmap f
        ≡ (if in_run first count f then true else bitmap_get p.allocated_bitmap f)
  pub frames_kept : q.frame_count ≡ p.frame_count
  pub limit_kept : q.managed_limit ≡ p.managed_limit
  pub ready_kept : q.initialized ≡ p.initialized
  pub consistent : Inv q

module _ (p : Pmm) (frame : ℕ) (v : Inv p) (l : frame < p.frame_count) where
  -- The two ways of marking: the frame was unavailable already, or it was free.
  abbrev marked_taken : Pmm
  marked_taken = record p { reserved_bitmap = bitmap_set p.reserved_bitmap frame }

  abbrev marked_free : Pmm
  marked_free = record p {
    allocated_bitmap = bitmap_set p.allocated_bitmap frame;
    free_frames = if p.free_frames == 0 then 0 else p.free_frames - 1;
    reserved_bitmap = bitmap_set p.reserved_bitmap frame;
  }

  marked_taken-Inv : bitmap_get p.allocated_bitmap frame ≡ true → Inv marked_taken
  marked_taken-Inv taken = record {
    allocated_fits = v.allocated_fits;
    reserved_fits = set-Fits frame v.reserved_fits;
    reserved_allocated = λ f lt r.
        ground (arith, get-set_fit frame f v.reserved_fits l, v.reserved_allocated f lt, taken, r);
    counted = v.counted;
    sized = v.sized;
    nonempty = v.nonempty;
    bounded = v.bounded;
  }

  marked_free-Inv : bitmap_get p.allocated_bitmap frame ≡ false → Inv marked_free
  marked_free-Inv open_ = record {
    allocated_fits = set-Fits frame v.allocated_fits;
    reserved_fits = set-Fits frame v.reserved_fits;
    reserved_allocated = λ f lt r. ground (
      arith,
      get-set_fit frame f v.reserved_fits l,
      get-set_fit frame f v.allocated_fits l,
      v.reserved_allocated f lt,
      r,
    );
    counted = ground (
      arith,
      v.counted,
      free_below-set p.allocated_bitmap p.frame_count frame p.frame_count v.allocated_fits l l
          open_,
    );
    sized = v.sized;
    nonempty = v.nonempty;
    bounded = v.bounded;
  }

  mark_frame-Reserves : Reserves p (mark_frame_permanent p frame) frame 1
  unfolding mark_frame_permanent
  mark_frame-Reserves = elim (Bool-cases (bitmap_get p.allocated_bitmap frame)) [
    | inl taken ↦
        rw (tracked, taken)
          (record {
            reserved_bits = λ f. ground (arith, get-set_fit frame f v.reserved_fits l);
            allocated_bits = λ f. ground (arith, taken, at_frame f);
            frames_kept = refl;
            limit_kept = refl;
            ready_kept = refl;
            consistent = marked_taken-Inv taken;
          })
    | inr open_ ↦
        rw (tracked, open_)
          (record {
            reserved_bits = λ f. ground (arith, get-set_fit frame f v.reserved_fits l);
            allocated_bits = λ f. ground (arith, get-set_fit frame f v.allocated_fits l);
            frames_kept = refl;
            limit_kept = refl;
            ready_kept = refl;
            consistent = marked_free-Inv open_;
          })
  ]
    where
      tracked : leb p.frame_count frame ≡ false
      tracked = ground arith

      at_frame :
          (f : ℕ)
          → f ≡ frame
          → bitmap_get p.allocated_bitmap f ≡ bitmap_get p.allocated_bitmap frame
      at_frame f e = ap (bitmap_get p.allocated_bitmap) e

Reserves-next :
    (p q r : Pmm) (first count : ℕ)
    → Reserves p q first 1
    → Reserves q r (first + 1) count
    → Reserves p r first (suc count)
Reserves-next p q r first count a b = record {
  reserved_bits = λ f. ground (arith, a.reserved_bits f, b.reserved_bits f);
  allocated_bits = λ f. ground (arith, a.allocated_bits f, b.allocated_bits f);
  frames_kept = b.frames_kept ∙ a.frames_kept;
  limit_kept = b.limit_kept ∙ a.limit_kept;
  ready_kept = b.ready_kept ∙ a.ready_kept;
  consistent = b.consistent;
}

pub mark_run-Reserves :
    (p : Pmm) (first count : ℕ)
    → Inv p
    → first + count ≤ p.frame_count
    → Reserves p (mark_run p first count) first count
unfolding mark_run
mark_run-Reserves p first zero v l = record {
  reserved_bits = λ f. ground arith;
  allocated_bits = λ f. ground arith;
  frames_kept = refl;
  limit_kept = refl;
  ready_kept = refl;
  consistent = v;
}
mark_run-Reserves p first (suc count) v l =
    let a = mark_frame-Reserves p first v (omega arith) in
    Reserves-next p _ _ first count a (
      mark_run-Reserves (mark_frame_permanent p first) (first + 1) count a.consistent
        (omega (arith, a.frames_kept)))

-- The page number of an address, and of the end of a range.
pub page_down : (value : ℕ) → value < 2 ^ 64 → align_down_page value / page_size ≡ value / page_size
page_down value h =
    let (q, e, l) = mask_split 12 value in omega (arith, high_split 64 12 value (omega arith) h)

pub page_up :
    (value : ℕ)
    → value ≤ 2 ^ 64 - 4096
    → align_up_page_saturating value / page_size ≡ (value + 4095) / page_size
page_up value h =
    let (q, e, l) = mask_split 12 (value + page_size - 1) in
    ground (arith, e, l, high_split 64 12 (value + page_size - 1) (omega arith) (omega arith))

-- What reserving the bytes from `base` on does to the frames.
pub record Covers (p q : Pmm) (base length : ℕ) : Type 0 where
  pub inside :
      (address : ℕ)
      → base ≤ address
      → address < base + length
      → address < p.managed_limit
      → bitmap_get q.reserved_bitmap (address / page_size) ≡ true
  pub outside :
      (f : ℕ)
      → ((f + 1) * page_size ≤ base) ⊎ (base + length ≤ f * page_size)
      → (bitmap_get q.reserved_bitmap f ≡ bitmap_get p.reserved_bitmap f)
        × (bitmap_get q.allocated_bitmap f ≡ bitmap_get p.allocated_bitmap f)
  pub consistent : Inv q
  pub frames_kept : q.frame_count ≡ p.frame_count
  pub limit_kept : q.managed_limit ≡ p.managed_limit
  pub ready_kept : q.initialized ≡ p.initialized

module _ (p : Pmm) (base length : ℕ) (v : Inv p)
    (pages : p.managed_limit ≡ p.frame_count * page_size) (width : p.managed_limit < 2 ^ 64)
    (hb : base < 2 ^ 64) (hl : length < 2 ^ 64) (nz : length ≢ 0)
    (lt : base < p.managed_limit) where
  stop : (range_end p base length ≡ min (base + length) p.managed_limit)
  stop = ground arith

  last :
      last_frame p (range_end p base length)
      ≡ (min (base + length) p.managed_limit + 4095) / page_size
  last = ground (arith, stop, page_up (range_end p base length) (omega (arith, stop)))

  marked :
      Reserves p
        (reserve_range_unlocked p base length)
        (base / page_size)
        ((min (base + length) p.managed_limit + 4095) / page_size - base / page_size)
  unfolding reserve_range_unlocked reserve_frames
  marked =
      rw (guard, page_down base hb, last) (mark_run-Reserves p (base / page_size) _ v (omega arith))
    where
      guard : ((length == 0) || leb p.managed_limit base) ≡ false
      guard = ground arith

  -- Reserving a range that is not empty and starts in the managed memory of a consistent allocator
  -- reserves the frames that hold a managed byte of it, leaves the others as they were, and keeps
  -- the allocator consistent.
  pub reserve_range-Covers : Covers p (reserve_range_unlocked p base length) base length
  reserve_range-Covers = record {
    inside = λ a lo hi m. ground (arith, marked.reserved_bits (a / page_size));
    outside =
        λ f o. (ground (arith, marked.reserved_bits f), ground (arith, marked.allocated_bits f));
    consistent = marked.consistent;
    frames_kept = marked.frames_kept;
    limit_kept = marked.limit_kept;
    ready_kept = marked.ready_kept;
  }

-- An empty range, and one above the managed memory, change nothing.
pub reserve_range-skips :
    (p : Pmm) (base length : ℕ)
    → ((length == 0) || leb p.managed_limit base) ≡ true
    → reserve_range_unlocked p base length ≡ p
unfolding reserve_range_unlocked
reserve_range-skips p base length h = rw h refl
