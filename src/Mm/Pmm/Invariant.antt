-- ===== src/Mm/Pmm/Invariant.antt =====
-- The consistency that `ns_pmm_check_invariants` tests (kernel/mm/pmm.c), as a predicate, and the
-- number of free frames that it counts.
use northstar_os.Base.{
  ℕ, zero, suc, ◌+◌, ◌≤◌, ◌<◌, ◌≡◌, refl, ◌∙◌, ◌≢◌, Bool, true, false, ◌&&◌, List, arith, ltb,
  if◌then◌else◌, leb, ◌/◌, ◌^◌,
}
use northstar_os.Mm.Bitmap.{
  bitmap_get, bitmap_set, bitmap_clear, Fits, set-Fits, clear-Fits, get-set_fit, get-clear_fit,
}
use native.Mathlib.Decide.{ℕ_discrete}
use northstar_os.Mm.Pmm.{Pmm, set_run, clear_run}

-- The frames below `n` that a bitmap leaves free.
unfoldable pub free_below : List ℕ → ℕ → ℕ
free_below bitmap zero = 0
free_below bitmap (suc n) = (if bitmap_get bitmap n then 0 else 1) + free_below bitmap n

pub record Inv (p : Pmm) : Type 0 where
  pub allocated_fits : Fits p.frame_count p.allocated_bitmap
  pub reserved_fits : Fits p.frame_count p.reserved_bitmap
  -- A permanently reserved frame is never free.
  pub reserved_allocated :
      (frame : ℕ)
      → frame < p.frame_count
      → bitmap_get p.reserved_bitmap frame ≡ true
      → bitmap_get p.allocated_bitmap frame ≡ true
  pub counted : p.free_frames ≡ free_below p.allocated_bitmap p.frame_count
  pub sized : p.bytes_per_bitmap ≡ (p.frame_count + 7) / 8
  pub nonempty : p.frame_count ≢ 0
  -- Physical addresses have at most 52 bits.
  pub bounded : p.frame_count ≤ 2 ^ 52

-- Bitmaps that agree below `n` have as many free frames there.
free_below-eq :
    (a b : List ℕ) (n : ℕ)
    → ((f : ℕ) → f < n → bitmap_get a f ≡ bitmap_get b f)
    → free_below a n ≡ free_below b n
unfolding free_below
free_below-eq a b zero h = refl
free_below-eq a b (suc n) h = ground (arith, h n, free_below-eq a b n (λ f l. h f (omega arith)))

-- One bit more or less.
pub free_below-set :
    (bitmap : List ℕ) (frames frame n : ℕ)
    → Fits frames bitmap
    → frame < frames
    → frame < n
    → bitmap_get bitmap frame ≡ false
    → free_below (bitmap_set bitmap frame) n + 1 ≡ free_below bitmap n
unfolding free_below
free_below-set bitmap frames frame zero f l h e = absurd (omega arith)
free_below-set bitmap frames frame (suc n) f l h e = elim (ℕ_discrete frame n) [
  | yes same ↦ ground (arith, get-set_fit frame n f l, same_rest same)
  | no differ ↦
      ground (arith, get-set_fit frame n f l, free_below-set bitmap frames frame n f l _ e)
]
  where
    same_rest : frame ≡ n → free_below (bitmap_set bitmap frame) n ≡ free_below bitmap n
    same_rest s = free_below-eq _ _ n (λ g lt. get-set_fit frame g f l ∙ (ground arith))

pub free_below-clear :
    (bitmap : List ℕ) (frames frame n : ℕ)
    → Fits frames bitmap
    → frame < frames
    → frame < n
    → bitmap_get bitmap frame ≡ true
    → free_below (bitmap_clear bitmap frame) n ≡ free_below bitmap n + 1
unfolding free_below
free_below-clear bitmap frames frame zero f l h e = absurd (omega arith)
free_below-clear bitmap frames frame (suc n) f l h e = elim (ℕ_discrete frame n) [
  | yes same ↦ ground (arith, get-clear_fit frame n f l, same_rest same)
  | no differ ↦
      ground (arith, get-clear_fit frame n f l, free_below-clear bitmap frames frame n f l _ e)
]
  where
    same_rest : frame ≡ n → free_below (bitmap_clear bitmap frame) n ≡ free_below bitmap n
    same_rest s = free_below-eq _ _ n (λ g lt. get-clear_fit frame g f l ∙ (ground arith))

-- Is `f` one of `count` frames from `frame` on?
abbrev pub in_run : ℕ → ℕ → ℕ → Bool
in_run frame count f = leb frame f && ltb f (frame + count)

pub set_run-Fits :
    (bitmap : List ℕ) (frames frame count : ℕ)
    → Fits frames bitmap
    → Fits frames (set_run bitmap frame count)
unfolding set_run
set_run-Fits bitmap frames frame zero f = f
set_run-Fits bitmap frames frame (suc count) f =
    set_run-Fits (bitmap_set bitmap frame) frames (frame + 1) count (set-Fits frame f)

pub clear_run-Fits :
    (bitmap : List ℕ) (frames frame count : ℕ)
    → Fits frames bitmap
    → Fits frames (clear_run bitmap frame count)
unfolding clear_run
clear_run-Fits bitmap frames frame zero f = f
clear_run-Fits bitmap frames frame (suc count) f =
    clear_run-Fits (bitmap_clear bitmap frame) frames (frame + 1) count (clear-Fits frame f)

pub get-set_run :
    (bitmap : List ℕ) (frames frame count f : ℕ)
    → Fits frames bitmap
    → frame + count ≤ frames
    → bitmap_get (set_run bitmap frame count) f
      ≡ (if in_run frame count f then true else bitmap_get bitmap f)
unfolding set_run
get-set_run bitmap frames frame zero f fit l = ground arith
get-set_run bitmap frames frame (suc count) f fit l =
    get-set_run (bitmap_set bitmap frame) frames (frame + 1) count f (set-Fits frame fit)
      (omega arith)
    ∙ ground (arith, get-set_fit frame f fit (omega arith))

pub get-clear_run :
    (bitmap : List ℕ) (frames frame count f : ℕ)
    → Fits frames bitmap
    → frame + count ≤ frames
    → bitmap_get (clear_run bitmap frame count) f
      ≡ (if in_run frame count f then false else bitmap_get bitmap f)
unfolding clear_run
get-clear_run bitmap frames frame zero f fit l = ground arith
get-clear_run bitmap frames frame (suc count) f fit l =
    get-clear_run (bitmap_clear bitmap frame) frames (frame + 1) count f (clear-Fits frame fit)
      (omega arith)
    ∙ ground (arith, get-clear_fit frame f fit (omega arith))

-- Taking a free run takes as many frames as it has.
pub free_below-set_run :
    (bitmap : List ℕ) (frames frame count : ℕ)
    → Fits frames bitmap
    → frame + count ≤ frames
    → ((f : ℕ) → frame ≤ f → f < frame + count → bitmap_get bitmap f ≡ false)
    → free_below (set_run bitmap frame count) frames + count ≡ free_below bitmap frames
unfolding set_run
free_below-set_run bitmap frames frame zero fit l free = omega arith
free_below-set_run bitmap frames frame (suc count) fit l free = omega (
  arith,
  free_below-set_run (bitmap_set bitmap frame) frames (frame + 1) count (set-Fits frame fit)
      (omega arith) (λ f lo hi. get-set_fit frame f fit (omega arith) ∙ ground (arith, free f)),
  free_below-set bitmap frames frame frames fit (omega arith) (omega arith)
      (free frame (omega arith) (omega arith)),
)

pub free_below-clear_run :
    (bitmap : List ℕ) (frames frame count : ℕ)
    → Fits frames bitmap
    → frame + count ≤ frames
    → ((f : ℕ) → frame ≤ f → f < frame + count → bitmap_get bitmap f ≡ true)
    → free_below (clear_run bitmap frame count) frames ≡ free_below bitmap frames + count
unfolding clear_run
free_below-clear_run bitmap frames frame zero fit l taken = omega arith
free_below-clear_run bitmap frames frame (suc count) fit l taken = omega (
  arith,
  free_below-clear_run (bitmap_clear bitmap frame) frames (frame + 1) count (clear-Fits frame fit)
      (omega arith) (λ f lo hi. get-clear_fit frame f fit (omega arith) ∙ ground (arith, taken f)),
  free_below-clear bitmap frames frame frames fit (omega arith) (omega arith)
      (taken frame (omega arith) (omega arith)),
)
