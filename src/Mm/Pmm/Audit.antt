-- ===== src/Mm/Pmm/Audit.antt =====
-- kernel/mm/pmm.c: the two loops over all frames, `ns_pmm_check_invariants` and `ns_pmm_get_stats`.
use native.Mathlib.Nat.{add-zero}
use native.Mathlib.Numerals.{add-one}
use native.Mathlib.Decide.{ℕ_discrete}
use northstar_os.Base.{
  ℕ, zero, suc, ◌+◌, ◌/◌, Bool, true, false, not, ◌&&◌, ◌||◌, Option, none, some, List, ◌==◌,
  if◌then◌else◌, ◌≤◌, ◌<◌, ◌≡◌, ap, ◌∙◌, ◌≢◌, ◌↔◌, arith, Bool-cases, inl, inr,
}
use northstar_os.Mm.Bitmap.{bitmap_get}
use northstar_os.Mm.Pmm.Invariant.{free_below}
use northstar_os.Mm.Pmm.{Status, ok, ecorrupt, Pmm}

-- The loop of `ns_pmm_check_invariants`: the number of free frames, unless a reserved frame is free.
pub count_free : Pmm → ℕ → ℕ → ℕ → Option ℕ
count_free p frame free zero = some free
count_free p frame free (suc rest) =
    if bitmap_get p.reserved_bitmap frame && not (bitmap_get p.allocated_bitmap frame)
    then none
    else count_free p (frame + 1) (if bitmap_get p.allocated_bitmap frame then free else free + 1)
        rest

-- `ns_pmm_check_invariants`
pub check_invariants : Pmm → Status
check_invariants p =
    if (p.frame_count == 0) || not (p.bytes_per_bitmap == (p.frame_count + 7) / 8)
    then ecorrupt
    else elim (count_free p 0 0 p.frame_count) [
      | none ↦ ecorrupt
      | some free ↦ if free == p.free_frames then ok else ecorrupt
    ]

-- `ns_pmm_stats`
pub record Stats : Type 0 where
  pub tracked_frames : ℕ
  pub usable_frames : ℕ
  pub free_frames : ℕ
  pub allocated_frames : ℕ
  pub permanently_reserved_frames : ℕ
  pub highest_physical_address : ℕ

-- The loop of `ns_pmm_get_stats`: the reserved frames, and the allocated ones that are not reserved.
pub tally : Pmm → ℕ → ℕ → ℕ → ℕ → ℕ × ℕ
tally p frame reserved allocated zero = (reserved, allocated)
tally p frame reserved allocated (suc rest) =
    tally p (frame + 1) (if bitmap_get p.reserved_bitmap frame then reserved + 1 else reserved)
      (if not (bitmap_get p.reserved_bitmap frame) && bitmap_get p.allocated_bitmap frame
        then allocated + 1
        else allocated)
      rest

-- `ns_pmm_get_stats`
pub get_stats : Pmm → Stats
get_stats p =
    let (reserved, allocated) = tally p 0 0 0 p.frame_count in
    record {
      tracked_frames = p.frame_count;
      usable_frames = p.usable_frames;
      free_frames = p.free_frames;
      allocated_frames = allocated;
      permanently_reserved_frames = reserved;
      highest_physical_address = p.managed_limit;
    }

-- The free frames of `rest` from `frame` on.
free_from : List ℕ → ℕ → ℕ → ℕ
free_from bitmap frame zero = 0
free_from bitmap frame (suc rest) =
    (if bitmap_get bitmap frame then 0 else 1) + free_from bitmap (frame + 1) rest

free_below-split :
    (bitmap : List ℕ) (frame rest : ℕ)
    → free_below bitmap (frame + rest) ≡ free_below bitmap frame + free_from bitmap frame rest
unfolding free_from
free_below-split bitmap frame zero = rw (add-zero frame) (omega arith)
free_below-split bitmap frame (suc rest) =
    ap (free_below bitmap) shift
    ∙ free_below-split bitmap (frame + 1) rest
    ∙ (rw (add-one frame) (unfold free_below in omega arith))
  where
    shift : frame + suc rest ≡ frame + 1 + rest
    shift = omega arith

-- The result of the loop: the frames are consistent, or one is not.
abbrev CountCases : Pmm → ℕ → ℕ → ℕ → Option ℕ → Type 0
CountCases p frame free rest (some total) =
    (total ≡ free + free_from p.allocated_bitmap frame rest)
    × ((f : ℕ)
        → frame ≤ f
        → f < frame + rest
        → bitmap_get p.reserved_bitmap f ≡ true
        → bitmap_get p.allocated_bitmap f ≡ true)
CountCases p frame free rest none =
    (f : ℕ) × (frame ≤ f)
    × (f < frame + rest)
    × (bitmap_get p.reserved_bitmap f ≡ true)
    × (bitmap_get p.allocated_bitmap f ≡ false)

count_later :
    (p : Pmm) (frame free rest : ℕ) (o : Option ℕ)
    → (bitmap_get p.reserved_bitmap frame && not (bitmap_get p.allocated_bitmap frame)) ≡ false
    → CountCases p
        (frame + 1)
        (if bitmap_get p.allocated_bitmap frame then free else free + 1)
        rest
        o
    → CountCases p frame free (suc rest) o
unfolding free_from
count_later p frame free rest none h c = (c.0, omega (arith, c.1), omega (arith, c.2), c.3, c.4)
count_later p frame free rest (some total) h (e, all) = (
  ground (arith, e),
  λ f lo hi r. elim (ℕ_discrete f frame) [
    | yes same ↦ ground (arith, same, r, h)
    | no differ ↦ all f (omega arith) (omega arith) r
  ],
)

count_free-CountCases :
    (p : Pmm) (frame free rest : ℕ) → CountCases p frame free rest (count_free p frame free rest)
unfolding count_free
count_free-CountCases p frame free zero =
    (unfold free_from in omega arith, λ f lo hi. absurd (omega arith))
count_free-CountCases p frame free (suc rest) =
    elim (Bool-cases
      (bitmap_get p.reserved_bitmap frame && not (bitmap_get p.allocated_bitmap frame))) [
        | inl bad ↦
            rw bad (frame, omega arith, omega arith, ground (arith, bad), ground (arith, bad))
        | inr fine ↦
            rw fine
              (count_later p frame free rest _ fine (count_free-CountCases p (frame + 1) _ rest))
      ]

-- What `ns_pmm_check_invariants` promises.
pub record Consistent (p : Pmm) : Type 0 where
  pub reserved_allocated :
      (frame : ℕ)
      → frame < p.frame_count
      → bitmap_get p.reserved_bitmap frame ≡ true
      → bitmap_get p.allocated_bitmap frame ≡ true
  pub counted : p.free_frames ≡ free_below p.allocated_bitmap p.frame_count
  pub sized : p.bytes_per_bitmap ≡ (p.frame_count + 7) / 8
  pub nonempty : p.frame_count ≢ 0

free_below_all : (bitmap : List ℕ) (n : ℕ) → free_below bitmap n ≡ free_from bitmap 0 n
free_below_all bitmap n =
    ap (free_below bitmap) (omega arith)
    ∙ free_below-split bitmap 0 n
    ∙ (unfold free_below in omega arith)

-- The end of the check, from the result of the loop.
abbrev verdict : Pmm → Option ℕ → Status
verdict p none = ecorrupt
verdict p (some free) = if free == p.free_frames then ok else ecorrupt

abbrev ill_sized : Pmm → Bool
ill_sized p = (p.frame_count == 0) || not (p.bytes_per_bitmap == (p.frame_count + 7) / 8)

verdict-Consistent :
    (p : Pmm) (o : Option ℕ)
    → ill_sized p ≡ false
    → CountCases p 0 0 p.frame_count o
    → (verdict p o ≡ ok) ↔ Consistent p
verdict-Consistent p none w (f, lo, hi, r, a) =
    (λ e. absurd (cc), λ c. absurd (ground (arith, c.reserved_allocated f (omega arith) r)))
verdict-Consistent p (some total) w (e, all) = (
  λ h. record {
    reserved_allocated = λ f l r. all f (omega arith) (omega arith) r;
    counted = ground (arith, h, e, free_below_all p.allocated_bitmap p.frame_count);
    sized = ground (arith, w);
    nonempty = ground (arith, w);
  },
  λ c. ground (arith, c.counted, e, free_below_all p.allocated_bitmap p.frame_count),
)

-- The check accepts exactly the consistent allocators.
pub check_invariants-Consistent : (p : Pmm) → (check_invariants p ≡ ok) ↔ Consistent p
unfolding check_invariants
check_invariants-Consistent p = elim (Bool-cases (ill_sized p)) [
  | inl bad ↦ rw bad (λ e. absurd (cc), λ c. absurd (ground (arith, bad, c.sized, c.nonempty)))
  | inr fine ↦ rw fine (verdict-Consistent p _ fine (count_free-CountCases p 0 0 p.frame_count))
]
