-- ===== src/Mm/Pmm/Boot/Exposure.antt =====
-- The first loop of `ns_pmm_init` (kernel/mm/pmm.c): which frames the usable entries of the memory map
-- free.
use Prim.Native.Nat.{bit_and}
use northstar_os.Base.{
  ℕ, zero, suc, ◌+◌, ◌-◌, ◌*◌, ◌/◌, ◌%◌, ◌^◌, ◌<◌, ◌≡◌, refl, ◌⊎◌, inl, inr, true, false, not, ◌&&◌,
  ◌||◌, arith, ltb, leb, ◌==◌, if◌then◌else◌, if_intro, Bool-cases,
}
use northstar_os.Base.Bits.{mask_split, high_split}
use northstar_os.Base.Words.{u64_max}
use northstar_os.Mm.Bitmap.{bitmap_get, get-clear_fit}
use northstar_os.Mm.Pmm.{Pmm, page_size}
use northstar_os.Mm.Pmm.Reserve.{align_down_page, align_up_page_saturating}
use northstar_os.Mm.Pmm.Boot.{mark_frame_free_initial, expose}
use northstar_os.Mm.Pmm.Boot.Initial.{Phase, mark_frame_free-Phase}

pub same_frames :
    (limit : ℕ) (p q : Pmm) → Phase limit p → Phase limit q → q.frame_count ≡ p.frame_count
same_frames limit p q a b = omega (arith, a.frames, b.frames)

pub aligned_up :
    (value : ℕ)
    → value < 2 ^ 64
    → (align_up_page_saturating value < 2 ^ 64) × (align_up_page_saturating value % page_size ≡ 0)
aligned_up value h = elim (Bool-cases (ltb (u64_max - (page_size - 1)) value)) [
  | inl large ↦ rw large (omega arith, refl)
  | inr small ↦ rw small (rounded small)
]
  where
    rounded :
        ltb (u64_max - (page_size - 1)) value ≡ false
        → (bit_and (value + page_size - 1) (u64_max - (page_size - 1)) < 2 ^ 64)
          × (bit_and (value + page_size - 1) (u64_max - (page_size - 1)) % page_size ≡ 0)
    rounded small =
        let (q, e, l) = mask_split 12 (value + page_size - 1) in
        let fits : value + page_size - 1 < 2 ^ 64 = ground (arith, small) in
        (
          omega (arith, high_split 64 12 (value + page_size - 1) (omega arith) fits),
          omega (arith, e, l, high_split 64 12 (value + page_size - 1) (omega arith) fits),
        )

pub down_exact :
    (value : ℕ) → value < 2 ^ 64 → align_down_page value ≡ value / page_size * page_size
down_exact value h =
    let (q, e, l) = mask_split 12 value in omega (arith, high_split 64 12 value (omega arith) h)

-- A frame is free in both bitmaps.
abbrev pub IsFree : Pmm → ℕ → Type 0
IsFree p f = (bitmap_get p.reserved_bitmap f ≡ false) × (bitmap_get p.allocated_bitmap f ≡ false)

-- It is reserved or free.
abbrev pub IsSettled : Pmm → ℕ → Type 0
IsSettled p f = (bitmap_get p.reserved_bitmap f ≡ true) ⊎ IsFree p f

module _ (limit : ℕ) (p : Pmm) (f : ℕ) (ph : Phase limit p) (l : f < p.frame_count) (g : ℕ) where
  open ph use {consistent as v}

  mark-get :
      bitmap_get (mark_frame_free_initial p g).reserved_bitmap f
      ≡ (if g == f then false else bitmap_get p.reserved_bitmap f)
  unfolding mark_frame_free_initial
  mark-get =
      if_intro
        (λ (q : Pmm).
          bitmap_get q.reserved_bitmap f
          ≡ (if g == f then false else bitmap_get p.reserved_bitmap f))
        (leb p.frame_count g || not (bitmap_get p.reserved_bitmap g)) _ _
        (λ stays. elim (Bool-cases (g == f)) [
          | inl same ↦
              let e : g ≡ f = ground (arith, same) in
              let h : not (bitmap_get p.reserved_bitmap g) ≡ true = ground (arith, stays) in
              rw same (rw (← e) (ground (arith, h)))
          | inr apart ↦ rw apart refl
        ])
        (λ freed. get-clear_fit g f v.reserved_fits (ground (arith, freed)))

  mark-IsSettled : IsSettled p f → IsSettled (mark_frame_free_initial p g) f
  unfolding mark_frame_free_initial
  mark-IsSettled settled =
      if_intro (λ (q : Pmm). IsSettled q f)
        (leb p.frame_count g || not (bitmap_get p.reserved_bitmap g)) _ _ (λ stays. settled)
        (λ freed.
          let inside : g < p.frame_count = ground (arith, freed) in
          let r = get-clear_fit g f v.reserved_fits inside in
          let a = get-clear_fit g f v.allocated_fits inside in
          elim (Bool-cases (g == f)) [
            | inl same ↦ inr (ground (arith, r, same), ground (arith, a, same))
            | inr apart ↦ elim settled [
              | inl still ↦ inl (ground (arith, r, apart, still))
              | inr (x, y) ↦ inr (ground (arith, r, apart, x), ground (arith, a, apart, y))
            ]
          ])

-- The pages of the range, and no other, are freed.
pub expose-get :
    (limit : ℕ) (rounds address : ℕ) (p : Pmm) (f : ℕ)
    → Phase limit p
    → f < p.frame_count
    → address % page_size ≡ 0
    → bitmap_get (expose p address rounds).reserved_bitmap f ≡ (
        if leb address (f * page_size) && ltb (f * page_size) (address + rounds * page_size)
        then false
        else bitmap_get p.reserved_bitmap f)
unfolding expose
expose-get limit zero address p f ph l a = ground arith
expose-get limit (suc rounds) address p f ph l a =
    let next = mark_frame_free-Phase limit p (address / page_size) ph in
    ground (
      arith,
      mark-get limit p f ph l (address / page_size),
      expose-get limit rounds (address + page_size) _ f next
          (omega (arith, l, same_frames limit p _ ph next)) (omega (arith, a)),
    )

pub expose-IsSettled :
    (limit : ℕ) (rounds address : ℕ) (p : Pmm) (f : ℕ)
    → Phase limit p
    → f < p.frame_count
    → IsSettled p f
    → IsSettled (expose p address rounds) f
unfolding expose
expose-IsSettled limit zero address p f ph l s = s
expose-IsSettled limit (suc rounds) address p f ph l s =
    let next = mark_frame_free-Phase limit p (address / page_size) ph in
    expose-IsSettled limit rounds (address + page_size) _ f next
      (omega (arith, l, same_frames limit p _ ph next))
      (mark-IsSettled limit p f ph l (address / page_size) s)
