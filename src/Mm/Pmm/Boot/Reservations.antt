-- ===== src/Mm/Pmm/Boot/Reservations.antt =====
-- The second loop of `ns_pmm_init` and `reserve_boot_regions` (kernel/mm/pmm.c): which frames they take.
use northstar_os.Base.{
  ℕ, ◌+◌, ◌*◌, ◌/◌, ◌^◌, ◌<◌, ◌≡◌, sym, ◌∙◌, ◌≢◌, inl, inr, true, not, ◌||◌, List, [], ◌∷◌, arith,
  leb, ◌==◌, if_intro, Bool-cases,
}
use northstar_os.Mm.Bitmap.{bitmap_get}
use northstar_os.Mm.Pmm.{Pmm, page_size}
use northstar_os.Mm.Pmm.Reserve.{reserve_range_unlocked}
use northstar_os.Mm.Pmm.Reserve.Ranges.{Covers, reserve_range-Covers, reserve_range-skips}
use northstar_os.Mm.Pmm.Boot.{Entry, entry_enabled, withdraw_entry, withdraw_entries, reserve_all}
use northstar_os.Mm.Pmm.Boot.Initial.{Phase, Wide, WideRanges, reserve-Phase}
use northstar_os.Mm.Pmm.Boot.Exposure.{same_frames, IsFree}
use northstar_os.Mm.Pmm.Boot.Parts.{ReservedRange, IsApart, EachRange, EachFirmware}

module _ (limit : ℕ) (p : Pmm) (base length : ℕ) (hb : base < 2 ^ 64) (hl : length < 2 ^ 64)
    (ph : Phase limit p) where
  open ph use {managed as m}

  covered :
      length ≢ 0
      → base < p.managed_limit
      → Covers p (reserve_range_unlocked p base length) base length
  covered nz lt =
      reserve_range-Covers p base length ph.consistent (m ∙ sym ph.frames)
        (omega (arith, ph.width, m)) hb hl nz lt

  -- A reservation gives no frame back.
  keeps_covered :
      Covers p (reserve_range_unlocked p base length) base length
      → length ≢ 0
      → (f : ℕ) → f < p.frame_count
      → bitmap_get p.reserved_bitmap f ≡ true
      → bitmap_get (reserve_range_unlocked p base length).reserved_bitmap f ≡ true
  keeps_covered c nz f l r = elim (Bool-cases (leb ((f + 1) * page_size) base)) [
    | inl below ↦ (c.outside f (inl (ground (arith, below)))).0 ∙ r
    | inr reaches ↦ elim (Bool-cases (leb (base + length) (f * page_size))) [
      | inl above ↦ (c.outside f (inr (ground (arith, above)))).0 ∙ r
      | inr meets ↦ elim (Bool-cases (leb base (f * page_size))) [
        | inl starts ↦
            let k : (f * page_size) / page_size ≡ f = omega arith in
            rw (← k) (
              c.inside (f * page_size) (ground (arith, starts)) (ground (arith, meets))
                (omega (arith, ph.frames, m)))
        | inr later ↦
            let k : base / page_size ≡ f = ground (arith, later, reaches) in
            rw (← k) (
              c.inside base (omega arith) (ground (arith, meets, later))
                (ground (arith, ph.frames, m, reaches)))
      ]
    ]
  ]

  reserve_keeps :
      (f : ℕ)
      → f < p.frame_count
      → bitmap_get p.reserved_bitmap f ≡ true
      → bitmap_get (reserve_range_unlocked p base length).reserved_bitmap f ≡ true
  reserve_keeps f l r = elim (Bool-cases ((length == 0) || leb p.managed_limit base)) [
    | inl skipped ↦ rw (reserve_range-skips p base length skipped) r
    | inr taken ↦
        keeps_covered (covered (ground (arith, taken)) (ground (arith, taken)))
          (ground (arith, taken)) f l r
  ]

  -- Frames apart from the range stay free.
  reserve_free :
      (f : ℕ) → IsApart f base length → IsFree p f → IsFree (reserve_range_unlocked p base length) f
  reserve_free f apart (r, a) = elim (Bool-cases ((length == 0) || leb p.managed_limit base)) [
    | inl skipped ↦ rw (reserve_range-skips p base length skipped) (r, a)
    | inr taken ↦
        let c = covered (ground (arith, taken)) (ground (arith, taken)) in
        elim apart [
          | inl none_ ↦ absurd (ground (arith, taken, none_))
          | inr out ↦ ((c.outside f out).0 ∙ r, (c.outside f out).1 ∙ a)
        ]
  ]

  reserve_inside :
      ReservedRange limit (reserve_range_unlocked p base length).reserved_bitmap base length
  reserve_inside a lo hi lt =
      (covered (omega arith) (omega (arith, m))).inside a lo hi (omega (arith, m))

pub reserve_all_keeps :
    (limit : ℕ) (rs : List (ℕ × ℕ)) (p : Pmm)
    → WideRanges rs
    → Phase limit p
    → (f : ℕ) → f < p.frame_count
    → bitmap_get p.reserved_bitmap f ≡ true
    → bitmap_get (reserve_all p rs).reserved_bitmap f ≡ true
unfolding reserve_all
reserve_all_keeps limit [] p w ph f l r = r
reserve_all_keeps limit ((base, length) ∷ rs) p (hb, hl, w) ph f l r =
    let next = reserve-Phase limit p base length hb hl ph in
    reserve_all_keeps limit rs _ w next f (omega (arith, l, same_frames limit p _ ph next))
      (reserve_keeps limit p base length hb hl ph f l r)

pub reserve_all-EachRange :
    (limit : ℕ) (rs : List (ℕ × ℕ)) (p : Pmm)
    → WideRanges rs
    → Phase limit p
    → EachRange (ReservedRange limit (reserve_all p rs).reserved_bitmap) rs
unfolding reserve_all
reserve_all-EachRange limit [] p w ph = tt
reserve_all-EachRange limit ((base, length) ∷ rs) p (hb, hl, w) ph = (
  λ a lo hi lt.
      reserve_all_keeps limit rs _ w next (a / page_size) (omega (arith, next.frames))
        (reserve_inside limit p base length hb hl ph a lo hi lt),
  reserve_all-EachRange limit rs _ w next,
)
  where
    next : Phase limit (reserve_range_unlocked p base length)
    next = reserve-Phase limit p base length hb hl ph

pub reserve_all-IsFree :
    (limit : ℕ) (rs : List (ℕ × ℕ)) (p : Pmm) (f : ℕ)
    → WideRanges rs
    → Phase limit p
    → EachRange (IsApart f) rs
    → IsFree p f
    → IsFree (reserve_all p rs) f
unfolding reserve_all
reserve_all-IsFree limit [] p f w ph a x = x
reserve_all-IsFree limit ((base, length) ∷ rs) p f (hb, hl, w) ph (a, rest) x =
    reserve_all-IsFree limit rs _ f w (reserve-Phase limit p base length hb hl ph) rest
      (reserve_free limit p base length hb hl ph f a x)

module _ (limit : ℕ) (p : Pmm) (e : Entry) (hb : e.base < 2 ^ 64) (hl : e.length < 2 ^ 64)
    (ph : Phase limit p) where
  withdraw_entry-Phase : Phase limit (withdraw_entry p e)
  unfolding withdraw_entry
  withdraw_entry-Phase =
      if_intro (Phase limit) (not (entry_enabled e) || (e.kind == 1)) _ _ (λ _. ph)
        (λ _. reserve-Phase limit p e.base e.length hb hl ph)

  withdraw_entry-keeps :
      (f : ℕ)
      → f < p.frame_count
      → bitmap_get p.reserved_bitmap f ≡ true
      → bitmap_get (withdraw_entry p e).reserved_bitmap f ≡ true
  unfolding withdraw_entry
  withdraw_entry-keeps f l x =
      if_intro (λ (q : Pmm). bitmap_get q.reserved_bitmap f ≡ true)
        (not (entry_enabled e) || (e.kind == 1)) _ _ (λ _. x)
        (λ _. reserve_keeps limit p e.base e.length hb hl ph f l x)

  withdraw_entry-inside :
      entry_enabled e ≡ true
      → e.kind ≢ 1
      → ReservedRange limit (withdraw_entry p e).reserved_bitmap e.base e.length
  unfolding withdraw_entry
  withdraw_entry-inside on k =
      if_intro (λ (q : Pmm). ReservedRange limit q.reserved_bitmap e.base e.length)
        (not (entry_enabled e) || (e.kind == 1)) _ _
        (λ skipped. absurd (ground (arith, skipped, on, k)))
        (λ _. reserve_inside limit p e.base e.length hb hl ph)

  withdraw_entry-IsFree :
      (f : ℕ)
      → (entry_enabled e ≡ true → e.kind ≢ 1 → IsApart f e.base e.length)
      → IsFree p f
      → IsFree (withdraw_entry p e) f
  unfolding withdraw_entry
  withdraw_entry-IsFree f a x =
      if_intro (λ (q : Pmm). IsFree q f) (not (entry_enabled e) || (e.kind == 1)) _ _ (λ _. x)
        (λ taken.
          reserve_free limit p e.base e.length hb hl ph f
            (a (ground (arith, taken)) (ground (arith, taken))) x)

pub withdraw_entries-keeps :
    (limit : ℕ) (es : List Entry) (p : Pmm)
    → Wide es
    → Phase limit p
    → (f : ℕ) → f < p.frame_count
    → bitmap_get p.reserved_bitmap f ≡ true
    → bitmap_get (withdraw_entries p es).reserved_bitmap f ≡ true
unfolding withdraw_entries
withdraw_entries-keeps limit [] p w ph f l x = x
withdraw_entries-keeps limit (e ∷ es) p (hb, hl, w) ph f l x =
    let next = withdraw_entry-Phase limit p e hb hl ph in
    withdraw_entries-keeps limit es _ w next f (omega (arith, l, same_frames limit p _ ph next))
      (withdraw_entry-keeps limit p e hb hl ph f l x)

pub withdraw_entries-EachFirmware :
    (limit : ℕ) (es : List Entry) (p : Pmm)
    → Wide es
    → Phase limit p
    → EachFirmware (ReservedRange limit (withdraw_entries p es).reserved_bitmap) es
unfolding withdraw_entries
withdraw_entries-EachFirmware limit [] p w ph = tt
withdraw_entries-EachFirmware limit (e ∷ es) p (hb, hl, w) ph = (
  λ on k a lo hi lt.
      withdraw_entries-keeps limit es _ w next (a / page_size) (omega (arith, next.frames))
        (withdraw_entry-inside limit p e hb hl ph on k a lo hi lt),
  withdraw_entries-EachFirmware limit es _ w next,
)
  where
    next : Phase limit (withdraw_entry p e)
    next = withdraw_entry-Phase limit p e hb hl ph

pub withdraw_entries-IsFree :
    (limit : ℕ) (es : List Entry) (p : Pmm) (f : ℕ)
    → Wide es
    → Phase limit p
    → EachFirmware (IsApart f) es
    → IsFree p f
    → IsFree (withdraw_entries p es) f
unfolding withdraw_entries
withdraw_entries-IsFree limit [] p f w ph a x = x
withdraw_entries-IsFree limit (e ∷ es) p f (hb, hl, w) ph (a, rest) x =
    withdraw_entries-IsFree limit es _ f w (withdraw_entry-Phase limit p e hb hl ph) rest
      (withdraw_entry-IsFree limit p e hb hl ph f a x)
