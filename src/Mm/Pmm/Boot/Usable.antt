-- ===== src/Mm/Pmm/Boot/Usable.antt =====
-- The first loop of `ns_pmm_init` (kernel/mm/pmm.c) over the memory map: the frames that lie in its usable
-- entries.
use northstar_os.Base.{
  ℕ, ◌+◌, ◌-◌, ◌*◌, ◌/◌, ◌%◌, ◌^◌, ◌≤◌, ◌<◌, ◌≡◌, refl, ◌↔◌, ◌⊎◌, inl, inr, true, false, not, ◌&&◌,
  ◌||◌, List, [], ◌∷◌, arith, ltb, leb, ◌==◌, if◌then◌else◌, if_intro, Bool-cases,
}
use northstar_os.Base.Words.{u64_max}
use northstar_os.Mm.Bitmap.{bitmap_get}
use northstar_os.Mm.Pmm.{Pmm, page_size}
use northstar_os.Mm.Pmm.Reserve.{align_up_page_saturating}
use northstar_os.Mm.Pmm.Reserve.Ranges.{page_up}
use northstar_os.Mm.Pmm.Boot.{Entry, entry_enabled, usable_end, expose_entry, expose_entries}
use northstar_os.Mm.Pmm.Boot.Initial.{Phase, Wide, expose_entry-Phase}
use northstar_os.Mm.Pmm.Boot.Exposure.{
  same_frames, aligned_up, down_exact, IsSettled, expose-get, expose-IsSettled,
}

-- The frame lies in the entry, which is enabled and of usable memory.
abbrev pub IsUsable : Entry → ℕ → Type 0
IsUsable e f =
    (entry_enabled e ≡ true)
    × (e.kind ≡ 1)
    × (e.base ≤ f * page_size)
    × ((f + 1) * page_size ≤ e.base + e.length)

-- The frame lies in such an entry of the map.
abbrev pub InUsable : List Entry → ℕ → Type 0
InUsable [] f = ⊥
InUsable (e ∷ es) f = IsUsable e f ⊎ InUsable es f

-- Rounding a base up, and an end down, to pages does not change which whole pages are between them.
start_below :
    (limit base f : ℕ)
    → limit < 2 ^ 64
    → limit % page_size ≡ 0
    → base < 2 ^ 64
    → (f + 1) * page_size ≤ limit
    → (align_up_page_saturating base ≤ f * page_size) ↔ (base ≤ f * page_size)
start_below limit base f h a hb l = elim (Bool-cases (leb base (2 ^ 64 - 4096))) [
  | inl small ↦
      let fits : base ≤ 2 ^ 64 - 4096 = ground (arith, small) in
      let e = page_up base fits in
      let d = (aligned_up base hb).1 in (λ x. omega arith, λ x. omega arith)
  | inr large ↦
      let past : ltb (u64_max - (page_size - 1)) base ≡ true = ground (arith, large) in
      let e : align_up_page_saturating base ≡ 2 ^ 64 - 4096 = rw past refl in
      (λ x. absurd (omega arith), λ x. absurd (ground (arith, past)))
]

-- The loop's rounds between two page addresses.
rounds_range :
    (start stop f : ℕ)
    → start % page_size ≡ 0
    → stop % page_size ≡ 0
    → ((leb start (f * page_size)
          && ltb (f * page_size) (start + (stop - start + (page_size - 1)) / page_size * page_size))
        ≡ true)
      ↔ ((start ≤ f * page_size) × ((f + 1) * page_size ≤ stop))
rounds_range start stop f a b =
    (λ x. (ground (arith, x), ground (arith, x)), λ (lo, hi). ground (arith, lo, hi))

module _ (limit : ℕ) (p : Pmm) (e : Entry) (f : ℕ) (ph : Phase limit p) (l : f < p.frame_count)
    (hb : e.base < 2 ^ 64) (hl : e.length < 2 ^ 64) where
  open ph use {managed as m, frames as n, width as w}

  -- The end that is rounded.
  stop_bound : ℕ
  stop_bound =
      if ltb ((e.base + e.length) % 2 ^ 64) e.base
        || ltb p.managed_limit ((e.base + e.length) % 2 ^ 64)
      then p.managed_limit
      else (e.base + e.length) % 2 ^ 64

  end_above : ((f + 1) * page_size ≤ usable_end p e) ↔ ((f + 1) * page_size ≤ e.base + e.length)
  unfolding stop_bound
  end_above =
      let inside : (f + 1) * page_size ≤ limit = omega arith in
      let small : stop_bound < 2 ^ 64 = ground (arith, m, w) in
      let d : usable_end p e ≡ stop_bound / page_size * page_size = down_exact stop_bound small in
      let same : ((f + 1) * page_size ≤ stop_bound) ↔ ((f + 1) * page_size ≤ e.base + e.length) =
        (λ x. ground (arith, m, w, x), λ x. ground (arith, m, w, x, inside)) in
      (λ x. same.0 (omega (arith, d, x)), λ x. let y = same.1 x in omega (arith, d, y))

  end_aligned : usable_end p e % page_size ≡ 0
  unfolding stop_bound
  end_aligned =
      let small : stop_bound < 2 ^ 64 = ground (arith, m, w) in
      let d : usable_end p e ≡ stop_bound / page_size * page_size = down_exact stop_bound small in
      omega (arith, d)

  usable_pages : ℕ
  usable_pages = (usable_end p e - align_up_page_saturating e.base + (page_size - 1)) / page_size

  usable_range :
      ((leb (align_up_page_saturating e.base) (f * page_size)
          && ltb (f * page_size) (align_up_page_saturating e.base + usable_pages * page_size))
        ≡ true)
      ↔ ((e.base ≤ f * page_size) × ((f + 1) * page_size ≤ e.base + e.length))
  unfolding usable_pages
  usable_range =
      let s = start_below limit e.base f w (omega (arith, n)) hb (omega (arith, n)) in
      let z = end_above in
      let c =
        rounds_range (align_up_page_saturating e.base) (usable_end p e) f (aligned_up e.base hb).1
          end_aligned in
      (λ x. let (lo, hi) = c.0 x in (s.0 lo, z.0 hi), λ (x, y). c.1 (s.1 x, z.1 y))

  -- An entry frees the frames that lie in it if it is usable.
  expose_entry-frees : IsUsable e f → bitmap_get (expose_entry p e).reserved_bitmap f ≡ false
  unfolding expose_entry usable_pages
  expose_entry-frees (on, k, lo, hi) =
      let r = usable_range.1 (lo, hi) in
      let g =
        expose-get limit usable_pages (align_up_page_saturating e.base) p f ph l
          (aligned_up e.base hb).1 in
      if_intro (λ (q : Pmm). bitmap_get q.reserved_bitmap f ≡ false)
        (not (entry_enabled e) || not (e.kind == 1) || (e.length == 0)) _ _
        (λ skipped. absurd (ground (arith, skipped, on, k, lo, hi))) (λ _. ground (arith, g, r))

  expose_entry-only :
      bitmap_get (expose_entry p e).reserved_bitmap f ≡ false
      → (bitmap_get p.reserved_bitmap f ≡ false) ⊎ IsUsable e f
  unfolding expose_entry usable_pages
  expose_entry-only =
      let g =
        expose-get limit usable_pages (align_up_page_saturating e.base) p f ph l
          (aligned_up e.base hb).1 in
      if_intro
        (λ (q : Pmm).
          bitmap_get q.reserved_bitmap f ≡ false
          → (bitmap_get p.reserved_bitmap f ≡ false) ⊎ IsUsable e f)
        (not (entry_enabled e) || not (e.kind == 1) || (e.length == 0)) _ _ (λ _ x. inl x)
        (λ taken x.
          elim (Bool-cases (
            leb (align_up_page_saturating e.base) (f * page_size)
            && ltb (f * page_size) (align_up_page_saturating e.base + usable_pages * page_size))) [
              | inl within ↦
                  let (lo, hi) = usable_range.0 within in
                  inr (ground (arith, taken), ground (arith, taken), lo, hi)
              | inr out ↦ inl (ground (arith, g, out, x))
            ])

  expose_entry-keeps :
      bitmap_get p.reserved_bitmap f ≡ false
      → bitmap_get (expose_entry p e).reserved_bitmap f ≡ false
  unfolding expose_entry usable_pages
  expose_entry-keeps x =
      let g =
        expose-get limit usable_pages (align_up_page_saturating e.base) p f ph l
          (aligned_up e.base hb).1 in
      if_intro (λ (q : Pmm). bitmap_get q.reserved_bitmap f ≡ false)
        (not (entry_enabled e) || not (e.kind == 1) || (e.length == 0)) _ _ (λ _. x)
        (λ _. ground (arith, g, x))

module _ (limit : ℕ) (p : Pmm) (e : Entry) (f : ℕ) (ph : Phase limit p)
    (l : f < p.frame_count) where
  expose_entry-IsSettled : IsSettled p f → IsSettled (expose_entry p e) f
  unfolding expose_entry
  expose_entry-IsSettled s =
      if_intro (λ (q : Pmm). IsSettled q f)
        (not (entry_enabled e) || not (e.kind == 1) || (e.length == 0)) _ _ (λ _. s)
        (λ _. expose-IsSettled limit _ _ p f ph l s)

module _ (limit f : ℕ) where
  -- The whole map: what was free or lies in a usable entry is free, and nothing else.
  pub expose_entries-frees :
      (es : List Entry) (p : Pmm)
      → Wide es
      → Phase limit p
      → f < p.frame_count
      → (bitmap_get p.reserved_bitmap f ≡ false) ⊎ InUsable es f
      → bitmap_get (expose_entries p es).reserved_bitmap f ≡ false
  unfolding expose_entries
  expose_entries-frees [] p w ph l (inl x) = x
  expose_entries-frees [] p w ph l (inr x) = absurd x
  expose_entries-frees (e ∷ es) p (hb, hl, w) ph l h =
      let next = expose_entry-Phase limit p e ph in
      expose_entries-frees es (expose_entry p e) w next
        (omega (arith, l, same_frames limit p _ ph next)) (first h)
    where
      first :
          (bitmap_get p.reserved_bitmap f ≡ false) ⊎ InUsable (e ∷ es) f
          → (bitmap_get (expose_entry p e).reserved_bitmap f ≡ false) ⊎ InUsable es f
      first (inl x) = inl (expose_entry-keeps limit p e f ph l hb hl x)
      first (inr (inl u)) = inl (expose_entry-frees limit p e f ph l hb hl u)
      first (inr (inr u)) = inr u

  pub expose_entries-only :
      (es : List Entry) (p : Pmm)
      → Wide es
      → Phase limit p
      → f < p.frame_count
      → bitmap_get (expose_entries p es).reserved_bitmap f ≡ false
      → (bitmap_get p.reserved_bitmap f ≡ false) ⊎ InUsable es f
  unfolding expose_entries
  expose_entries-only [] p w ph l x = inl x
  expose_entries-only (e ∷ es) p (hb, hl, w) ph l x =
      let next = expose_entry-Phase limit p e ph in
      elim (expose_entries-only es (expose_entry p e) w next
        (omega (arith, l, same_frames limit p _ ph next)) x) [
          | inl y ↦ elim (expose_entry-only limit p e f ph l hb hl y) [
            | inl z ↦ inl z
            | inr u ↦ inr (inl u)
          ]
          | inr u ↦ inr (inr u)
        ]

  pub expose_entries-IsSettled :
      (es : List Entry) (p : Pmm)
      → Phase limit p
      → f < p.frame_count
      → IsSettled p f
      → IsSettled (expose_entries p es) f
  unfolding expose_entries
  expose_entries-IsSettled [] p ph l s = s
  expose_entries-IsSettled (e ∷ es) p ph l s =
      let next = expose_entry-Phase limit p e ph in
      expose_entries-IsSettled es (expose_entry p e) next
        (omega (arith, l, same_frames limit p _ ph next))
        (expose_entry-IsSettled limit p e f ph l s)
