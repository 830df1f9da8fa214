-- ===== src/Proc/Elf/Plan.antt =====
-- The image that `ns_elf64_plan` (kernel/proc/elf_loader.c) computes.
use northstar_os.Base.{
  ℕ, zero, suc, ◌+◌, ◌^◌, ◌≤◌, ◌<◌, ◌≡◌, refl, ◌≢◌, true, false, ◌&&◌, ◌||◌, Option, none, some,
  List, [], ◌∷◌, ◌++◌, ◌⊎◌, inl, inr, arith, ltb, ◌==◌, if◌then◌else◌, Bool-cases, length,
}
use northstar_os.Base.Words.{add64}
use northstar_os.Proc.Elf.{
  ElfError, Source, Config, Segment, Phdr, Ehdr, decode_phdr, io, overlap, too_large, valid_config,
  mul_overflows, mul64, check_phdr, segment_of, overlaps, overlaps_any, too_big, add_segment,
  Partial, plan_phdr, plan_loop, source_read, add_overflows, skipped,
}
use northstar_os.Proc.Elf.Segments.{Sound, Apart, Wide, check-Sound, decode_phdr-Wide, passed}

-- A property of every segment, and of every two.
abbrev pub Each : (Segment → Type 0) → List Segment → Type 0
Each P [] = Unit {0}
Each P (s ∷ ss) = P s × Each P ss

abbrev pub AllApart : List Segment → Type 0
AllApart [] = Unit {0}
AllApart (s ∷ ss) = Each (Apart s) ss × AllApart ss

Each-map :
    {P Q : Segment → Type 0}
    → ((s : Segment) → P s → Q s)
    → (ss : List Segment) → Each P ss
    → Each Q ss
Each-map f [] h = tt
Each-map f (s ∷ ss) (a, h) = (f s a, Each-map f ss h)

Each-snoc :
    (P : Segment → Type 0) (ss : List Segment) (s : Segment)
    → Each P ss
    → P s
    → Each P (ss ++ (s ∷ []))
Each-snoc P [] s h a = (a, tt)
Each-snoc P (t ∷ ss) s (b, h) a = (b, Each-snoc P ss s h a)

AllApart-snoc :
    (ss : List Segment) (s : Segment)
    → AllApart ss
    → Each (λ t. Apart t s) ss
    → AllApart (ss ++ (s ∷ []))
AllApart-snoc [] s h a = (tt, tt)
AllApart-snoc (t ∷ ss) s (b, h) (a, r) = (Each-snoc (Apart t) ss s b a, AllApart-snoc ss s h r)

length-snoc : (ss : List Segment) (s : Segment) → length (ss ++ (s ∷ [])) ≡ length ss + 1
length-snoc [] s = refl
length-snoc (t ∷ ss) s = omega (arith, length-snoc ss s)

-- The bytes that the segments' pages take.
unfoldable pub mapped : List Segment → ℕ
mapped [] = 0
mapped (s ∷ ss) = s.map_size + mapped ss

mapped-snoc : (ss : List Segment) (s : Segment) → mapped (ss ++ (s ∷ [])) ≡ mapped ss + s.map_size
unfolding mapped
mapped-snoc [] s = omega arith
mapped-snoc (t ∷ ss) s = omega (arith, mapped-snoc ss s)

overlaps-Apart :
    (source : Source) (c : Config) (s t : Segment)
    → c.user_max < 2 ^ 64
    → Sound source c s
    → Sound source c t
    → overlaps s t ≡ false
    → Apart t s
overlaps-Apart source c s t h a b e = record {
  bytes_apart = sides _ _ _ _ (omega (arith, a.stops)) (omega (arith, b.stops)) (ground (arith, e));
  pages_apart = sides _ _ _ _ a.map_width b.map_width (ground (arith, e));
}
  where
    sides :
        (x n y m : ℕ)
        → x + n < 2 ^ 64
        → y + m < 2 ^ 64
        → (ltb x (add64 y m) && ltb y (add64 x n)) ≡ false
        → (y + m ≤ x) ⊎ (x + n ≤ y)
    sides x n y m p q f = ground (arith, f)

overlaps_any-Apart :
    (source : Source) (c : Config) (s : Segment) (ss : List Segment)
    → c.user_max < 2 ^ 64
    → Sound source c s
    → Each (Sound source c) ss
    → overlaps_any s ss ≡ false
    → Each (λ t. Apart t s) ss
unfolding overlaps_any
overlaps_any-Apart source c s [] h a b e = tt
overlaps_any-Apart source c s (t ∷ ss) h a (b, bs) e = (
  overlaps-Apart source c s t h a b (ground (arith, e)),
  overlaps_any-Apart source c s ss h a bs (ground (arith, e)),
)

-- The image's bounds hold every page of the segment.
pub record Within (start stop : ℕ) (s : Segment) : Type 0 where
  pub from : start ≤ s.map_address
  pub to : s.map_address + s.map_size ≤ stop

-- The state of the loop.
pub record Planned (source : Source) (c : Config) (p : Partial) : Type 0 where
  pub counted : p.count ≡ length p.segments
  pub few : p.count ≤ c.max_segments
  pub sound : Each (Sound source c) p.segments
  pub apart : AllApart p.segments
  pub total : p.total_mapped ≡ mapped p.segments
  pub small : p.total_mapped ≤ c.max_image_size
  pub within : Each (Within p.image_start p.image_end) p.segments

module _ (source : Source) (c : Config) (bias : ℕ) (hb : bias < 2 ^ 64) (hm : c.user_max < 2 ^ 64)
    (hp : c.page_size < 2 ^ 64) (hc : valid_config c ≡ true) where
  add_segment-Planned :
      (p : Partial) (ph : Phdr)
      → Wide ph
      → ph.memsz ≢ 0
      → check_phdr source c bias p.count ph ≡ none
      → overlaps_any (segment_of c bias ph) p.segments ≡ false
      → too_big c p (segment_of c bias ph) ≡ false
      → Planned source c p
      → Planned source c (add_segment p (segment_of c bias ph))
  add_segment-Planned p ph w nz e o b v = record {
    counted = omega (arith, v.counted, length-snoc p.segments s);
    few = ground (arith, (passed source c bias p.count ph w hb hm hp hc e).0);
    sound = Each-snoc (Sound source c) p.segments s v.sound fresh;
    apart =
        AllApart-snoc p.segments s v.apart
          (overlaps_any-Apart source c s p.segments hm fresh v.sound o);
    total = omega (arith, v.total, mapped-snoc p.segments s);
    small = ground (arith, b);
    within =
        Each-snoc (Within (add_segment p s).image_start (add_segment p s).image_end) p.segments s
          (Each-map widen p.segments v.within) last;
  }
    where
      s : Segment
      s = segment_of c bias ph

      fresh : Sound source c (segment_of c bias ph)
      fresh = check-Sound source c bias p.count ph w hb hm hp hc e nz

      widen :
          (t : Segment)
          → Within p.image_start p.image_end t
          → Within
              (add_segment p (segment_of c bias ph)).image_start
              (add_segment p (segment_of c bias ph)).image_end
              t
      widen t h = record { from = ground (arith, h.from); to = ground (arith, h.to) }

      last :
          Within
            (add_segment p (segment_of c bias ph)).image_start
            (add_segment p (segment_of c bias ph)).image_end
            (segment_of c bias ph)
      last = record { from = ground arith; to = ground (arith, fresh.map_width) }

  -- What a step of the loop leaves, if it goes on.
  abbrev pub Goes : ElfError ⊎ Partial → Type 0
  Goes (inl error) = Unit {0}
  Goes (inr p) = Planned source c p

  plan_phdr-Goes :
      (p : Partial) (ph : Phdr) → Wide ph → Planned source c p → Goes (plan_phdr source c bias p ph)
  unfolding plan_phdr
  plan_phdr-Goes p ph w v = elim (Bool-cases ((ph.kind_ == 3) || (ph.kind_ == 2))) [
    | inl dynamic ↦ rw dynamic tt
    | inr static ↦ elim (Bool-cases (skipped ph)) [
      | inl skip ↦ rw (static, skip) v
      | inr load ↦
          rw (static, load)
            (by_check (ground (arith, load)) (check_phdr source c bias p.count ph) refl)
    ]
  ]
    where
      by_overlap :
          ph.memsz ≢ 0
          → check_phdr source c bias p.count ph ≡ none
          → Goes (
              if overlaps_any (segment_of c bias ph) p.segments
              then inl overlap
              else if too_big c p (segment_of c bias ph)
              then inl too_large
              else inr (add_segment p (segment_of c bias ph)))
      by_overlap nz e = elim (Bool-cases (overlaps_any (segment_of c bias ph) p.segments)) [
        | inl meets ↦ rw meets tt
        | inr free ↦ elim (Bool-cases (too_big c p (segment_of c bias ph))) [
          | inl big ↦ rw (free, big) tt
          | inr fits ↦ rw (free, fits) (add_segment-Planned p ph w nz e free fits v)
        ]
      ]

      by_check :
          ph.memsz ≢ 0
          → (o : Option ElfError) → check_phdr source c bias p.count ph ≡ o
          → Goes (elim o [
            | some error ↦ inl error
            | none ↦
                if overlaps_any (segment_of c bias ph) p.segments
                then inl overlap
                else if too_big c p (segment_of c bias ph)
                then inl too_large
                else inr (add_segment p (segment_of c bias ph))
          ])
      by_check nz (some error) e = tt
      by_check nz none e = by_overlap nz e

  pub plan_loop-Goes :
      (eh : Ehdr) (rest index : ℕ) (p : Partial)
      → Planned source c p
      → Goes (plan_loop source c eh bias index rest p)
  unfolding plan_loop
  plan_loop-Goes eh zero index p v = v
  plan_loop-Goes eh (suc rest) index p v =
      elim (Bool-cases
        (mul_overflows index eh.phentsize || add_overflows eh.phoff (mul64 index eh.phentsize))) [
          | inl wraps ↦ rw wraps tt
          | inr fine ↦ rw fine (
              by_read (λ next g. plan_loop-Goes eh rest (index + 1) next g)
                (source_read source (add64 eh.phoff (mul64 index eh.phentsize)) 56))
        ]
    where
      by_step :
          ((next : Partial)
            → Planned source c next
            → Goes (plan_loop source c eh bias (index + 1) rest next))
          → (r : ElfError ⊎ Partial) → Goes r
          → Goes (elim r [
            | inl error ↦ inl error
            | inr next ↦ plan_loop source c eh bias (index + 1) rest next
          ])
      by_step go (inl error) g = tt
      by_step go (inr next) g = go next g

      by_read :
          ((next : Partial)
            → Planned source c next
            → Goes (plan_loop source c eh bias (index + 1) rest next))
          → (r : ElfError ⊎ List ℕ)
          → Goes (elim r [
            | inl error ↦ inl io
            | inr bytes ↦ elim (plan_phdr source c bias p (decode_phdr bytes)) [
              | inl error ↦ inl error
              | inr next ↦ plan_loop source c eh bias (index + 1) rest next
            ]
          ])
      by_read go (inl error) = tt
      by_read go (inr bytes) =
          by_step go _ (plan_phdr-Goes p (decode_phdr bytes) (decode_phdr-Wide bytes) v)
