-- ===== src/Mm/Pmm/Boot/Startup.antt =====
-- `ns_pmm_init` of kernel/mm/pmm.c as a whole: its result, and the ranges of the boot environment.
use northstar_os.Base.{
  ℕ, ◌+◌, ◌*◌, ◌/◌, ◌%◌, ◌^◌, ◌<◌, ◌≡◌, refl, ◌≢◌, ◌⊎◌, inl, inr, true, false, ◌||◌, List, [], ◌∷◌,
  arith, ltb, ◌==◌, if◌then◌else◌, Bool-cases,
}
use northstar_os.Base.Words.{u64_max}
use northstar_os.Mm.Bitmap.{bitmap_get}
use northstar_os.Mm.Pmm.{Status, ok, einval, enospc, Pmm, page_size}
use northstar_os.Mm.Pmm.Invariant.{Inv}
use northstar_os.Mm.Pmm.Audit.{check_invariants, check_invariants-Consistent}
use northstar_os.Mm.Pmm.Boot.{
  Entry, BootInfo, blank, ready, expose_entries, withdraw_entries, reserve_all, boot_regions, build,
  init, discover_limit, storage_required, boot_info_validate, misaligned, highest_end,
}
use northstar_os.Mm.Pmm.Boot.Initial.{
  Phase, Wide, WideRanges, blank-Phase, get-ones, expose_entries-Phase, withdraw_entries-Phase,
  reserve_all-Phase, ready-Phase,
}
use northstar_os.Mm.Pmm.Boot.Exposure.{aligned_up, same_frames, IsFree}
use northstar_os.Mm.Pmm.Boot.Usable.{
  InUsable, expose_entries-only, expose_entries-frees, expose_entries-IsSettled,
}
use northstar_os.Mm.Pmm.Boot.Parts.{
  ReservedRange, IsApart, EachFirmware, EachFirmware-map, BootRanges, boot_regions-BootRanges,
  BootRanges-boot_regions, IsWide, EachRange-WideRanges,
}
use northstar_os.Mm.Pmm.Boot.Reservations.{
  reserve_all_keeps, reserve_all-EachRange, reserve_all-IsFree, withdraw_entries-keeps,
  withdraw_entries-EachFirmware, withdraw_entries-IsFree,
}

highest_end-lt :
    (es : List Entry) (highest : ℕ) → Wide es → highest < 2 ^ 64 → highest_end highest es < 2 ^ 64
unfolding highest_end
highest_end-lt [] highest w h = h
highest_end-lt (e ∷ es) highest (hb, hl, w) h = highest_end-lt es _ w (ground arith)

discover_limit-aligned :
    (b : BootInfo) (es : List Entry)
    → Wide es
    → b.direct_map_size < 2 ^ 64
    → (discover_limit b es < 2 ^ 64) × (discover_limit b es % page_size ≡ 0)
unfolding discover_limit
discover_limit-aligned b es w h = aligned_up _ (ground (arith, highest_end-lt es 0 w (omega arith)))

-- What initialisation promises. Of the memory map and the boot environment, every byte below the limit that
-- is not usable memory or is in use lies in a reserved frame; only frames in usable memory are not
-- reserved, and those apart from all that is in use are free.
pub record Started (b : BootInfo) (es : List Entry) (phys : ℕ) (p : Pmm) : Type 0 where
  pub consistent : Inv p
  pub frames : p.frame_count * page_size ≡ discover_limit b es
  pub managed : p.managed_limit ≡ discover_limit b es
  pub initialized : p.initialized ≡ 1
  pub environment :
      BootRanges
        (ReservedRange (discover_limit b es) p.reserved_bitmap)
        b
        phys
        (storage_required b es)
  pub firmware : EachFirmware (ReservedRange (discover_limit b es) p.reserved_bitmap) es
  pub only_usable :
      (f : ℕ) → f < p.frame_count → bitmap_get p.reserved_bitmap f ≡ false → InUsable es f
  pub free :
      (f : ℕ)
      → f < p.frame_count
      → InUsable es f
      → EachFirmware (IsApart f) es
      → BootRanges (IsApart f) b phys (storage_required b es)
      → IsFree p f

-- The two ways in which it ends.
abbrev pub InitCases : BootInfo → List Entry → ℕ → Pmm → Status × Pmm → Type 0
InitCases b es phys old (status, p) =
    (((status ≡ einval) ⊎ (status ≡ enospc)) × (p ≡ old)) ⊎ ((status ≡ ok) × Started b es phys p)

module _ (b : BootInfo) (es : List Entry) (phys : ℕ) (w : Wide es) (hd : b.direct_map_size < 2 ^ 64)
    (wide : BootRanges IsWide b phys (storage_required b es)) where
  -- The states after each loop.
  blanked : Pmm
  blanked = blank (discover_limit b es)

  exposed : Pmm
  exposed = expose_entries blanked es

  withdrawn : Pmm
  withdrawn = withdraw_entries exposed es

  regions : List (ℕ × ℕ)
  regions = boot_regions b phys (storage_required b es)

  wr : WideRanges regions
  unfolding regions
  wr =
      EachRange-WideRanges regions
        (BootRanges-boot_regions IsWide b phys (storage_required b es) wide)

  module _ (nz : discover_limit b es ≢ 0) where
    blanked-Phase : Phase (discover_limit b es) blanked
    unfolding blanked
    blanked-Phase = let (l, a) = discover_limit-aligned b es w hd in blank-Phase _ l a nz

    exposed-Phase : Phase (discover_limit b es) exposed
    unfolding exposed
    exposed-Phase = expose_entries-Phase _ es _ blanked-Phase

    withdrawn-Phase : Phase (discover_limit b es) withdrawn
    unfolding withdrawn
    withdrawn-Phase = withdraw_entries-Phase _ es _ w exposed-Phase

    reserved-Phase : Phase (discover_limit b es) (reserve_all withdrawn regions)
    reserved-Phase = reserve_all-Phase _ _ _ wr withdrawn-Phase

    build-Phase : Phase (discover_limit b es) (build b es phys)
    unfolding build blanked exposed withdrawn regions
    build-Phase = ready-Phase _ _ reserved-Phase

    -- Before the first loop every frame is reserved.
    blanked-get : (f : ℕ) → f < blanked.frame_count → bitmap_get blanked.reserved_bitmap f ≡ true
    unfolding blanked blank
    blanked-get f l = get-ones (discover_limit b es / page_size) f l

    module _ (f : ℕ) (l : f < (build b es phys).frame_count) where
      in_blanked : f < blanked.frame_count
      in_blanked = omega (arith, l, same_frames _ _ _ blanked-Phase build-Phase)

      in_exposed : f < exposed.frame_count
      in_exposed = omega (arith, l, same_frames _ _ _ exposed-Phase build-Phase)

      in_withdrawn : f < withdrawn.frame_count
      in_withdrawn = omega (arith, l, same_frames _ _ _ withdrawn-Phase build-Phase)

      build-only : bitmap_get (build b es phys).reserved_bitmap f ≡ false → InUsable es f
      unfolding build ready blanked exposed withdrawn regions
      build-only x = elim (Bool-cases (bitmap_get exposed.reserved_bitmap f)) [
        | inl set_ ↦
            let y = withdraw_entries-keeps _ es exposed w exposed-Phase f in_exposed set_ in
            let z = reserve_all_keeps _ regions withdrawn wr withdrawn-Phase f in_withdrawn y in
            absurd (ground (arith, x, z))
        | inr clear ↦
            elim (expose_entries-only (discover_limit b es) f es blanked w blanked-Phase in_blanked
              clear) [ inl y ↦ absurd (ground (arith, y, blanked-get f in_blanked)) | inr u ↦ u ]
      ]

      exposed-IsFree : InUsable es f → IsFree exposed f
      unfolding exposed
      exposed-IsFree u =
          let x =
            expose_entries-frees (discover_limit b es) f es blanked w blanked-Phase in_blanked
              (inr u) in
          elim (expose_entries-IsSettled (discover_limit b es) f es blanked blanked-Phase in_blanked
            (inl (blanked-get f in_blanked))) [
              | inl y ↦ absurd (ground (arith, x, y))
              | inr free ↦ free
            ]

      build-IsFree :
          InUsable es f
          → EachFirmware (IsApart f) es
          → BootRanges (IsApart f) b phys (storage_required b es)
          → IsFree (build b es phys) f
      unfolding build ready blanked exposed withdrawn regions
      build-IsFree u a r =
          reserve_all-IsFree _ regions withdrawn f wr withdrawn-Phase
            (BootRanges-boot_regions (IsApart f) b phys (storage_required b es) r)
            (withdraw_entries-IsFree _ es exposed f w exposed-Phase a (exposed-IsFree u))

    build-environment :
        BootRanges
          (ReservedRange (discover_limit b es) (build b es phys).reserved_bitmap)
          b
          phys
          (storage_required b es)
    unfolding build ready blanked exposed withdrawn regions
    build-environment =
        boot_regions-BootRanges _ b phys (storage_required b es)
          (reserve_all-EachRange _ regions withdrawn wr withdrawn-Phase)

    build-firmware :
        EachFirmware (ReservedRange (discover_limit b es) (build b es phys).reserved_bitmap) es
    unfolding build ready blanked exposed withdrawn regions
    build-firmware =
        EachFirmware-map _ _ es
          (λ base length h a lo hi lt.
            reserve_all_keeps _ regions withdrawn wr withdrawn-Phase (a / page_size)
              (omega (arith, withdrawn-Phase.frames)) (h a lo hi lt))
          (withdraw_entries-EachFirmware _ es exposed w exposed-Phase)

    build-Started : Started b es phys (build b es phys)
    build-Started = record {
      consistent = consistent;
      frames = frames;
      managed = managed;
      initialized = unfold build ready in refl;
      environment = build-environment;
      firmware = build-firmware;
      only_usable = build-only;
      free = build-IsFree;
    }
      where
        open build-Phase use {consistent, frames, managed}

  build_checked : discover_limit b es ≢ 0 → check_invariants (build b es phys) ≡ ok
  build_checked nz =
      let v = (build-Phase nz).consistent in
      (check_invariants-Consistent (build b es phys)).1 (record {
        reserved_allocated = v.reserved_allocated;
        counted = v.counted;
        sized = v.sized;
        nonempty = v.nonempty;
      })

  limit_nonzero : storage_required b es ≢ 0 → discover_limit b es ≢ 0
  unfolding storage_required
  limit_nonzero h z = h (by_status (boot_info_validate b))
    where
      by_status :
          (s : Status)
          → (elim s [
            | ok ↦
                let bytes = (discover_limit b es / page_size + 7) / 8 in
                if ltb (u64_max / 2) bytes then 0 else bytes * 2
            | failure ↦ 0
          ])
            ≡ 0
      by_status ok = ground (arith, z)
      by_status failure = refl

  -- With numbers of 64 bits in the boot structures, for the extent of each part of the boot environment
  -- and in the memory map, initialisation either refuses its
  -- arguments and leaves the object alone, or builds a consistent allocator of the discovered memory.
  -- Every byte of the boot environment, part by part, and of the enabled entries of the memory map that
  -- are not usable memory lies in a reserved frame, if it is below the discovered limit; a frame that is
  -- not reserved lies in an enabled usable entry; and a frame that lies in one and apart from all those
  -- ranges is free.
  pub init-InitCases :
      (storage_size : ℕ) (old : Pmm) → InitCases b es phys old (init b es phys storage_size old)
  unfolding init
  init-InitCases storage_size old = by_status (boot_info_validate b)
    where
      accepted : InitCases b es phys old (
          if misaligned phys
          then (einval, old)
          else if (storage_required b es == 0) || ltb storage_size (storage_required b es)
          then (enospc, old)
          else (check_invariants (build b es phys), build b es phys))
      accepted = elim (Bool-cases (misaligned phys)) [
        | inl bad ↦ rw bad (inl (inl refl, refl))
        | inr aligned ↦
            elim (Bool-cases
              ((storage_required b es == 0) || ltb storage_size (storage_required b es))) [
                | inl small ↦ rw (aligned, small) (inl (inr refl, refl))
                | inr enough ↦
                    let nz = limit_nonzero (ground (arith, enough)) in
                    rw (aligned, enough) (inr (build_checked nz, build-Started nz))
              ]
      ]

      by_status :
          (s : Status)
          → InitCases b es phys old (elim s [
            | ok ↦
                if misaligned phys
                then (einval, old)
                else if (storage_required b es == 0) || ltb storage_size (storage_required b es)
                then (enospc, old)
                else (check_invariants (build b es phys), build b es phys)
            | failure ↦ (einval, old)
          ])
      by_status ok = accepted
      by_status failure = inl (inl refl, refl)
