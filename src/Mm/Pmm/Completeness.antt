-- ===== src/Mm/Pmm/Completeness.antt =====
-- When `ns_pmm_alloc_pages` (kernel/mm/pmm.c) succeeds, and the free runs that it does not see.
use northstar_os.Base.{
  ℕ, ◌+◌, ◌^◌, ◌≤◌, ◌<◌, ◌≡◌, refl, ap, ◌∙◌, ◌≢◌, ◌⊎◌, inl, inr, Option, none, some, arith,
}
use northstar_os.Base.Bits.{two_pow_test, two_pow_pos}
use northstar_os.Mm.Pmm.{
  ok, enospc, Pmm, invalid_phys, frame_limit, hint_below, search_runs, alloc_pages,
}
use northstar_os.Mm.Pmm.Runs.{IsRun}
use northstar_os.Mm.Pmm.Search.{frame_limit-le, search_cases}
use northstar_os.Mm.Pmm.Invariant.{Inv}
use northstar_os.Mm.Pmm.Allocation.{AllocCases, alloc_cases, outcome}

module _ (p : Pmm) (v : Inv p) (count max_phys k : ℕ) (hk : k < 64) where
  -- A run on one side of the hint.
  abbrev pub Visible : ℕ → Type 0
  Visible c =
      IsRun k p.allocated_bitmap (hint_below p (frame_limit p max_phys)) (frame_limit p max_phys)
        count c
      ⊎ IsRun k p.allocated_bitmap 0 (hint_below p (frame_limit p max_phys)) count c

  -- On a consistent allocator, a request with valid arguments for no more frames than are free
  -- succeeds if a free aligned run lies wholly from the hint on or wholly below it.
  pub alloc_pages-succeeds :
      (c : ℕ)
      → p.initialized ≢ 0
      → count ≢ 0
      → count ≤ p.free_frames
      → Visible c
      → (alloc_pages p count (2 ^ k) max_phys).0 ≡ ok
  alloc_pages-succeeds c ready nz enough seen = go (alloc_cases p count (2 ^ k) max_phys)
    where
      answered :
          (o : Option ℕ)
          → search_runs p (frame_limit p max_phys) count (2 ^ k) ≡ o
          → (outcome p count o).0 ≡ ok
      answered (some frame) e = refl
      answered none e =
          elim (search_cases k hk p v (frame_limit p max_phys) count nz
            (frame_limit-le p max_phys).0 none e) [
              | inl (d, same, _, _) ↦ absurd (cc)
              | inr (_, first, second) ↦ elim seen [
                | inl r ↦ absurd (first c r)
                | inr r ↦ absurd (second c r)
              ]
            ]

      go :
          AllocCases p count (2 ^ k) max_phys (alloc_pages p count (2 ^ k) max_phys)
          → (alloc_pages p count (2 ^ k) max_phys).0 ≡ ok
      go (inl (bad, _)) = absurd (ground (arith, bad, two_pow_test k, two_pow_pos k))
      go (inr (inl (_, few, r))) = absurd (omega arith)
      go (inr (inr (w, _, r))) = ap (λ t. t.0) r ∙ answered _ refl

  -- On a consistent allocator, a request fails for want of space, though enough frames are free,
  -- whenever each free aligned run below the limit begins before the hint and ends after it.
  pub straddling_run_missed :
      p.initialized ≢ 0
      → count ≢ 0
      → count ≤ p.free_frames
      → ((c : ℕ)
          → IsRun k p.allocated_bitmap 0 (frame_limit p max_phys) count c
          → (c < hint_below p (frame_limit p max_phys))
            × (hint_below p (frame_limit p max_phys) < c + count))
      → alloc_pages p count (2 ^ k) max_phys ≡ (enospc, some invalid_phys, p)
  straddling_run_missed ready nz enough across = go (alloc_cases p count (2 ^ k) max_phys)
    where
      missed :
          (o : Option ℕ)
          → search_runs p (frame_limit p max_phys) count (2 ^ k) ≡ o
          → outcome p count o ≡ (enospc, some invalid_phys, p)
      missed none e = refl
      missed (some frame) e =
          elim (search_cases k hk p v (frame_limit p max_phys) count nz
            (frame_limit-le p max_phys).0 (some frame) e) [
              | inr (none_, _, _) ↦ absurd (cc)
              | inl (c, _, r, side) ↦ absurd (omega (arith, across c r, side))
            ]

      go :
          AllocCases p count (2 ^ k) max_phys (alloc_pages p count (2 ^ k) max_phys)
          → alloc_pages p count (2 ^ k) max_phys ≡ (enospc, some invalid_phys, p)
      go (inl (bad, _)) = absurd (ground (arith, bad, two_pow_test k, two_pow_pos k))
      go (inr (inl (_, _, r))) = r
      go (inr (inr (_, _, r))) = r ∙ missed _ refl
