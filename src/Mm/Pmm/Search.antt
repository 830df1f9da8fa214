-- ===== src/Mm/Pmm/Search.antt =====
-- The two searches of `ns_pmm_alloc_pages` (kernel/mm/pmm.c): what they find, and what they miss.
use northstar_os.Base.{
  ℕ, ◌+◌, ◌*◌, ◌^◌, ◌≤◌, ◌<◌, ◌≡◌, sym, ◌∙◌, ◌≢◌, ◌⊎◌, inl, inr, Option, none, some, List, arith,
  ◌==◌, Bool-cases, Option-cases,
}
use northstar_os.Mm.Pmm.{Pmm, page_size, frame_limit, hint_below, find_run, search_runs}
use northstar_os.Mm.Pmm.Runs.{IsRun, FirstRun, find_run-FirstRun}
use northstar_os.Mm.Pmm.Invariant.{Inv}

-- The bound is the managed memory, or lower where the caller asks for it.
pub frame_limit-le :
    (p : Pmm) (max_phys : ℕ)
    → (frame_limit p max_phys ≤ p.frame_count)
      × ((max_phys ≡ 0) ⊎ (frame_limit p max_phys * page_size ≤ max_phys))
frame_limit-le p max_phys = elim (Bool-cases (max_phys == 0)) [
  | inl z ↦ (ground arith, inl (ground arith))
  | inr nz ↦ (ground arith, inr (ground arith))
]

module _ (k : ℕ) (hk : k < 64) (p : Pmm) (v : Inv p) (limit count : ℕ) (nz : count ≢ 0)
    (hl : limit ≤ p.frame_count) where
  -- The answer of the search over the frames from `begin` to `end_`.
  first_run :
      (begin end_ : ℕ)
      → begin ≤ limit
      → end_ ≤ limit
      → FirstRun k p.allocated_bitmap begin end_ count
          (find_run p.allocated_bitmap begin end_ count (2 ^ k))
  first_run begin end_ hb he =
      find_run-FirstRun k hk p.allocated_bitmap begin end_ count (omega (arith, v.bounded))
        (omega (arith, v.bounded)) nz

  hint-le : hint_below p limit ≤ limit
  hint-le = ground arith

  abbrev bits : List ℕ
  bits = p.allocated_bitmap

  first_search :
      (o : Option ℕ)
      → find_run bits (hint_below p limit) limit count (2 ^ k) ≡ o
      → FirstRun k bits (hint_below p limit) limit count o
  first_search o e = rw e at (first_run (hint_below p limit) limit hint-le (omega arith))

  second_search :
      (o : Option ℕ)
      → find_run bits 0 (hint_below p limit) count (2 ^ k) ≡ o
      → FirstRun k bits 0 (hint_below p limit) count o
  second_search o e = rw e at (first_run 0 (hint_below p limit) (omega arith) hint-le)

  -- The two ways in which the searches can end.
  pub search_cases :
      (o : Option ℕ)
      → search_runs p limit count (2 ^ k) ≡ o
      → ((c : ℕ) × (o ≡ some c)
          × IsRun k bits 0 limit count c
          × ((hint_below p limit ≤ c) ⊎ (c + count ≤ hint_below p limit)))
        ⊎ ((o ≡ none)
            × FirstRun k bits (hint_below p limit) limit count none
            × FirstRun k bits 0 (hint_below p limit) count none)
  unfolding search_runs
  search_cases o e = elim (Option-cases (find_run bits (hint_below p limit) limit count (2 ^ k))) [
    | inr (c, found) ↦
        let (r, _) = first_search (some c) found in
        inl (c, sym e ∙ (rw (found, search_runs)), (omega arith, r.1, r.2, r.3), inl r.0)
    | inl missed ↦ elim (Bool-cases (hint_below p limit == 0)) [
      | inl zero_hint ↦ inr (
        sym e ∙ (rw (missed, search_runs, zero_hint)),
        first_search none missed,
        λ c r. ground (arith, r.1),
      )
      | inr hinted ↦ elim (Option-cases (find_run bits 0 (hint_below p limit) count (2 ^ k))) [
        | inr (c, found) ↦
            let (r, _) = second_search (some c) found in
            inl (
              c,
              sym e ∙ (rw (missed, search_runs, hinted, found)),
              (r.0, omega (arith, r.1, hint-le), r.2, r.3),
              inr r.1,
            )
        | inl none_ ↦ inr (
          sym e ∙ (rw (missed, search_runs, hinted, none_)),
          first_search none missed,
          second_search none none_,
        )
      ]
    ]
  ]
