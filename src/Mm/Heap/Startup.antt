-- ===== src/Mm/Heap/Startup.antt =====
-- `ns_kheap_init` (kernel/mm/heap.c): what the heap is after it.
use northstar_os.Base.{
  ℕ, ◌+◌, ◌*◌, ◌%◌, ◌^◌, ◌≤◌, ◌<◌, ◌≡◌, refl, sym, ◌≢◌, ◌⊎◌, Bool, true, false, [], arith, if_intro,
  inl, inr,
}
use Prim.Native.Nat.{bit_and}
use mathlib.Core.Path.{subst}
use northstar_os.Base.Bits.{mask_split}
use northstar_os.Mm.Heap.{
  HeapStatus, ok, einval, enomem, Tag, Heap, PageOps, page_size, no_growth, grown, extend,
}
use northstar_os.Mm.Heap.Operations.{
  Growth, larger, short, mapped, grow_heap, init_refuses, fresh, init,
}
use northstar_os.Mm.Heap.Tiling.{Tiles}
use northstar_os.Mm.Heap.Live.{live}
use northstar_os.Mm.Heap.Growth.{extend-Tiles, live-extend}
use northstar_os.Mm.Heap.Validity.{Tagged, Valid, Growing, growth_of-Growing}

page_test : (a : ℕ) → bit_and a 4095 ≡ 0 → a % page_size ≡ 0
page_test a e = let (q, s, b) = mask_split 12 a in omega arith

-- The arguments that pass the tests.
record Arguments (base size initial_pages : ℕ) : Type 0 where
  somewhere : base ≢ 0
  base_page : base % page_size ≡ 0
  size_page : size % page_size ≡ 0
  wanted : initial_pages ≢ 0
  width : base + size < 2 ^ 64

passed-Arguments :
    (base size initial_pages growth : ℕ)
    → size < 2 ^ 64
    → init_refuses base size initial_pages growth ≡ false
    → Arguments base size initial_pages
passed-Arguments base size initial_pages growth l e = record {
  somewhere = ground (arith, e);
  base_page = page_test base (ground (arith, e));
  size_page = page_test size (ground (arith, e));
  wanted = ground (arith, e);
  width = ground (arith, e, l);
}

first_growth-Valid :
    (base size initial_pages minimum_growth growth : ℕ) (tags : ℕ → Tag)
    → Arguments base size initial_pages
    → Growing (fresh base size minimum_growth tags) (initial_pages * page_size) growth
    → Valid (grown (fresh base size minimum_growth tags) growth)
unfolding live
first_growth-Valid base size initial_pages minimum_growth growth tags a g = record {
  tiles =
      subst (λ stop. Tiles base stop false (extend (base + 0) growth [])) (omega arith)
        (extend-Tiles [] base (base + 0) growth false (omega (arith, g.pages, g.some_pages))
          (omega (arith, g.pages)) (λ _. refl) (omega arith));
  tagged = subst (Tagged tags _) (sym (live-extend [] (base + 0) growth)) tt;
  somewhere = a.somewhere;
  base_page = a.base_page;
  width = a.width;
  within = g.fits;
  arena_pages = a.size_page;
  committed_pages = omega (arith, g.pages);
  started = omega (arith, g.some_pages);
  running = omega arith;
}

-- A started heap: valid, nothing is out, in the arena of the arguments.
pub record Started (base size initial_pages : ℕ) (after : Heap) : Type 0 where
  pub valid : Valid after
  pub nothing_out : live after.blocks ≡ []
  pub arena : (after.arena_base ≡ base) × (after.arena_size ≡ size)
  pub committed : initial_pages * page_size ≤ after.committed_size

abbrev pub InitCases : {S : Type 0} → Heap → ℕ → ℕ → ℕ → HeapStatus × Heap × S → Type 0
InitCases h base size initial_pages (status, after, s) =
    ((status ≡ ok) × Started base size initial_pages after)
    ⊎ ((status ≡ einval) × (after ≡ h))
    ⊎ ((status ≡ enomem) × (after.initialized ≡ 0))

-- With a size of 64 bits, an answer of OK means a valid heap with no allocation, in the given arena and with at least the
-- pages asked for; EINVAL means that nothing has changed; the only other answer is ENOMEM, and the heap
-- is then marked as not initialised.
pub init-InitCases_of_heap :
    {S : Type 0} (ops : PageOps S) (h : Heap) (base size initial_pages minimum_growth : ℕ) (s : S)
    → size < 2 ^ 64
    → InitCases h base size initial_pages (init ops h base size initial_pages minimum_growth s)
unfolding init grow_heap live
init-InitCases_of_heap {S} ops h base size initial_pages minimum_growth s l =
    if_intro (InitCases h base size initial_pages)
      (init_refuses base size initial_pages minimum_growth) _ _ (λ _. inr (inl (refl, refl)))
      (λ fine.
        let a = passed-Arguments base size initial_pages minimum_growth l fine in
        if_intro
          (λ (g : Growth S). InitCases {S = S} h base size initial_pages (elim g [
            | larger ready after ↦ (ok, ready, after)
            | short error after ↦ (
              error,
              record (fresh base size minimum_growth h.tags) {
                initialized = 0;
                last_error = error;
              },
              after,
            )
          ]))
          (no_growth (fresh base size minimum_growth h.tags) (initial_pages * page_size)) _ _
          (λ _. inr (inr (refl, refl)))
          (λ grows.
            pages a
              (growth_of-Growing (fresh base size minimum_growth h.tags) (initial_pages * page_size)
                (omega arith) a.size_page refl grows)
              _))
  where
    pages :
        {growth : ℕ}
        → Arguments base size initial_pages
        → Growing (fresh base size minimum_growth h.tags) (initial_pages * page_size) growth
        → (answer : Bool × S)
        → InitCases {S = S} h base size initial_pages
            (elim (mapped (fresh base size minimum_growth h.tags) growth answer) [
              | larger ready after ↦ (ok, ready, after)
              | short error after ↦ (
                error,
                record (fresh base size minimum_growth h.tags) {
                  initialized = 0;
                  last_error = error;
                },
                after,
              )
            ])
    pages a g (false, after) = inr (inr (refl, refl))
    pages {growth} a g (true, after) = inl (
      refl,
      record {
        valid = first_growth-Valid base size initial_pages minimum_growth growth h.tags a g;
        nothing_out = live-extend [] (base + 0) growth;
        arena = (refl, refl);
        committed = omega (arith, g.enough);
      },
    )
