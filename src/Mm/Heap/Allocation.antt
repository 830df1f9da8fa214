-- ===== src/Mm/Heap/Allocation.antt =====
-- `ns_kheap_alloc_aligned` (kernel/mm/heap.c): that its loop ends, and what it hands out.
use northstar_os.Base.{
  ℕ, suc, ◌+◌, ◌*◌, ◌^◌, ◌≤◌, ◌<◌, ◌≡◌, refl, ◌≢◌, ◌⊎◌, Bool, true, false, not, Option, none, some,
  List, arith, if_intro, option_intro, inl, inr, ◌||◌, ltb, ◌==◌,
}
use mathlib.Core.Path.{subst}
use northstar_os.Base.Words.{is_power_of_two}
use northstar_os.Mm.Heap.{
  ok, einval, enomem, Block, Heap, PageOps, header_size, tag_size, min_alignment, alloc_in,
  growth_of, no_growth, grown, failed, allocated,
}
use northstar_os.Mm.Heap.Operations.{
  Growth, larger, short, mapped, grow_heap, minimum_for, alloc_rounds, effective, alloc_aligned,
}
use northstar_os.Mm.Heap.Live.{live}
use northstar_os.Mm.Heap.Search.{Inserted, Placed, Answer, alloc_in-Answer}
use northstar_os.Mm.Heap.Growth.{live-extend, extend-Answered}
use northstar_os.Mm.Heap.Validity.{Valid, Growing, growth_of-Growing, grown-Valid, allocated-Valid}

-- A pointer handed out.
pub record Served (size alignment pointer : ℕ) (h after : Heap) : Type 0 where
  pub valid : Valid after
  pub address : ℕ
  pub inserted : Inserted (address, pointer, size) (live h.blocks) (live after.blocks)
  pub aligned : (m : ℕ) × (pointer ≡ m * alignment)
  pub positive : 0 < pointer
  pub room : pointer + size ≤ after.arena_base + after.committed_size
  pub same_arena : after.arena_base ≡ h.arena_base
  pub kept : h.committed_size ≤ after.committed_size
  pub reported : after.last_error ≡ ok

-- The loop's answers: it ends, with a pointer or with the heap as it was but for the error.
abbrev pub AllocCases : {S : Type 0} → ℕ → ℕ → Heap → Option (Option ℕ × Heap × S) → Type 0
AllocCases size alignment h none = ⊥
AllocCases size alignment h (some (some pointer, after, s)) = Served size alignment pointer h after
AllocCases size alignment h (some (none, after, s)) = after ≡ failed h enomem

-- A pointer, in every case.
abbrev HandedOut : {S : Type 0} → ℕ → ℕ → Heap → Option (Option ℕ × Heap × S) → Type 0
HandedOut size alignment h none = ⊥
HandedOut size alignment h (some (some pointer, after, s)) = Served size alignment pointer h after
HandedOut size alignment h (some (none, after, s)) = ⊥

found-Served :
    (h : Heap) (size alignment pointer address : ℕ) (after : List Block)
    → Valid h
    → Placed size alignment h.arena_base
        (h.arena_base + h.committed_size)
        false
        h.blocks
        pointer
        address
        after
    → Served size alignment pointer h (allocated h size pointer address after)
found-Served h size alignment pointer address after v p = record {
  valid = allocated-Valid h size alignment pointer address after v p;
  address = address;
  inserted = p.inserted;
  aligned = p.aligned;
  positive = omega (arith, p.behind_tag);
  room = p.room;
  same_arena = refl;
  kept = omega arith;
  reported = refl;
}

grown-Served :
    (h after : Heap) (size alignment pointer growth : ℕ)
    → Served size alignment pointer (grown h growth) after
    → Served size alignment pointer h after
grown-Served h after size alignment pointer growth r = record {
  valid = r.valid;
  address = r.address;
  inserted =
      subst (λ l. Inserted (r.address, pointer, size) l (live after.blocks))
        (live-extend h.blocks _ growth) r.inserted;
  aligned = r.aligned;
  positive = r.positive;
  room = r.room;
  same_arena = r.same_arena;
  kept = omega (arith, r.kept);
  reported = r.reported;
}

-- The two additions of the source wrap to nothing that passes for a sum.
minimum_for-exact :
    (size alignment minimum : ℕ)
    → size < 2 ^ 64
    → alignment < 2 ^ 64
    → minimum_for size alignment ≡ some minimum
    → minimum ≡ header_size + tag_size + size + alignment
minimum_for-exact size alignment minimum a b e = ground (arith, e)

module _ {S : Type 0} (ops : PageOps S) (size alignment : ℕ) (p : is_power_of_two alignment ≡ true)
    (l : alignment < 2 ^ 64) (nz : size ≢ 0) (w : size < 2 ^ 64) where
  placed :
      (h : Heap)
      → Valid h
      → Answer size alignment h.arena_base
          (h.arena_base + h.committed_size)
          false
          h.blocks
          (alloc_in size alignment h.blocks)
  placed h v =
      alloc_in-Answer size alignment (h.arena_base + h.committed_size) p l nz
        (omega (arith, v.width, v.within)) h.blocks h.arena_base false v.tiles

  -- What a round makes of its search, `rest` being what it does when there is none.
  after_search :
      Heap
      → S
      → Option (Option ℕ × Heap × S)
      → Option (ℕ × ℕ × List Block)
      → Option (Option ℕ × Heap × S)
  after_search h s rest o = elim o [
    | some (pointer, address, after) ↦
        some (some pointer, allocated h size pointer address after, s)
    | none ↦ rest
  ]

  found-HandedOut :
      (h : Heap) (s : S) (rest : Option (Option ℕ × Heap × S)) (o : Option (ℕ × ℕ × List Block))
      → Valid h
      → Answer size alignment h.arena_base (h.arena_base + h.committed_size) false h.blocks o
      → (o ≡ none → ⊥)
      → HandedOut size alignment h (after_search h s rest o)
  unfolding after_search
  found-HandedOut h s rest none v a n = absurd (n refl)
  found-HandedOut h s rest (some (pointer, address, after)) v a n =
      found-Served h size alignment pointer address after v a

  found-AllocCases :
      (h : Heap) (s : S) (rest : Option (Option ℕ × Heap × S)) (o : Option (ℕ × ℕ × List Block))
      → Valid h
      → Answer size alignment h.arena_base (h.arena_base + h.committed_size) false h.blocks o
      → AllocCases size alignment h rest
      → AllocCases size alignment h (after_search h s rest o)
  unfolding after_search
  found-AllocCases h s rest none v a c = c
  found-AllocCases h s rest (some (pointer, address, after)) v a c =
      found-Served h size alignment pointer address after v a

  -- A round whose search answers is the last.
  last_round-HandedOut :
      (k : ℕ) (h : Heap) (s : S)
      → Valid h
      → (alloc_in size alignment h.blocks ≡ none → ⊥)
      → HandedOut size alignment h (alloc_rounds ops (suc k) h size alignment s)
  unfolding alloc_rounds after_search
  last_round-HandedOut k h s v answers =
      found-HandedOut h s _ (alloc_in size alignment h.blocks) v (placed h v) answers

  -- What is handed out after the heap has grown.
  larger-AllocCases :
      (h : Heap) (growth : ℕ) (o : Option (Option ℕ × Heap × S))
      → HandedOut size alignment (grown h growth) o
      → AllocCases size alignment h o
  larger-AllocCases h growth none c = c
  larger-AllocCases h growth (some (some pointer, last, t)) c =
      grown-Served h last size alignment pointer growth c
  larger-AllocCases h growth (some (none, last, t)) c = absurd c

  -- A round whose search finds nothing, with an answer of the page callback.
  mapped-AllocCases :
      (k minimum growth : ℕ) (h : Heap) (answer : Bool × S)
      → Valid h
      → minimum ≡ header_size + tag_size + size + alignment
      → Growing h minimum growth
      → AllocCases size alignment h (elim (mapped h growth answer) [
        | larger more after ↦ alloc_rounds ops (suc k) more size alignment after
        | short error after ↦ some (none, failed h error, after)
      ])
  mapped-AllocCases k minimum growth h (false, after) v e g = refl
  mapped-AllocCases k minimum growth h (true, after) v e g = larger-AllocCases h growth _ (
      last_round-HandedOut k (grown h growth) after (grown-Valid h minimum growth v g) (
        extend-Answered size alignment p h.blocks h.arena_base _ growth false v.tiles
          (omega (arith, g.pages)) (omega (arith, g.fits, v.width)) (omega (arith, g.enough))))

  -- Two rounds are enough.
  pub alloc_rounds-AllocCases :
      (k : ℕ) (h : Heap) (s : S)
      → Valid h
      → AllocCases size alignment h (alloc_rounds ops (suc (suc k)) h size alignment s)
  unfolding alloc_rounds after_search grow_heap
  alloc_rounds-AllocCases k h s v =
      found-AllocCases h s _ (alloc_in size alignment h.blocks) v (placed h v) (
        option_intro (AllocCases size alignment h) (minimum_for size alignment) _ _ (λ _. refl)
          (λ minimum e.
            if_intro
              (λ (g : Growth S). AllocCases size alignment h (elim g [
                | larger more after ↦ alloc_rounds ops (suc k) more size alignment after
                | short error after ↦ some (none, failed h error, after)
              ]))
              (no_growth h minimum) _ _ (λ _. refl)
              (λ grows.
                mapped-AllocCases k minimum (growth_of h minimum) h _ v
                  (minimum_for-exact size alignment minimum w l e)
                  (growth_of-Growing h minimum v.within v.arena_pages v.committed_pages grows))))

-- The answers of the whole operation.
abbrev pub AlignedCases : {S : Type 0} → ℕ → ℕ → Heap → Option (Option ℕ × Heap × S) → Type 0
AlignedCases size alignment h none = ⊥
AlignedCases size alignment h (some (some pointer, after, s)) =
    Served size alignment pointer h after
AlignedCases size alignment h (some (none, after, s)) =
    (after ≡ failed h einval) ⊎ (after ≡ failed h enomem)

effective-power :
    (alignment : ℕ)
    → is_power_of_two alignment ≡ true
    → is_power_of_two (effective alignment) ≡ true
effective-power alignment p =
    if_intro (λ a. is_power_of_two a ≡ true) (ltb alignment min_alignment) _ _ (λ _. refl) (λ _. p)

module _ {S : Type 0} where
  -- On a valid heap the call returns within two rounds of its loop. A pointer that it returns is a
  -- multiple of the alignment, or of 16 if that is more, the bytes asked for lie in the committed part
  -- of the arena, the heap's allocations are the former ones and this one, and the heap is again valid,
  -- in the same arena. With no pointer the heap is as it was but for the error, EINVAL or ENOMEM.
  pub alloc_aligned-AlignedCases :
      (ops : PageOps S) (k : ℕ) (h : Heap) (size alignment : ℕ) (s : S)
      → Valid h
      → size < 2 ^ 64
      → alignment < 2 ^ 64
      → AlignedCases size
          (effective alignment)
          h
          (alloc_aligned ops (suc (suc k)) h size alignment s)
  unfolding alloc_aligned
  alloc_aligned-AlignedCases ops k h size alignment s v w l =
      if_intro (AlignedCases size (effective alignment) h)
        ((h.initialized == 0) || (size == 0) || not (is_power_of_two alignment)) _ _ (λ _. inl refl)
        (λ fine. weaken (alloc_rounds ops (suc (suc k)) h size (effective alignment) s) (
          alloc_rounds-AllocCases ops size (effective alignment)
            (effective-power alignment (ground (arith, fine))) (ground (arith, l))
            (ground (arith, fine)) w k h s v))
    where
      weaken :
          (o : Option (Option ℕ × Heap × S))
          → AllocCases size (effective alignment) h o
          → AlignedCases size (effective alignment) h o
      weaken none c = c
      weaken (some (some pointer, last, t)) c = c
      weaken (some (none, last, t)) c = inr c
