-- ===== src/Mm/Heap/Growth.antt =====
-- The end of `grow_heap` (kernel/mm/heap.c): the arena's blocks after it, and that the next search of
-- `ns_kheap_alloc_aligned` finds room in them.
use northstar_os.Base.{
  ℕ, ◌+◌, ◌-◌, ◌%◌, ◌^◌, ◌≤◌, ◌<◌, ◌≡◌, refl, sym, ◌∙◌, Bool, true, false, Option, none, some, List,
  [], ◌∷◌, arith, if◌then◌else◌, if_intro, option_intro, ltb,
}
use northstar_os.Base.Words.{u64_max, is_power_of_two}
use northstar_os.Base.Align.{align_up_checked, align_up_bounds}
use northstar_os.Mm.Heap.{
  Block, header_size, tag_size, min_alignment, free_block_at, allocation_layout, consumed_by,
  alloc_in, extend,
}
use northstar_os.Mm.Heap.Tiling.{Sound, Tiles, grown-Sound}
use northstar_os.Mm.Heap.Live.{live, live-free, live-cons}

-- A new block is sound.
fresh-Sound :
    (address growth : ℕ)
    → header_size ≤ growth
    → growth % min_alignment ≡ 0
    → Sound (free_block_at address growth)
fresh-Sound address growth l r = record {
  marked = refl;
  holds_header = l;
  rounded = r;
  empty = λ e. (refl, refl);
  full = λ e. absurd (cc);
}

pub extend-Tiles :
    (bs : List Block) (at stop growth : ℕ) (before : Bool)
    → header_size ≤ growth
    → growth % min_alignment ≡ 0
    → (bs ≡ [] → before ≡ false)
    → Tiles at stop before bs
    → Tiles at (stop + growth) before (extend stop growth bs)
unfolding extend
extend-Tiles [] at stop growth before l r e t =
    (sym t, fresh-Sound stop growth l r, ground (arith, e refl), omega arith)
extend-Tiles (b ∷ []) at stop growth before l r e (a, s, n, t) =
    if_intro (Tiles at (stop + growth) before) b.free _ _
      (λ open_. (a, grown-Sound b growth s open_ r, n, omega arith))
      (λ held. (a, s, n, (sym t, fresh-Sound stop growth l r, ground (arith, held), omega arith)))
extend-Tiles (b ∷ c ∷ rest) at stop growth before l r e (a, s, n, t) =
    (a, s, n, extend-Tiles (c ∷ rest) (at + b.span) stop growth b.free l r (λ x. absurd (cc)) t)

pub live-extend : (bs : List Block) (address growth : ℕ) → live (extend address growth bs) ≡ live bs
unfolding extend
live-extend [] address growth = live-free _ [] refl
live-extend (b ∷ []) address growth =
    if_intro (λ l. live l ≡ live (b ∷ [])) b.free _ _
      (λ open_. live-free _ [] open_ ∙ sym (live-free b [] open_))
      (λ held. live-cons b _ [] (live-free _ [] refl))
live-extend (b ∷ c ∷ rest) address growth = live-cons b _ _ (live-extend (c ∷ rest) address growth)

-- A search that answers.
abbrev pub Answered : {A : Type 0} → Option A → Type 0
Answered o = (o ≡ none) → ⊥

-- A block of enough bytes has a layout.
layout-Answered :
    (b : Block) (size alignment : ℕ)
    → is_power_of_two alignment ≡ true
    → b.address + b.span < 2 ^ 64
    → b.span % min_alignment ≡ 0
    → header_size + tag_size + size + alignment ≤ b.span
    → Answered (allocation_layout b size alignment)
unfolding allocation_layout
layout-Answered b size alignment h w r room =
    let (lo, hi, m) =
      align_up_bounds (b.address + header_size + tag_size) alignment h (omega arith)
        (omega arith) in
    if_intro Answered (ltb (u64_max - header_size - tag_size) b.address) _ _
      (λ far. absurd (ground (arith, far)))
      (λ _.
        option_intro Answered (align_up_checked (b.address + header_size + tag_size) alignment) _ _
          (λ e. absurd (ground (arith, e)))
          (λ pointer e. inner pointer (ground (arith, e)) (ground (arith, e))))
  where
    inner :
        (pointer : ℕ)
        → b.address ≤ pointer
        → pointer < b.address + header_size + tag_size + alignment
        → Answered (consumed_by b size pointer)
    inner pointer above below =
        let (lo, hi, (m, e)) =
          align_up_bounds (pointer + size - b.address) min_alignment refl (omega arith)
            (omega arith) in
        if_intro Answered (ltb (u64_max - size) pointer) _ _ (λ far. absurd (ground (arith, far)))
          (λ _.
            option_intro Answered (align_up_checked (pointer + size - b.address) min_alignment) _ _
              (λ q. absurd (ground (arith, q)))
              (λ c q.
                if_intro Answered (ltb b.span c) _ _
                  (λ far.
                    absurd (let below : c ≤ b.span = ground (arith, q) in ground (arith, far)))
                  (λ _ n. cc)))

-- The search goes on to the blocks behind, and takes a free block that has a layout.
alloc_in-later :
    (size alignment : ℕ) (b : Block) (rest : List Block)
    → Answered (alloc_in size alignment rest)
    → Answered (alloc_in size alignment (b ∷ rest))
unfolding alloc_in
alloc_in-later size alignment b rest h =
    option_intro Answered (if b.free then allocation_layout b size alignment else none) _ _
      (λ _. goes_on (alloc_in size alignment rest) h) (λ found e n. cc)
  where
    goes_on :
        (o : Option (ℕ × ℕ × List Block))
        → Answered o
        → Answered {A = ℕ × ℕ × List Block} (elim o [
          | some (pointer, address, after) ↦ some (pointer, address, b ∷ after)
          | none ↦ none
        ])
    goes_on none a e = a refl
    goes_on (some (pointer, address, after)) a e = cc

alloc_in-here :
    (size alignment : ℕ) (b : Block) (rest : List Block)
    → b.free ≡ true
    → Answered (allocation_layout b size alignment)
    → Answered (alloc_in size alignment (b ∷ rest))
unfolding alloc_in
alloc_in-here size alignment b rest f h =
    option_intro Answered (if b.free then allocation_layout b size alignment else none) _ _
      (λ e. absurd (h (same f ∙ e))) (λ found e n. cc)
  where
    same :
        b.free ≡ true
        → allocation_layout b size alignment
          ≡ (if b.free then allocation_layout b size alignment else none)
    same g = rw g refl

module _ (size alignment : ℕ) (h : is_power_of_two alignment ≡ true) where
  -- A block that ends what has just been mapped has room for what it was mapped for.
  roomy-Answered :
      (b : Block) (rest : List Block)
      → b.free ≡ true
      → b.address + b.span < 2 ^ 64
      → b.span % min_alignment ≡ 0
      → header_size + tag_size + size + alignment ≤ b.span
      → Answered (alloc_in size alignment (b ∷ rest))
  roomy-Answered b rest f w r room =
      alloc_in-here size alignment b rest f (layout-Answered b size alignment h w r room)

  pub extend-Answered :
      (bs : List Block) (at stop growth : ℕ) (before : Bool)
      → Tiles at stop before bs
      → growth % min_alignment ≡ 0
      → stop + growth < 2 ^ 64
      → header_size + tag_size + size + alignment ≤ growth
      → Answered (alloc_in size alignment (extend stop growth bs))
  unfolding extend
  extend-Answered [] at stop growth before t r w room = roomy-Answered _ [] refl w r room
  extend-Answered (b ∷ []) at stop growth before (a, s, n, t) r w room =
      if_intro (λ l. Answered (alloc_in size alignment l)) b.free _ _
        (λ open_. roomy-Answered _ [] open_ (omega arith) (omega (arith, s.rounded)) (omega arith))
        (λ held. alloc_in-later size alignment b _ (roomy-Answered _ [] refl w r room))
  extend-Answered (b ∷ c ∷ rest) at stop growth before (a, s, n, t) r w room =
      alloc_in-later size alignment b _
        (extend-Answered (c ∷ rest) (at + b.span) stop growth b.free t r w room)
