-- ===== src/Mm/Heap/Tiling.antt =====
-- The blocks of kernel/mm/heap.c tile the committed part of the arena.
use northstar_os.Base.{
  ℕ, ◌+◌, ◌-◌, ◌*◌, ◌%◌, ◌^◌, ◌≤◌, ◌<◌, ◌≡◌, refl, sym, ◌∙◌, ◌≢◌, Bool, true, false, ◌&&◌, Option,
  none, some, List, [], ◌∷◌, ltb, arith, if_intro, option_intro,
}
use mathlib.Core.Path.{subst₂}
use northstar_os.Base.Words.{u64_max, sub64, is_power_of_two}
use northstar_os.Base.Align.{align_up_checked, Rounds, align_up_checked-Rounds}
use northstar_os.Mm.Heap.{
  Block, block_magic, header_size, tag_size, min_alignment, min_block_span, allocation_layout,
  consumed_by, merge_next, split_trailing,
}

-- A block by itself: a free one holds nothing, a live one holds what was asked of it.
pub record Sound (b : Block) : Type 0 where
  pub marked : b.magic ≡ block_magic
  pub holds_header : header_size ≤ b.span
  pub rounded : b.span % min_alignment ≡ 0
  pub empty : b.free ≡ true → (b.requested ≡ 0) × (b.user_pointer ≡ 0)
  pub full :
      b.free ≡ false
      → (b.requested ≢ 0)
        × (b.address + header_size < b.user_pointer)
        × (b.user_pointer + b.requested ≤ b.address + b.span)

-- The blocks lie side by side from `at` to `stop`, and no two free ones are neighbours; `before`
-- tells whether the block in front of them is free.
abbrev pub Tiles : ℕ → ℕ → Bool → List Block → Type 0
Tiles at stop before [] = at ≡ stop
Tiles at stop before (b ∷ rest) =
    (b.address ≡ at) × Sound b × ((before && b.free) ≡ false) × Tiles (at + b.span) stop b.free rest

-- What stands in front matters only if it is free.
pub Tiles-after_live :
    (at stop : ℕ) (before : Bool) (bs : List Block)
    → Tiles at stop before bs
    → Tiles at stop false bs
Tiles-after_live at stop before [] t = t
Tiles-after_live at stop before (b ∷ bs) (a, s, n, t) = (a, s, refl, t)

pub Tiles-le : (bs : List Block) (at stop : ℕ) (before : Bool) → Tiles at stop before bs → at ≤ stop
Tiles-le [] at stop before t = omega arith
Tiles-le (b ∷ bs) at stop before (a, s, n, t) = omega (arith, Tiles-le bs _ stop _ t)

-- The same tiling, seen from equal bounds.
pub moved :
    {at at' : ℕ} {before before' : Bool} (stop : ℕ) (bs : List Block)
    → at ≡ at'
    → before ≡ before'
    → Tiles at stop before bs
    → Tiles at' stop before' bs
moved stop bs e f t = subst₂ (λ a b. Tiles a stop b bs) e f t

-- A free block that grows stays sound.
pub grown-Sound :
    (b : Block) (n : ℕ)
    → Sound b
    → b.free ≡ true
    → n % min_alignment ≡ 0
    → Sound (record b { span = b.span + n })
grown-Sound b n s f r = record {
  marked = s.marked;
  holds_header = omega (arith, s.holds_header);
  rounded = omega (arith, s.rounded, r);
  empty = s.empty;
  full = λ l. absurd (cc);
}

-- Merging a free block with what follows it, behind a live block or none.
pub merge_next-Tiles :
    (at stop : ℕ) (before : Bool) (b : Block) (rest : List Block)
    → b.address ≡ at
    → Sound b
    → b.free ≡ true
    → before ≡ false
    → Tiles (at + b.span) stop false rest
    → Tiles at stop before (merge_next b rest)
unfolding merge_next
merge_next-Tiles at stop before b [] a s f e t = (a, s, ground (arith, e), t)
merge_next-Tiles at stop before b (c ∷ rest) a s f e (ca, cs, n, t) =
    if_intro (Tiles at stop before) c.free _ _
      (λ open_. (
        a,
        grown-Sound b c.span s f cs.rounded,
        ground (arith, e),
        moved stop rest (omega arith) (open_ ∙ sym f) t,
      ))
      (λ live. (a, s, ground (arith, e), (ca, cs, ground (arith, live), t)))

-- Splitting a block that has become live.
pub split_trailing-Tiles :
    (at stop consumed : ℕ) (before : Bool) (b : Block) (rest : List Block)
    → b.address ≡ at
    → b.free ≡ false
    → Sound b
    → header_size ≤ consumed
    → consumed ≤ b.span
    → b.span < 2 ^ 64
    → consumed % min_alignment ≡ 0
    → b.user_pointer + b.requested ≤ b.address + consumed
    → Tiles (at + b.span) stop false rest
    → Tiles at stop before (split_trailing consumed b rest)
unfolding split_trailing
split_trailing-Tiles at stop consumed before b rest a l s h le w r fits t =
    if_intro (Tiles at stop before) (ltb (sub64 b.span consumed) min_block_span) _ _
      (λ small. (a, s, ground (arith, l), moved stop rest refl (sym l) t))
      (λ large. (
        a,
        record {
          marked = s.marked;
          holds_header = h;
          rounded = r;
          empty = λ f. absurd (cc);
          full = λ f. ((s.full l).0, (s.full l).1, fits);
        },
        ground (arith, l),
        merge_next-Tiles (at + consumed) stop b.free _ rest (omega arith)
            (record {
              marked = refl;
              holds_header = ground (arith, large);
              rounded = omega (arith, s.rounded);
              empty = λ f. (refl, refl);
              full = λ f. absurd (cc);
            })
            refl l (moved stop rest (omega arith) refl t),
      ))

-- Where an allocation stands in its block.
pub record Fitted (b : Block) (size alignment pointer consumed : ℕ) : Type 0 where
  pub aligned : (m : ℕ) × (pointer ≡ m * alignment)
  pub behind_tag : b.address + header_size + tag_size ≤ pointer
  pub inside : pointer + size ≤ b.address + consumed
  pub kept : consumed ≤ b.span
  pub rounded : consumed % min_alignment ≡ 0

abbrev pub LayoutFits : Block → ℕ → ℕ → Option (ℕ × ℕ) → Type 0
LayoutFits b size alignment none = Unit {0}
LayoutFits b size alignment (some (pointer, consumed)) = Fitted b size alignment pointer consumed

pub allocation_layout-LayoutFits :
    (b : Block) (size alignment : ℕ)
    → is_power_of_two alignment ≡ true
    → alignment < 2 ^ 64
    → LayoutFits b size alignment (allocation_layout b size alignment)
unfolding allocation_layout
allocation_layout-LayoutFits b size alignment h l =
    if_intro (LayoutFits b size alignment) (ltb (u64_max - header_size - tag_size) b.address) _ _
      (λ _. tt)
      (λ _.
        option_intro (LayoutFits b size alignment)
          (align_up_checked (b.address + header_size + tag_size) alignment) _ _ (λ _. tt)
          (λ pointer e. consumed pointer (align_up_checked-Rounds _ _ pointer h l e)))
  where
    consumed :
        (pointer : ℕ)
        → Rounds (b.address + header_size + tag_size) alignment pointer
        → LayoutFits b size alignment (consumed_by b size pointer)
    consumed pointer r =
        if_intro (LayoutFits b size alignment) (ltb (u64_max - size) pointer) _ _ (λ _. tt)
          (λ _.
            option_intro (LayoutFits b size alignment)
              (align_up_checked (pointer + size - b.address) min_alignment) _ _ (λ _. tt)
              (λ c e.
                if_intro (LayoutFits b size alignment) (ltb b.span c) _ _ (λ _. tt)
                  (λ fits.
                    fitted c fits
                      (align_up_checked-Rounds _ min_alignment c refl (omega arith) e))))
      where
        fitted :
            (c : ℕ)
            → ltb b.span c ≡ false
            → Rounds (pointer + size - b.address) min_alignment c
            → Fitted b size alignment pointer c
        fitted c fits q = record {
          aligned = r.multiple;
          behind_tag = r.above;
          inside = omega (arith, q.above, r.above);
          kept = ground (arith, fits);
          rounded = let (m, e) = q.multiple in omega arith;
        }
