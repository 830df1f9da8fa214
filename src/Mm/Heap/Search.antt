-- ===== src/Mm/Heap/Search.antt =====
-- The search of `ns_kheap_alloc_aligned` (kernel/mm/heap.c): where it places an allocation.
use northstar_os.Base.{
  ℕ, ◌+◌, ◌*◌, ◌^◌, ◌≤◌, ◌<◌, ◌≡◌, refl, sym, ap, ◌∙◌, ◌≢◌, Bool, true, false, Option, none, some,
  List, [], ◌∷◌, ◌++◌, arith, if◌then◌else◌, option_intro, Bool-cases, inl, inr,
}
use mathlib.Core.Path.{subst, subst₂}
use northstar_os.Base.Words.{is_power_of_two}
use northstar_os.Mm.Heap.{
  Block, header_size, tag_size, allocation_layout, split_trailing, taken, alloc_in,
}
use northstar_os.Mm.Heap.Tiling.{
  Tiles, Tiles-le, Tiles-after_live, Fitted, LayoutFits, allocation_layout-LayoutFits,
  split_trailing-Tiles,
}
use northstar_os.Mm.Heap.Live.{live, live-free, live-held, live-split_trailing}

-- One allocation more among those that there were.
pub record Inserted (x : ℕ × ℕ × ℕ) (old new : List (ℕ × ℕ × ℕ)) : Type 0 where
  pub front : List (ℕ × ℕ × ℕ)
  pub back : List (ℕ × ℕ × ℕ)
  pub was : old ≡ front ++ back
  pub is : new ≡ front ++ (x ∷ back)

pub Inserted-cons :
    (x y : ℕ × ℕ × ℕ) (old new : List (ℕ × ℕ × ℕ))
    → Inserted x old new
    → Inserted x (y ∷ old) (y ∷ new)
Inserted-cons x y old new i = record {
  front = y ∷ i.front;
  back = i.back;
  was = ap (λ l. y ∷ l) i.was;
  is = ap (λ l. y ∷ l) i.is;
}

-- The same of the blocks, behind one that stays.
pub Inserted-live :
    (x : ℕ × ℕ × ℕ) (b : Block) (old new : List Block)
    → Inserted x (live old) (live new)
    → Inserted x (live (b ∷ old)) (live (b ∷ new))
Inserted-live x b old new i = elim (Bool-cases b.free) [
  | inl open_ ↦ subst₂ (Inserted x) (sym (live-free b old open_)) (sym (live-free b new open_)) i
  | inr held ↦
      subst₂ (Inserted x) (sym (live-held b old held)) (sym (live-held b new held))
        (Inserted-cons x _ _ _ i)
]

-- A place found among blocks that tile the memory from `at` to `stop`.
pub record Placed (size alignment at stop : ℕ) (before : Bool) (bs : List Block)
    (pointer address : ℕ) (after : List Block) : Type 0 where
  pub tiles : Tiles at stop before after
  pub aligned : (m : ℕ) × (pointer ≡ m * alignment)
  pub behind_tag : address + header_size + tag_size ≤ pointer
  pub room : pointer + size ≤ stop
  pub inserted : Inserted (address, pointer, size) (live bs) (live after)

abbrev pub Answer : ℕ → ℕ → ℕ → ℕ → Bool → List Block → Option (ℕ × ℕ × List Block) → Type 0
Answer size alignment at stop before bs none = Unit {0}
Answer size alignment at stop before bs (some (pointer, address, after)) =
    Placed size alignment at stop before bs pointer address after

-- The search in the block at hand.
abbrev attempt : Block → ℕ → ℕ → Option (ℕ × ℕ)
attempt b size alignment = if b.free then allocation_layout b size alignment else none

attempt-Fitted :
    (b : Block) (size alignment pointer consumed : ℕ)
    → is_power_of_two alignment ≡ true
    → alignment < 2 ^ 64
    → attempt b size alignment ≡ some (pointer, consumed)
    → (b.free ≡ true) × Fitted b size alignment pointer consumed
attempt-Fitted b size alignment pointer consumed h l e = elim (Bool-cases b.free) [
  | inl open_ ↦ (
    open_,
    subst (LayoutFits b size alignment) (sym (if_free open_) ∙ e)
        (allocation_layout-LayoutFits b size alignment h l),
  )
  | inr held ↦ absurd (not_held held)
]
  where
    if_free : b.free ≡ true → attempt b size alignment ≡ allocation_layout b size alignment
    if_free f = rw f refl

    is_none : b.free ≡ false → attempt b size alignment ≡ none
    is_none f = rw f refl

    not_held : b.free ≡ false → ⊥
    not_held f =
        let r : ◌≡◌ {A = Option (ℕ × ℕ)} none (some (pointer, consumed)) = sym (is_none f) ∙ e in cc

module _ (size alignment stop : ℕ) (h : is_power_of_two alignment ≡ true) (l : alignment < 2 ^ 64)
    (nz : size ≢ 0) (w : stop < 2 ^ 64) where
  Placed-here :
      (b : Block) (rest : List Block) (at pointer consumed : ℕ) (before : Bool)
      → Tiles at stop before (b ∷ rest)
      → b.free ≡ true
      → Fitted b size alignment pointer consumed
      → Placed size alignment at stop before
          (b ∷ rest)
          pointer
          b.address
          (split_trailing consumed (taken b size pointer) rest)
  Placed-here b rest at pointer consumed before (a, s, n, t) open_ f = record {
    tiles =
        split_trailing-Tiles at stop consumed before (taken b size pointer) rest a refl
          (record {
            marked = s.marked;
            holds_header = s.holds_header;
            rounded = s.rounded;
            empty = λ e. absurd (cc);
            full = λ e. (nz, omega (arith, f.behind_tag), omega (arith, f.inside, f.kept));
          })
          (omega (arith, f.behind_tag, f.inside)) f.kept (omega (arith, Tiles-le rest _ stop _ t))
          f.rounded f.inside (Tiles-after_live _ stop _ rest t);
    aligned = f.aligned;
    behind_tag = f.behind_tag;
    room = omega (arith, f.inside, f.kept, Tiles-le rest _ stop _ t);
    inserted = record {
      front = [];
      back = live rest;
      was = live-free b rest open_;
      is = live-split_trailing consumed (taken b size pointer) rest refl;
    };
  }

  Placed-later :
      (b : Block) (rest after : List Block) (at pointer address : ℕ) (before : Bool)
      → Tiles at stop before (b ∷ rest)
      → Placed size alignment (at + b.span) stop b.free rest pointer address after
      → Placed size alignment at stop before (b ∷ rest) pointer address (b ∷ after)
  Placed-later b rest after at pointer address before (a, s, n, t) p = record {
    tiles = (a, s, n, p.tiles);
    aligned = p.aligned;
    behind_tag = p.behind_tag;
    room = p.room;
    inserted = Inserted-live _ b rest after p.inserted;
  }

  -- The search.
  pub alloc_in-Answer :
      (bs : List Block) (at : ℕ) (before : Bool)
      → Tiles at stop before bs
      → Answer size alignment at stop before bs (alloc_in size alignment bs)
  unfolding alloc_in
  alloc_in-Answer [] at before t = tt
  alloc_in-Answer (b ∷ rest) at before t =
      option_intro (Answer size alignment at stop before (b ∷ rest)) (attempt b size alignment) _ _
        (λ _. later (alloc_in size alignment rest) (alloc_in-Answer rest (at + b.span) b.free t.3))
        (λ found e.
          let (open_, f) = attempt-Fitted b size alignment found.0 found.1 h l e in
          Placed-here b rest at found.0 found.1 before t open_ f)
    where
      later :
          (o : Option (ℕ × ℕ × List Block))
          → Answer size alignment (at + b.span) stop b.free rest o
          → Answer size alignment at stop before (b ∷ rest) (elim o [
            | some (pointer, address, after) ↦ some (pointer, address, b ∷ after)
            | none ↦ none
          ])
      later none g = tt
      later (some (pointer, address, after)) g =
          Placed-later b rest after at pointer address before t g
