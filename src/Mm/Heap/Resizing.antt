-- ===== src/Mm/Heap/Resizing.antt =====
-- What `ns_kheap_realloc` (kernel/mm/heap.c) does to the blocks where it keeps the pointer.
use northstar_os.Base.{
  ℕ, ◌+◌, ◌-◌, ◌%◌, ◌^◌, ◌≤◌, ◌<◌, ◌≡◌, refl, sym, ap, ◌∙◌, ◌≢◌, Bool, true, false, some, List, [],
  ◌∷◌, ◌++◌, arith, if_intro, option_intro, Bool-cases, inl, inr, ◌&&◌, ltb, ◌==◌,
}
use mathlib.Core.Path.{subst, subst₂}
use northstar_os.Base.Words.{add64, sub64}
use northstar_os.Base.Align.{align_up_checked, align_up_checked-Rounds}
use northstar_os.Mm.Heap.{Block, min_alignment, merge_next, find_block}
use northstar_os.Mm.Heap.Realloc.{available, widen, cut, fit, resize}
use northstar_os.Mm.Heap.Tiling.{
  Sound, Tiles, Tiles-le, Tiles-after_live, moved, split_trailing-Tiles,
}
use northstar_os.Mm.Heap.Live.{live, live-free, live-held, live-cons, live-split_trailing}

-- One allocation in the place of another.
pub record Swapped (x y : ℕ × ℕ × ℕ) (old new : List (ℕ × ℕ × ℕ)) : Type 0 where
  pub front : List (ℕ × ℕ × ℕ)
  pub back : List (ℕ × ℕ × ℕ)
  pub was : old ≡ front ++ (x ∷ back)
  pub is : new ≡ front ++ (y ∷ back)

Swapped-live :
    (x y : ℕ × ℕ × ℕ) (b : Block) (old new : List Block)
    → Swapped x y (live old) (live new)
    → Swapped x y (live (b ∷ old)) (live (b ∷ new))
Swapped-live x y b old new i = elim (Bool-cases b.free) [
  | inl open_ ↦ subst₂ (Swapped x y) (sym (live-free b old open_)) (sym (live-free b new open_)) i
  | inr held ↦
      subst₂ (Swapped x y) (sym (live-held b old held)) (sym (live-held b new held)) (record {
        front = (b.address, b.user_pointer, b.requested) ∷ i.front;
        back = i.back;
        was = ap (λ l. (b.address, b.user_pointer, b.requested) ∷ l) i.was;
        is = ap (λ l. (b.address, b.user_pointer, b.requested) ∷ l) i.is;
      })
]

-- A live block that takes in a free one behind it.
widened-Sound :
    (b : Block) (n : ℕ)
    → Sound b
    → b.free ≡ false
    → n % min_alignment ≡ 0
    → Sound (record b { span = b.span + n })
widened-Sound b n s l r = record {
  marked = s.marked;
  holds_header = omega (arith, s.holds_header);
  rounded = omega (arith, s.rounded, r);
  empty = λ f. absurd (cc);
  full = λ f. let (nz, lo, hi) = s.full l in (nz, lo, omega arith);
}

-- What stands at the front of a list of blocks: the live block that was there, perhaps wider.
record Fronted (b : Block) (at stop : ℕ) (before : Bool) (rest bs : List Block) : Type 0 where
  block : Block
  behind : List Block
  shape : bs ≡ block ∷ behind
  tiles : Tiles at stop before (block ∷ behind)
  held : block.free ≡ false
  same :
      (block.address ≡ b.address)
      × (block.user_pointer ≡ b.user_pointer)
      × (block.requested ≡ b.requested)
  others : live behind ≡ live rest

merge_next-Fronted :
    (b : Block) (rest : List Block) (at stop : ℕ) (before : Bool)
    → Tiles at stop before (b ∷ rest)
    → b.free ≡ false
    → Fronted b at stop before rest (merge_next b rest)
unfolding merge_next
merge_next-Fronted b [] at stop before t l = record {
  block = b;
  behind = [];
  shape = refl;
  tiles = t;
  held = l;
  same = (refl, refl, refl);
  others = refl;
}
merge_next-Fronted b (c ∷ rest) at stop before (a, s, n, t) l =
    if_intro (Fronted b at stop before (c ∷ rest)) c.free _ _
      (λ open_. record {
        block = record b { span = b.span + c.span };
        behind = rest;
        shape = refl;
        tiles = (
          a,
          widened-Sound b c.span s l t.1.rounded,
          n,
          moved stop rest (omega arith) (sym l) (Tiles-after_live _ stop c.free rest t.3),
        );
        held = l;
        same = (refl, refl, refl);
        others = sym (live-free c rest open_);
      })
      (λ _. record {
        block = b;
        behind = c ∷ rest;
        shape = refl;
        tiles = (a, s, n, t);
        held = l;
        same = (refl, refl, refl);
        others = refl;
      })

-- The outcome of a resizing of the allocation `(address, pointer, old)`.
pub record Resized (address pointer old size at stop : ℕ) (before : Bool) (bs : List Block)
    (r : Bool × List Block) : Type 0 where
  pub tiles : Tiles at stop before r.1
  pub swapped :
      r.0 ≡ true → Swapped (address, pointer, old) (address, pointer, size) (live bs) (live r.1)
  pub kept : r.0 ≡ false → live r.1 ≡ live bs

module _ (size stop : ℕ) (nz : size ≢ 0) (w : stop < 2 ^ 64) (small : size < 2 ^ 64) where
  -- A live block at the front gets its size.
  resized_block :
      (b : Block) (rest : List Block) (at : ℕ) (before : Bool)
      → Tiles at stop before (b ∷ rest)
      → b.free ≡ false
      → size ≤ available b b.user_pointer
      → Tiles at stop before (cut size b.user_pointer b rest)
        × (live (cut size b.user_pointer b rest) ≡ (b.address, b.user_pointer, size) ∷ live rest)
  resized_block b rest at before (a, s, n, t) l room =
      let (z, lo, hi) = s.full l in
      let inside : b.address + b.span ≤ stop = omega (arith, Tiles-le rest _ stop _ t) in
      let exact : sub64 (add64 b.user_pointer size) b.address ≡ b.user_pointer + size - b.address =
        omega arith in
      let sound : Sound (record b { requested = size }) = record {
        marked = s.marked;
        holds_header = s.holds_header;
        rounded = s.rounded;
        empty = λ f. absurd (cc);
        full = λ f. (nz, lo, omega arith);
      } in
      option_intro
        (λ after.
          (Tiles at stop before after)
          × (live after ≡ (b.address, b.user_pointer, size) ∷ live rest))
        (align_up_checked (sub64 (add64 b.user_pointer size) b.address) min_alignment) _ _
        (λ _. ((a, sound, n, t), live-held (record b { requested = size }) rest l))
        (λ consumed e.
          let r = align_up_checked-Rounds _ min_alignment consumed refl (omega arith) e in
          let (m, q) = r.multiple in
          (
            split_trailing-Tiles at stop consumed before (record b { requested = size }) rest a l
                sound (omega (arith, r.above)) (omega (arith, r.near, s.rounded)) (omega arith)
                (omega arith) (omega (arith, r.above)) (Tiles-after_live _ stop _ rest t),
            live-split_trailing consumed (record b { requested = size }) rest l,
          ))

  -- What a resizing makes of the front of a list.
  fit-Resized :
      (b : Block) (rest bs : List Block) (at : ℕ) (before : Bool)
      → b.free ≡ false
      → Fronted b at stop before rest bs
      → Resized b.address b.user_pointer b.requested size at stop before
          (b ∷ rest)
          (fit size b.user_pointer bs)
  fit-Resized b rest bs at before l f =
      subst
        (λ l.
          Resized b.address b.user_pointer b.requested size at stop before (b ∷ rest)
            (fit size b.user_pointer l))
        (sym f.shape)
        (if_intro (Resized b.address b.user_pointer b.requested size at stop before (b ∷ rest))
          (ltb (available f.block b.user_pointer) size) _ _
          (λ _. record { tiles = f.tiles; swapped = λ e. absurd (cc); kept = λ _. front_live })
          (λ room. cut_block (ground (arith, room))))
    where
      same_front :
          ◌≡◌ {A = ℕ × ℕ × ℕ}
            (f.block.address, f.block.user_pointer, f.block.requested)
            (b.address, b.user_pointer, b.requested)
      same_front = let (x, y, z) = f.same in rw (x, y, z) refl

      front_live : live (f.block ∷ f.behind) ≡ live (b ∷ rest)
      front_live =
          live-held f.block f.behind f.held
          ∙ ap (λ x. x ∷ live f.behind) same_front
          ∙ ap (λ l. (b.address, b.user_pointer, b.requested) ∷ l) f.others
          ∙ sym (live-held b rest l)

      cut_block :
          size ≤ available f.block b.user_pointer
          → Resized b.address b.user_pointer b.requested size at stop before
              (b ∷ rest)
              (true, cut size b.user_pointer f.block f.behind)
      cut_block room =
          let p = f.same.1 in
          let (t, e) =
            subst
              (λ q.
                (Tiles at stop before (cut size q f.block f.behind))
                × (live (cut size q f.block f.behind) ≡ (f.block.address, q, size) ∷ live f.behind))
              p
              (resized_block f.block f.behind at before f.tiles f.held
                (subst (λ q. size ≤ available f.block q) (sym p) room)) in
          record {
            tiles = t;
            swapped = λ _. record {
              front = [];
              back = live rest;
              was = live-held b rest l;
              is =
                  e
                  ∙ ap (λ a. (a, b.user_pointer, size) ∷ live f.behind) f.same.0
                  ∙ ap (λ l. (b.address, b.user_pointer, size) ∷ l) f.others;
            };
            kept = λ e. absurd (cc);
          }

  -- A block stays in front of the resizing.
  Resized-later :
      (address pointer old at : ℕ) (before : Bool) (b : Block) (rest : List Block)
      (r : Bool × List Block)
      → b.address ≡ at
      → Sound b
      → (before && b.free) ≡ false
      → Resized address pointer old size (at + b.span) stop b.free rest r
      → Resized address pointer old size at stop before (b ∷ rest) (r.0, b ∷ r.1)
  Resized-later address pointer old at before b rest r a s n q = record {
    tiles = (a, s, n, q.tiles);
    swapped = λ e. Swapped-live _ _ b rest r.1 (q.swapped e);
    kept = λ e. live-cons b r.1 rest (q.kept e);
  }

  pub resize-Resized :
      (bs : List Block) (b : Block) (at : ℕ) (before : Bool)
      → Tiles at stop before bs
      → find_block b.address bs ≡ some b
      → b.free ≡ false
      → Resized b.address b.user_pointer b.requested size at stop before bs
          (resize b.address size b.user_pointer bs)
  unfolding resize find_block
  resize-Resized [] b at before t f l = absurd (cc)
  resize-Resized (c ∷ rest) b at before (a, s, n, t) f l =
      if_intro (Resized b.address b.user_pointer b.requested size at stop before (c ∷ rest))
        (c.address == b.address) _ _
        (λ here.
          let same : c ≡ b = ground (arith, f, here) in
          let held : c.free ≡ false = ground (arith, l, same) in
          subst
            (λ (x : Block).
              Resized x.address x.user_pointer x.requested size at stop before (c ∷ rest)
                (fit size x.user_pointer (widen size x.user_pointer c rest)))
            same (fit-Resized c rest _ at before held (widened held)))
        (λ later.
          Resized-later b.address b.user_pointer b.requested at before c rest _ a s n
            (resize-Resized rest b (at + c.span) c.free t (ground (arith, f, later)) l))
    where
      widened : c.free ≡ false → Fronted c at stop before rest (widen size c.user_pointer c rest)
      widened held =
          if_intro (Fronted c at stop before rest) (ltb (available c c.user_pointer) size) _ _
            (λ _. merge_next-Fronted c rest at stop before (a, s, n, t) held)
            (λ _. record {
              block = c;
              behind = rest;
              shape = refl;
              tiles = (a, s, n, t);
              held = held;
              same = (refl, refl, refl);
              others = refl;
            })
