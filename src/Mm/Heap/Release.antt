-- ===== src/Mm/Heap/Release.antt =====
-- What `ns_kheap_free` (kernel/mm/heap.c) does to the blocks: the tiling stays, one allocation goes.
use northstar_os.Base.{
  ℕ, ◌+◌, ◌≡◌, refl, sym, ap, ◌∙◌, ◌≢◌, ◌⊎◌, Bool, true, false, some, List, [], ◌∷◌, arith,
  if_intro, Bool-cases, inl, inr, ◌&&◌, ◌==◌,
}
use mathlib.Core.Path.{subst, subst₂}
use northstar_os.Mm.Heap.{Block, merge_next, find_block, rejoin, freed, release}
use northstar_os.Mm.Heap.Tiling.{Sound, Tiles, moved, merge_next-Tiles, Tiles-after_live}
use northstar_os.Mm.Heap.Live.{live, live-free, live-held, live-merge_next}
use northstar_os.Mm.Heap.Search.{Inserted, Inserted-live}

freed-Sound : (b : Block) → Sound b → Sound (freed b)
freed-Sound b s = record {
  marked = s.marked;
  holds_header = s.holds_header;
  rounded = s.rounded;
  empty = λ e. (refl, refl);
  full = λ e. absurd (cc);
}

-- A block in front of the ones that have changed, of which the first is at the freed address or as
-- it was.
rejoin-Tiles :
    (address at stop : ℕ) (before : Bool) (b : Block) (rest : List Block)
    → b.address ≡ at
    → Sound b
    → (before && b.free) ≡ false
    → Tiles (at + b.span) stop false rest
    → (address ≢ at + b.span → Tiles (at + b.span) stop b.free rest)
    → Tiles at stop before (rejoin address b rest)
unfolding rejoin
rejoin-Tiles address at stop before b [] a s n t u = (a, s, n, t)
rejoin-Tiles address at stop before b (next ∷ rest) a s n t u =
    if_intro (Tiles at stop before) ((next.address == address) && b.free) _ _
      (λ joins.
        let open_ : b.free ≡ true = ground (arith, joins) in
        merge_next-Tiles at stop before b (next ∷ rest) a s open_ (ground (arith, n, open_)) t)
      (λ stays. (a, s, n, kept stays (Bool-cases b.free)))
  where
    kept :
        ((next.address == address) && b.free) ≡ false
        → (b.free ≡ true) ⊎ (b.free ≡ false)
        → Tiles (at + b.span) stop b.free (next ∷ rest)
    kept stays (inl open_) =
        u (λ e. let m : next.address ≡ address = t.0 ∙ sym e in ground (arith, stays, open_, m))
    kept stays (inr held) = moved stop (next ∷ rest) refl (sym held) t

pub release-Tiles :
    (address : ℕ) (bs : List Block) (at stop : ℕ) (before : Bool)
    → Tiles at stop before bs
    → (Tiles at stop false (release address bs))
      × (address ≢ at → Tiles at stop before (release address bs))
unfolding release
release-Tiles address [] at stop before t = (t, λ _. t)
release-Tiles address (b ∷ rest) at stop before (a, s, n, t) =
    if_intro (λ bs. (Tiles at stop false bs) × (address ≢ at → Tiles at stop before bs))
      (b.address == address) _ _
      (λ here. (
        merge_next-Tiles at stop false (freed b) rest a (freed-Sound b s) refl refl
            (Tiles-after_live _ stop _ rest t),
        λ ne. absurd (ground (arith, here, a, ne)),
      ))
      (λ later.
        let (p, q) = release-Tiles address rest (at + b.span) stop b.free t in
        let r : Tiles at stop before (rejoin address b (release address rest)) =
          rejoin-Tiles address at stop before b _ a s n p q in
        (Tiles-after_live at stop before _ r, λ _. r))

live-rejoin :
    (address : ℕ) (b : Block) (rest : List Block) → live (rejoin address b rest) ≡ live (b ∷ rest)
unfolding rejoin
live-rejoin address b [] = refl
live-rejoin address b (next ∷ rest) =
    if_intro (λ l. live l ≡ live (b ∷ next ∷ rest)) ((next.address == address) && b.free) _ _
      (λ joins.
        let open_ : b.free ≡ true = ground (arith, joins) in
        live-merge_next b (next ∷ rest) open_ ∙ sym (live-free b (next ∷ rest) open_))
      (λ _. refl)

-- The allocation of the block at the address goes, the others stay.
pub release-Inserted :
    (address : ℕ) (bs : List Block) (b : Block)
    → find_block address bs ≡ some b
    → b.free ≡ false
    → Inserted (b.address, b.user_pointer, b.requested) (live (release address bs)) (live bs)
unfolding find_block release
release-Inserted address [] b f held = absurd (cc)
release-Inserted address (c ∷ rest) b f held = elim (Bool-cases (c.address == address)) [
  | inl here ↦
      let same : c ≡ b = ground (arith, f, here) in
      subst₂
        (λ bs (x : Block).
          Inserted (x.address, x.user_pointer, x.requested) (live bs) (live (c ∷ rest)))
        (sym (at_once here)) same (gone (ground (arith, held, same)))
  | inr later ↦
      let found : find_block address rest ≡ some b = ground (arith, f, later) in
      subst (λ bs. Inserted (b.address, b.user_pointer, b.requested) bs (live (c ∷ rest)))
        (sym (live-rejoin address c (release address rest)) ∙ ap live (sym (behind later)))
        (Inserted-live _ c (release address rest) rest (release-Inserted address rest b found held))
]
  where
    at_once : (c.address == address) ≡ true → release address (c ∷ rest) ≡ merge_next (freed c) rest
    at_once e = rw e refl

    behind :
        (c.address == address) ≡ false
        → release address (c ∷ rest) ≡ rejoin address c (release address rest)
    behind e = rw e refl

    gone :
        c.free ≡ false
        → Inserted
            (c.address, c.user_pointer, c.requested)
            (live (merge_next (freed c) rest))
            (live (c ∷ rest))
    gone h = record {
      front = [];
      back = live rest;
      was = live-merge_next (freed c) rest refl;
      is = live-held c rest h;
    }
