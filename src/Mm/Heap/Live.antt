-- ===== src/Mm/Heap/Live.antt =====
-- The live allocations of kernel/mm/heap.c: what clients hold, without the blocks.
use northstar_os.Base.{
  ℕ, ◌+◌, ◌≤◌, ◌<◌, ◌≡◌, refl, sym, ap, ◌∙◌, ◌≢◌, Bool, true, false, List, [], ◌∷◌, arith,
  if◌then◌else◌, if_intro, ltb,
}
use northstar_os.Base.Words.{sub64}
use northstar_os.Mm.Heap.{Block, header_size, min_block_span, merge_next, split_trailing}
use northstar_os.Mm.Heap.Tiling.{Tiles}

-- What is out, in the order of addresses: the address of the block, the pointer that was handed
-- out and the size that was asked for.
unfoldable pub live : List Block → List (ℕ × ℕ × ℕ)
live [] = []
live (b ∷ rest) = if b.free then live rest else (b.address, b.user_pointer, b.requested) ∷ live rest

-- Allocations between two addresses: none is empty, each stands behind its block's header, and each
-- header behind the bytes of the allocation before it, so no two share a byte.
abbrev pub Ordered : ℕ → ℕ → List (ℕ × ℕ × ℕ) → Type 0
Ordered at stop [] = at ≤ stop
Ordered at stop ((address, pointer, size) ∷ rest) =
    (at ≤ address)
    × (address + header_size < pointer)
    × (size ≢ 0)
    × Ordered (pointer + size) stop rest

Ordered-le :
    (at at' stop : ℕ) (rs : List (ℕ × ℕ × ℕ)) → at' ≤ at → Ordered at stop rs → Ordered at' stop rs
Ordered-le at at' stop [] h o = omega arith
Ordered-le at at' stop ((a, p, n) ∷ rs) h (l, b, z, o) = (omega arith, b, z, o)

-- The live allocations of a tiled arena share no byte.
pub Tiles-Ordered :
    (bs : List Block) (at stop : ℕ) (before : Bool)
    → Tiles at stop before bs
    → Ordered at stop (live bs)
unfolding live
Tiles-Ordered [] at stop before t = omega arith
Tiles-Ordered (b ∷ bs) at stop before (a, s, n, t) =
    let later : Ordered (at + b.span) stop (live bs) =
      Tiles-Ordered bs (at + b.span) stop b.free t in
    if_intro (Ordered at stop) b.free _ _
      (λ open_. Ordered-le _ _ stop (live bs) (omega arith) later)
      (λ held.
        let (nz, lo, hi) = s.full held in
        (omega arith, lo, nz, Ordered-le _ _ stop (live bs) (omega arith) later))

pub live-free : (b : Block) (rest : List Block) → b.free ≡ true → live (b ∷ rest) ≡ live rest
unfolding live
live-free b rest f = rw f refl

pub live-held :
    (b : Block) (rest : List Block)
    → b.free ≡ false
    → live (b ∷ rest) ≡ (b.address, b.user_pointer, b.requested) ∷ live rest
unfolding live
live-held b rest f = rw f refl

pub live-cons : (b : Block) (xs ys : List Block) → live xs ≡ live ys → live (b ∷ xs) ≡ live (b ∷ ys)
unfolding live
live-cons b xs ys e = rw e refl

pub live-merge_next :
    (b : Block) (rest : List Block) → b.free ≡ true → live (merge_next b rest) ≡ live rest
unfolding merge_next
live-merge_next b [] f = live-free b [] f
live-merge_next b (c ∷ rest) f =
    if_intro (λ l. live l ≡ live (c ∷ rest)) c.free _ _
      (λ open_. live-free _ rest f ∙ sym (live-free c rest open_))
      (λ held. live-free b (c ∷ rest) f)

pub live-split_trailing :
    (consumed : ℕ) (b : Block) (rest : List Block)
    → b.free ≡ false
    → live (split_trailing consumed b rest) ≡ (b.address, b.user_pointer, b.requested) ∷ live rest
unfolding split_trailing
live-split_trailing consumed b rest f =
    if_intro (λ l. live l ≡ (b.address, b.user_pointer, b.requested) ∷ live rest)
      (ltb (sub64 b.span consumed) min_block_span) _ _ (λ small. live-held b rest f)
      (λ large.
        live-held _ _ f
        ∙ ap (λ l. (b.address, b.user_pointer, b.requested) ∷ l) (live-merge_next _ rest refl))
