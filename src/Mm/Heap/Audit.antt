-- ===== src/Mm/Heap/Audit.antt =====
-- `check_invariants_unlocked` and `ns_kheap_check_invariants` (kernel/mm/heap.c). The links that
-- only the audit follows, a block's to the one before it and the heap's to the last, are read from memory.
use northstar_os.Base.{
  ℕ, ◌+◌, ◌-◌, ◌%◌, ◌^◌, ◌≤◌, ◌<◌, ◌≡◌, refl, ◌≢◌, Bool, true, false, not, List, [], ◌∷◌, arith,
  if◌then◌else◌, if_intro, Bool-cases, inl, inr, ◌&&◌, ◌||◌, ltb, leb, ◌==◌, ◌↔◌,
}
use Prim.Native.Nat.{bit_and}
use northstar_os.Base.Bits.{mask_split}
use northstar_os.Base.Words.{sub64}
use northstar_os.Mm.Heap.{
  HeapStatus, ok, einval, ecorrupt, Block, Heap, header_size, min_alignment, block_magic, failed,
}
use northstar_os.Mm.Heap.Tiling.{Sound, Tiles, Tiles-le}

-- `previous` of the block at an address, and the heap's `last`; 0 is null.
pub record Links : Type 0 where
  pub previous : ℕ → ℕ
  pub last : ℕ

-- The tests on a block that should stand at `expected` behind the one at `previous`, which is
-- free or not, in a heap that ends at `stop`.
abbrev pub misplaced : Links → ℕ → ℕ → ℕ → Bool → Block → Bool
misplaced links expected stop previous before b =
    not (b.address == expected)
    || not (b.magic == block_magic)
    || ltb b.span header_size
    || not (bit_and b.span (min_alignment - 1) == 0)
    || not (links.previous b.address == previous)
    || (before && b.free)
    || ltb (stop - expected) b.span

-- The tests on what a live one holds.
abbrev pub misheld : Block → Bool
misheld b =
    not b.free
    && (leb b.user_pointer (b.address + header_size)
        || (b.requested == 0)
        || ltb (sub64 (b.address + b.span) b.user_pointer) b.requested)

-- The loop and the test behind it.
unfoldable pub check_blocks : Links → ℕ → ℕ → ℕ → Bool → List Block → HeapStatus
check_blocks links expected stop previous before [] =
    if not (previous == links.last) || not (expected == stop) then ecorrupt else ok
check_blocks links expected stop previous before (b ∷ rest) =
    let checked = check_blocks links (expected + b.span) stop b.address b.free rest in
    if misplaced links expected stop previous before b || misheld b then ecorrupt else checked

-- What comes before the loop; the first block is null where there is none.
abbrev pub check_first : Links → ℕ → ℕ → List Block → HeapStatus
check_first links base stop [] = ecorrupt
check_first links base stop (b ∷ rest) =
    if (links.last == 0) || not (b.address == base)
    then ecorrupt
    else check_blocks links base stop 0 false (b ∷ rest)

abbrev pub check_invariants_unlocked : Links → Heap → HeapStatus
check_invariants_unlocked links h =
    check_first links h.arena_base (h.arena_base + h.committed_size) h.blocks

unfoldable pub check_invariants : Links → Heap → HeapStatus × Heap
check_invariants links h =
    if h.initialized == 0
    then (einval, h)
    else (check_invariants_unlocked links h, failed h (check_invariants_unlocked links h))

-- The links lead from each block to the one before it, from the first to `previous`, and the heap's to the
-- last block.
abbrev pub Linked : Links → ℕ → List Block → Type 0
Linked links previous [] = previous ≡ links.last
Linked links previous (b ∷ rest) =
    (links.previous b.address ≡ previous) × Linked links b.address rest

mask_test : (a : ℕ) → (bit_and a 15 ≡ 0) ↔ (a % min_alignment ≡ 0)
mask_test a = let (q, s, b) = mask_split 4 a in (λ e. omega arith, λ e. omega arith)

-- A sound block in its place passes.
passes :
    (links : Links) (expected stop previous : ℕ) (before : Bool) (b : Block)
    → b.address ≡ expected
    → links.previous b.address ≡ previous
    → Sound b
    → (before && b.free) ≡ false
    → expected + b.span ≤ stop
    → stop < 2 ^ 64
    → (misplaced links expected stop previous before b || misheld b) ≡ false
passes links expected stop previous before b a p s n r w = elim (Bool-cases b.free) [
  | inl open_ ↦
      ground (arith, a, p, s.marked, s.holds_header, (mask_test b.span).1 s.rounded, n, r, open_)
  | inr held ↦
      let (nz, lo, hi) = s.full held in
      let fits : b.requested ≤ sub64 (b.address + b.span) b.user_pointer = omega arith in
      ground (
        arith,
        a,
        p,
        s.marked,
        s.holds_header,
        (mask_test b.span).1 s.rounded,
        n,
        r,
        held,
        nz,
        lo,
        fits,
      )
]

check_blocks-ok :
    (links : Links) (bs : List Block) (expected stop previous : ℕ) (before : Bool)
    → stop < 2 ^ 64
    → Tiles expected stop before bs
    → Linked links previous bs
    → check_blocks links expected stop previous before bs ≡ ok
unfolding check_blocks
check_blocks-ok links [] expected stop previous before w t p = ground (arith, t, p)
check_blocks-ok links (b ∷ rest) expected stop previous before w (a, s, n, t) (p, ps) =
    rw (passes links expected stop previous before b a p s n (Tiles-le rest _ stop _ t) w)
      (check_blocks-ok links rest (expected + b.span) stop b.address b.free w t ps)

-- What the tests leave out: that a free block's fields are cleared, and that a live one's pointer is
-- not beyond its end, where the subtraction of the source wraps.
abbrev pub Unchecked : List Block → Type 0
Unchecked [] = Unit {0}
Unchecked (b ∷ rest) =
    (b.free ≡ true → (b.requested ≡ 0) × (b.user_pointer ≡ 0))
    × (b.free ≡ false → b.user_pointer ≤ b.address + b.span)
    × Unchecked rest

-- A block that passes is sound and in its place.
passed :
    (links : Links) (expected stop previous : ℕ) (before : Bool) (b : Block)
    → (b.free ≡ true → (b.requested ≡ 0) × (b.user_pointer ≡ 0))
    → (b.free ≡ false → b.user_pointer ≤ b.address + b.span)
    → expected ≤ stop
    → stop < 2 ^ 64
    → (misplaced links expected stop previous before b || misheld b) ≡ false
    → (b.address ≡ expected)
      × (links.previous b.address ≡ previous)
      × Sound b
      × ((before && b.free) ≡ false)
      × (expected + b.span ≤ stop)
passed links expected stop previous before b e i l w h =
    let a : b.address ≡ expected = ground (arith, h) in
    let short : b.span ≤ stop - expected = ground (arith, h) in
    (
      a,
      ground (arith, h),
      record {
        marked = ground (arith, h);
        holds_header = ground (arith, h);
        rounded = (mask_test b.span).0 (ground (arith, h));
        empty = e;
        full = λ held.
            let room : b.requested ≤ sub64 (b.address + b.span) b.user_pointer =
              ground (arith, h, held) in
            (ground (arith, h, held), ground (arith, h, held), omega (arith, i held));
      },
      ground (arith, h),
      omega arith,
    )

check_blocks-Tiles :
    (links : Links) (bs : List Block) (expected stop previous : ℕ) (before : Bool)
    → Unchecked bs
    → expected ≤ stop
    → stop < 2 ^ 64
    → check_blocks links expected stop previous before bs ≡ ok
    → Tiles expected stop before bs × Linked links previous bs
unfolding check_blocks
check_blocks-Tiles links [] expected stop previous before u l w =
    if_intro (λ r. r ≡ ok → (expected ≡ stop) × (previous ≡ links.last))
      (not (previous == links.last) || not (expected == stop)) _ _
      (λ _ (x : ecorrupt ≡ ok). absurd (cc))
      (λ fine _. (ground (arith, fine), ground (arith, fine)))
check_blocks-Tiles links (b ∷ rest) expected stop previous before (e, i, u) l w =
    if_intro
      (λ r. r ≡ ok → Tiles expected stop before (b ∷ rest) × Linked links previous (b ∷ rest))
      (misplaced links expected stop previous before b || misheld b) _ _
      (λ _ (x : ecorrupt ≡ ok). absurd (cc))
      (λ fine c.
        let (a, p, s, n, r) = passed links expected stop previous before b e i l w fine in
        let (t, ps) =
          check_blocks-Tiles links rest (expected + b.span) stop b.address b.free u r w c in
        ((a, s, n, t), (p, ps)))

-- On an initialised heap whose committed part is not empty and does not wrap, where a free block's fields
-- are cleared and no live pointer is beyond the end of its block, the audit answers OK exactly where the
-- blocks tile the committed part of the arena, each one sound and no two free ones side by side, each
-- block's link leads to the one before it and the heap's to the last, which is not null; the answer is
-- also left as the heap's last error.
pub check_invariants-Tiles :
    (links : Links) (h : Heap)
    → h.initialized ≢ 0
    → h.committed_size ≢ 0
    → h.arena_base + h.committed_size < 2 ^ 64
    → Unchecked h.blocks
    → (((check_invariants links h).0 ≡ ok) ↔ (
        (links.last ≢ 0)
        × Tiles h.arena_base (h.arena_base + h.committed_size) false h.blocks
        × Linked links 0 h.blocks))
      × (check_invariants links h
          ≡ ((check_invariants links h).0, failed h (check_invariants links h).0))
unfolding check_invariants
check_invariants-Tiles links h on some_ w u =
    if_intro
      (λ r.
        ((r.0 ≡ ok) ↔ (
          (links.last ≢ 0)
          × Tiles h.arena_base (h.arena_base + h.committed_size) false h.blocks
          × Linked links 0 h.blocks))
        × (r ≡ (r.0, failed h r.0)))
      (h.initialized == 0) _ _ (λ off. absurd (on (ground (arith, off))))
      (λ _. (answer h.blocks u, refl))
  where
    answer :
        (bs : List Block)
        → Unchecked bs
        → (check_first links h.arena_base (h.arena_base + h.committed_size) bs ≡ ok) ↔ (
            (links.last ≢ 0)
            × Tiles h.arena_base (h.arena_base + h.committed_size) false bs
            × Linked links 0 bs)
    answer [] u =
        (λ (e : ecorrupt ≡ ok). absurd (cc), λ (nz, t, p). absurd (omega (arith, some_, t)))
    answer (b ∷ rest) u =
        if_intro
          (λ r. (r ≡ ok) ↔ (
            (links.last ≢ 0)
            × Tiles h.arena_base (h.arena_base + h.committed_size) false (b ∷ rest)
            × Linked links 0 (b ∷ rest)))
          ((links.last == 0) || not (b.address == h.arena_base)) _ _
          (λ far. (
            λ (e : ecorrupt ≡ ok). absurd (cc),
            λ (nz, t, p). absurd (ground (arith, far, nz, t.0)),
          ))
          (λ near. (
            λ e.
                let (t, p) = check_blocks-Tiles links (b ∷ rest) _ _ 0 false u (omega arith) w e in
                (ground (arith, near), t, p),
            λ (nz, t, p). check_blocks-ok links (b ∷ rest) _ _ 0 false w t p,
          ))
