-- ===== src/Mm/Heap/Statistics.antt =====
-- `ns_kheap_get_stats` (kernel/mm/heap.c).
use northstar_os.Base.{
  ℕ, ◌+◌, ◌^◌, ◌≤◌, ◌<◌, ◌≡◌, refl, Bool, true, false, List, [], ◌∷◌, arith, if◌then◌else◌,
  if_intro, ltb, ◌==◌, length,
}
use northstar_os.Base.Words.{add64}
use northstar_os.Mm.Heap.{Block, Heap}
use northstar_os.Mm.Heap.Tiling.{Sound, Tiles, Tiles-le}
use northstar_os.Mm.Heap.Live.{live, live-free, live-held}
use northstar_os.Mm.Heap.Validity.{Valid}

-- `ns_kheap_stats`
pub record HeapStats : Type 0 where
  pub arena_size : ℕ
  pub committed_size : ℕ
  pub requested_bytes : ℕ
  pub free_span_bytes : ℕ
  pub largest_free_span : ℕ
  pub live_allocations : ℕ
  pub free_blocks : ℕ

-- A round of the loop, on a free block and on a live one.
abbrev pub count_free : HeapStats → Block → HeapStats
count_free s b = record s {
  free_span_bytes = add64 s.free_span_bytes b.span;
  free_blocks = add64 s.free_blocks 1;
  largest_free_span = if ltb s.largest_free_span b.span then b.span else s.largest_free_span;
}

abbrev pub count_live : HeapStats → Block → HeapStats
count_live s b = record s {
  requested_bytes = add64 s.requested_bytes b.requested;
  live_allocations = add64 s.live_allocations 1;
}

unfoldable pub count_blocks : HeapStats → List Block → HeapStats
count_blocks s [] = s
count_blocks s (b ∷ rest) = count_blocks (if b.free then count_free s b else count_live s b) rest

unfoldable pub get_stats : Heap → HeapStats → HeapStats
get_stats h out =
    if h.initialized == 0
    then out
    else count_blocks
        (record {
          arena_size = h.arena_size;
          committed_size = h.committed_size;
          requested_bytes = 0;
          free_span_bytes = 0;
          largest_free_span = 0;
          live_allocations = 0;
          free_blocks = 0;
        })
        h.blocks

-- The bytes that the clients asked for.
unfoldable pub total_size : List (ℕ × ℕ × ℕ) → ℕ
total_size [] = 0
total_size ((address, pointer, size) ∷ rest) = size + total_size rest

-- The spans of the free blocks, their sum and the largest.
pub free_spans : List Block → List ℕ
free_spans [] = []
free_spans (b ∷ rest) = if b.free then b.span ∷ free_spans rest else free_spans rest

pub sum_of : List ℕ → ℕ
sum_of [] = 0
sum_of (n ∷ rest) = n + sum_of rest

abbrev larger_of : ℕ → ℕ → ℕ
larger_of m n = if ltb m n then n else m

pub largest_of : List ℕ → ℕ
largest_of [] = 0
largest_of (n ∷ rest) = larger_of n (largest_of rest)

free_spans-free :
    (b : Block) (rest : List Block)
    → b.free ≡ true
    → free_spans (b ∷ rest) ≡ b.span ∷ free_spans rest
unfolding free_spans
free_spans-free b rest e = rw e refl

free_spans-held :
    (b : Block) (rest : List Block) → b.free ≡ false → free_spans (b ∷ rest) ≡ free_spans rest
unfolding free_spans
free_spans-held b rest e = rw e refl

-- What the loop has counted, from `s` on, over blocks between two addresses.
record Counted (s r : HeapStats) (at stop : ℕ) (bs : List Block) : Type 0 where
  requested : r.requested_bytes ≡ s.requested_bytes + total_size (live bs)
  allocations : r.live_allocations ≡ s.live_allocations + length (live bs)
  shares : r.requested_bytes + r.free_span_bytes + at ≤ s.requested_bytes + s.free_span_bytes + stop
  largest : s.largest_free_span ≤ s.free_span_bytes → r.largest_free_span ≤ r.free_span_bytes
  free_bytes : r.free_span_bytes ≡ s.free_span_bytes + sum_of (free_spans bs)
  frees : r.free_blocks ≡ s.free_blocks + length (free_spans bs)
  maximum : r.largest_free_span ≡ larger_of s.largest_free_span (largest_of (free_spans bs))
  arena : (r.arena_size ≡ s.arena_size) × (r.committed_size ≡ s.committed_size)

module _ (s : HeapStats) (b : Block) (rest : List Block) (at stop : ℕ) (w : at + b.span < 2 ^ 64)
    (k : Sound b) (a : b.address ≡ at) (room : s.requested_bytes + s.free_span_bytes ≤ at)
    (few : s.live_allocations ≤ at) (scarce : s.free_blocks ≤ at) where
  free-Counted :
      (r : HeapStats)
      → b.free ≡ true
      → Counted (count_free s b) r (at + b.span) stop rest
      → Counted s r at stop (b ∷ rest)
  unfolding live total_size sum_of largest_of
  free-Counted r open_ c =
      let e : live (b ∷ rest) ≡ live rest = live-free b rest open_ in
      let x = free_spans-free b rest open_ in
      record {
        requested = rw e c.requested;
        allocations = rw e c.allocations;
        shares = omega (arith, c.shares);
        largest = λ l. c.largest (
            if_intro (λ n. n ≤ add64 s.free_span_bytes b.span) (ltb s.largest_free_span b.span) _ _
              (λ _. omega arith) (λ _. omega arith));
        free_bytes = rw x (omega (arith, c.free_bytes));
        frees = rw x (omega (arith, c.frees));
        maximum = rw x (ground (arith, c.maximum));
        arena = c.arena;
      }

  held-Counted :
      (r : HeapStats)
      → b.free ≡ false
      → Counted (count_live s b) r (at + b.span) stop rest
      → Counted s r at stop (b ∷ rest)
  unfolding live total_size
  held-Counted r held c =
      let (nz, lo, hi) = k.full held in
      let e = live-held b rest held in
      let x = free_spans-held b rest held in
      record {
        requested = rw e (omega (arith, c.requested));
        allocations = rw e (omega (arith, c.allocations));
        shares = omega (arith, c.shares);
        largest = c.largest;
        free_bytes = rw x c.free_bytes;
        frees = rw x c.frees;
        maximum = rw x c.maximum;
        arena = c.arena;
      }

count_blocks-Counted :
    (bs : List Block) (s : HeapStats) (at stop : ℕ) (before : Bool)
    → Tiles at stop before bs
    → stop < 2 ^ 64
    → s.requested_bytes + s.free_span_bytes ≤ at
    → s.live_allocations ≤ at
    → s.free_blocks ≤ at
    → Counted s (count_blocks s bs) at stop bs
unfolding count_blocks live total_size free_spans sum_of largest_of
count_blocks-Counted [] s at stop before t w a b c = record {
  requested = omega arith;
  allocations = omega arith;
  shares = omega (arith, t);
  largest = λ l. l;
  free_bytes = omega arith;
  frees = omega arith;
  maximum = ground arith;
  arena = (refl, refl);
}
count_blocks-Counted (b ∷ rest) s at stop before (a, k, n, t) w room few scarce =
    let inside : at + b.span ≤ stop = Tiles-le rest _ stop _ t in
    if_intro (λ s'. Counted s (count_blocks s' rest) at stop (b ∷ rest)) b.free _ _
      (λ open_. free-Counted s b rest at stop (omega arith) k a room few scarce _ open_ (
        count_blocks-Counted rest (count_free s b) (at + b.span) stop b.free t w (omega arith)
          (omega arith) (omega (arith, k.holds_header))))
      (λ held.
        let (nz, lo, hi) = k.full held in
        held-Counted s b rest at stop (omega arith) k a room few scarce _ held (
          count_blocks-Counted rest (count_live s b) (at + b.span) stop b.free t w (omega arith)
            (omega (arith, k.holds_header)) (omega arith)))

-- Statistics that are exact.
pub record ExactStats (h : Heap) (r : HeapStats) : Type 0 where
  pub arena : r.arena_size ≡ h.arena_size
  pub committed : r.committed_size ≡ h.committed_size
  pub allocations : r.live_allocations ≡ length (live h.blocks)
  pub requested : r.requested_bytes ≡ total_size (live h.blocks)
  pub frees : r.free_blocks ≡ length (free_spans h.blocks)
  pub free_bytes : r.free_span_bytes ≡ sum_of (free_spans h.blocks)
  pub largest : r.largest_free_span ≡ largest_of (free_spans h.blocks)
  pub shares : r.requested_bytes + r.free_span_bytes ≤ h.committed_size
  pub part : r.largest_free_span ≤ r.free_span_bytes

-- The statistics of a valid heap are exact: the sizes of its arena and of the committed part, the number of
-- its allocations and the bytes asked for, and the number, the sum of the spans and the largest span of its
-- free blocks, 0 if there is none; the bytes asked for and the free spans share the committed bytes.
pub get_stats-exact : (h : Heap) (out : HeapStats) → Valid h → ExactStats h (get_stats h out)
unfolding get_stats
get_stats-exact h out v =
    if_intro (ExactStats h) (h.initialized == 0) _ _
      (λ off. absurd (v.running (ground (arith, off))))
      (λ _.
        let c =
          count_blocks-Counted h.blocks _ h.arena_base (h.arena_base + h.committed_size) false
            v.tiles (omega (arith, v.width, v.within)) (omega arith) (omega arith) (omega arith) in
        record {
          arena = c.arena.0;
          committed = c.arena.1;
          allocations = omega (arith, c.allocations);
          requested = omega (arith, c.requested);
          frees = omega (arith, c.frees);
          free_bytes = omega (arith, c.free_bytes);
          largest = ground (arith, c.maximum);
          shares = omega (arith, c.shares);
          part = c.largest (omega arith);
        })
