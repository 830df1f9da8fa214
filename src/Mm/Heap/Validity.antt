-- ===== src/Mm/Heap/Validity.antt =====
-- What holds of a heap of kernel/mm/heap.c between its operations.
use northstar_os.Base.{
  ℕ, ◌+◌, ◌-◌, ◌*◌, ◌%◌, ◌^◌, ◌≤◌, ◌<◌, ◌≡◌, refl, sym, ◌≢◌, false, List, [], ◌∷◌, ◌++◌, arith,
  if_intro, ltb,
}
use Prim.Native.Nat.{bit_xor}
use mathlib.Core.Path.{subst}
use northstar_os.Mm.Heap.{
  Block, Tag, Heap, page_size, header_size, tag_size, put_tag, allocated, wanted_pages, growth_of,
  no_growth, grown, extend,
}
use northstar_os.Mm.Heap.Tiling.{Tiles}
use northstar_os.Mm.Heap.Live.{live, Ordered, Tiles-Ordered}
use northstar_os.Mm.Heap.Search.{Placed}
use northstar_os.Mm.Heap.Growth.{extend-Tiles, live-extend}

-- Each allocation has its tag, which leads from the pointer to the block.
abbrev pub Tagged : (ℕ → Tag) → ℕ → List (ℕ × ℕ × ℕ) → Type 0
Tagged tags cookie [] = Unit {0}
Tagged tags cookie ((address, pointer, size) ∷ rest) =
    (address + header_size + tag_size ≤ pointer)
    × (tags pointer ≡ record {
      cookie = bit_xor (bit_xor cookie address) pointer;
      block = address;
      requested = size;
    })
    × Tagged tags cookie rest

-- A valid heap.
pub record Valid (h : Heap) : Type 0 where
  pub tiles : Tiles h.arena_base (h.arena_base + h.committed_size) false h.blocks
  pub tagged : Tagged h.tags h.cookie (live h.blocks)
  pub somewhere : h.arena_base ≢ 0
  pub base_page : h.arena_base % page_size ≡ 0
  pub width : h.arena_base + h.arena_size < 2 ^ 64
  pub within : h.committed_size ≤ h.arena_size
  pub arena_pages : h.arena_size % page_size ≡ 0
  pub committed_pages : h.committed_size % page_size ≡ 0
  pub started : h.committed_size ≢ 0
  pub running : h.initialized ≢ 0

-- A tag elsewhere changes none of these.
Tagged-put_tag :
    (tags : ℕ → Tag) (cookie p at stop : ℕ) (t : Tag) (rs : List (ℕ × ℕ × ℕ))
    → Tagged tags cookie rs
    → Ordered at stop rs
    → p < at
    → Tagged (put_tag tags p t) cookie rs
Tagged-put_tag tags cookie p at stop t [] g o l = tt
Tagged-put_tag tags cookie p at stop t ((a, q, n) ∷ rs) (b, e, g) (f, m, z, o) l =
    (b, ground (arith, e), Tagged-put_tag tags cookie p (q + n) stop t rs g o (omega arith))

-- What is below an allocation's predecessors is below it.
pub Ordered-below :
    (at stop a p n q : ℕ) (front back : List (ℕ × ℕ × ℕ))
    → Ordered at stop (front ++ ((a, p, n) ∷ back))
    → q < at
    → q < p
Ordered-below at stop a p n q [] back o l = omega arith
Ordered-below at stop a p n q ((c, r, k) ∷ front) back (f, m, z, o) l =
    Ordered-below (r + k) stop a p n q front back o (omega arith)

-- Those of an allocation more.
put_tag-Tagged :
    (tags : ℕ → Tag) (cookie a p n at stop : ℕ) (front back : List (ℕ × ℕ × ℕ))
    → Tagged tags cookie (front ++ back)
    → Ordered at stop (front ++ ((a, p, n) ∷ back))
    → a + header_size + tag_size ≤ p
    → Tagged
        (put_tag tags p
          (record { cookie = bit_xor (bit_xor cookie a) p; block = a; requested = n }))
        cookie
        (front ++ ((a, p, n) ∷ back))
put_tag-Tagged tags cookie a p n at stop [] back g (f, m, z, o) b =
    (b, ground arith, Tagged-put_tag tags cookie p (p + n) stop _ back g o (omega arith))
put_tag-Tagged tags cookie a p n at stop ((c, q, k) ∷ front) back (b', e, g) (f, m, z, o) b =
    let below : q < p = Ordered-below (q + k) stop a p n q front back o (omega arith) in
    (b', ground (arith, e, below), put_tag-Tagged tags cookie a p n (q + k) stop front back g o b)

-- Those of an allocation less.
pub Tagged-less :
    (tags : ℕ → Tag) (cookie at stop a p n : ℕ) (t : Tag) (front back : List (ℕ × ℕ × ℕ))
    → Tagged tags cookie (front ++ ((a, p, n) ∷ back))
    → Ordered at stop (front ++ ((a, p, n) ∷ back))
    → Tagged (put_tag tags p t) cookie (front ++ back)
Tagged-less tags cookie at stop a p n t [] back (b, e, g) (f, m, z, o) =
    Tagged-put_tag tags cookie p (p + n) stop t back g o (omega arith)
Tagged-less tags cookie at stop a p n t ((c, q, k) ∷ front) back (b, e, g) (f, m, z, o) =
    let below : q < p = Ordered-below (q + k) stop a p n q front back o (omega arith) in
    (b, ground (arith, e, below), Tagged-less tags cookie (q + k) stop a p n t front back g o)

-- How much the heap grows by.
pub record Growing (h : Heap) (minimum growth : ℕ) : Type 0 where
  pub pages : growth % page_size ≡ 0
  pub enough : minimum ≤ growth
  pub fits : h.committed_size + growth ≤ h.arena_size
  pub some_pages : growth ≢ 0

pub growth_of-Growing :
    (h : Heap) (minimum : ℕ)
    → h.committed_size ≤ h.arena_size
    → h.arena_size % page_size ≡ 0
    → h.committed_size % page_size ≡ 0
    → no_growth h minimum ≡ false
    → Growing h minimum (growth_of h minimum)
growth_of-Growing h minimum w a c e = record {
  pages =
      if_intro (λ g. g % page_size ≡ 0)
        (ltb (h.arena_size - h.committed_size) (wanted_pages h minimum * page_size)) _ _
        (λ _. omega arith) (λ _. omega arith);
  enough = ground (arith, e);
  fits =
      if_intro (λ g. h.committed_size + g ≤ h.arena_size)
        (ltb (h.arena_size - h.committed_size) (wanted_pages h minimum * page_size)) _ _
        (λ _. omega arith) (λ f. ground (arith, f));
  some_pages = λ z. ground (arith, e, z);
}

-- The heap stays valid when it grows.
pub grown-Valid :
    (h : Heap) (minimum growth : ℕ) → Valid h → Growing h minimum growth → Valid (grown h growth)
grown-Valid h minimum growth v g = record {
  tiles =
      subst
        (λ stop.
          Tiles h.arena_base stop false (extend (h.arena_base + h.committed_size) growth h.blocks))
        (omega arith)
        (extend-Tiles h.blocks _ _ growth false (omega (arith, g.pages, g.some_pages))
          (omega (arith, g.pages)) (λ _. refl) v.tiles);
  tagged = subst (Tagged h.tags h.cookie) (sym (live-extend h.blocks _ growth)) v.tagged;
  somewhere = v.somewhere;
  base_page = v.base_page;
  width = v.width;
  within = g.fits;
  arena_pages = v.arena_pages;
  committed_pages = omega (arith, g.pages, v.committed_pages);
  started = omega (arith, v.started);
  running = v.running;
}

-- And when the search has placed an allocation.
pub allocated-Valid :
    (h : Heap) (size alignment pointer address : ℕ) (after : List Block)
    → Valid h
    → Placed size alignment h.arena_base
        (h.arena_base + h.committed_size)
        false
        h.blocks
        pointer
        address
        after
    → Valid (allocated h size pointer address after)
allocated-Valid h size alignment pointer address after v p = record {
  tiles = p.tiles;
  tagged =
      let i = p.inserted in
      subst (Tagged _ h.cookie) (sym i.is) (
        put_tag-Tagged h.tags h.cookie address pointer size h.arena_base
          (h.arena_base + h.committed_size) i.front i.back
          (subst (Tagged h.tags h.cookie) i.was v.tagged)
          (subst (Ordered h.arena_base (h.arena_base + h.committed_size)) i.is
            (Tiles-Ordered after _ _ _ p.tiles))
          p.behind_tag);
  somewhere = v.somewhere;
  base_page = v.base_page;
  width = v.width;
  within = v.within;
  arena_pages = v.arena_pages;
  committed_pages = v.committed_pages;
  started = v.started;
  running = v.running;
}
