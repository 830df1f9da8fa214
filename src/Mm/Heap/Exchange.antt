-- ===== src/Mm/Heap/Exchange.antt =====
-- Lemmas on the allocations and tags of kernel/mm/heap.c, for `ns_kheap_realloc`.
use northstar_os.Base.{
  ℕ, ◌+◌, ◌≤◌, ◌<◌, ◌≡◌, refl, sym, ap, ◌≢◌, false, List, [], ◌∷◌, ◌++◌, arith, Bool-cases, inl,
  inr, ◌==◌,
}
use mathlib.Core.Path.{subst}
use northstar_os.Mm.Heap.{ok, Block, Tag, Heap, header_size, tag_size, put_tag, tag_for}
use northstar_os.Mm.Heap.Live.{live, Ordered, Tiles-Ordered}
use northstar_os.Mm.Heap.Tiling.{Tiles}
use northstar_os.Mm.Heap.Search.{Inserted}
use northstar_os.Mm.Heap.Validity.{Tagged, Valid, Tagged-less, Ordered-below}
use northstar_os.Mm.Heap.Pointers.{Holds}
use northstar_os.Mm.Heap.Freeing.{without}
use northstar_os.Mm.Heap.Resizing.{Swapped}

-- An allocation more, with its tag in place.
Tagged-more :
    (tags : ℕ → Tag) (cookie a p n : ℕ) (front back : List (ℕ × ℕ × ℕ))
    → Tagged tags cookie (front ++ back)
    → Tagged tags cookie ((a, p, n) ∷ [])
    → Tagged tags cookie (front ++ ((a, p, n) ∷ back))
Tagged-more tags cookie a p n [] back g (b, e, _) = (b, e, g)
Tagged-more tags cookie a p n ((c, q, k) ∷ front) back (b, e, g) t =
    (b, e, Tagged-more tags cookie a p n front back g t)

Tagged-one :
    (tags : ℕ → Tag) (cookie a p n : ℕ) (front back : List (ℕ × ℕ × ℕ))
    → Tagged tags cookie (front ++ ((a, p, n) ∷ back))
    → a + header_size + tag_size ≤ p
Tagged-one tags cookie a p n [] back (b, e, g) = b
Tagged-one tags cookie a p n ((c, q, k) ∷ front) back (b, e, g) =
    Tagged-one tags cookie a p n front back g

-- A valid heap whose blocks change and whose allocations do not is valid.
pub same_live-Valid :
    (h : Heap) (bs : List Block)
    → Valid h
    → Tiles h.arena_base (h.arena_base + h.committed_size) false bs
    → live bs ≡ live h.blocks
    → Valid (record h { blocks = bs })
same_live-Valid h bs v t e = record {
  tiles = t;
  tagged = subst (Tagged h.tags h.cookie) (sym e) v.tagged;
  somewhere = v.somewhere;
  base_page = v.base_page;
  width = v.width;
  within = v.within;
  arena_pages = v.arena_pages;
  committed_pages = v.committed_pages;
  started = v.started;
  running = v.running;
}

-- The heap whose allocation has a new size.
unfoldable pub resized_heap : Heap → ℕ → ℕ → ℕ → List Block → Heap
resized_heap h address pointer size bs = record h {
  blocks = bs;
  tags = put_tag h.tags pointer (tag_for h address pointer size);
  last_error = ok;
}

pub resized-Valid :
    (h : Heap) (a p old size : ℕ) (bs : List Block)
    → Valid h
    → Tiles h.arena_base (h.arena_base + h.committed_size) false bs
    → Swapped (a, p, old) (a, p, size) (live h.blocks) (live bs)
    → Valid (resized_heap h a p size bs)
unfolding resized_heap
resized-Valid h a p old size bs v t s = record {
  tiles = t;
  tagged = subst (Tagged _ h.cookie) (sym s.is) (
      Tagged-more _ h.cookie a p size s.front s.back
        (Tagged-less h.tags h.cookie h.arena_base (h.arena_base + h.committed_size) a p old _
          s.front s.back before_
          (subst (Ordered h.arena_base (h.arena_base + h.committed_size)) s.was
            (Tiles-Ordered h.blocks _ _ false v.tiles)))
        (Tagged-one h.tags h.cookie a p old s.front s.back before_, ground arith, tt));
  somewhere = v.somewhere;
  base_page = v.base_page;
  width = v.width;
  within = v.within;
  arena_pages = v.arena_pages;
  committed_pages = v.committed_pages;
  started = v.started;
  running = v.running;
}
  where
    before_ : Tagged h.tags h.cookie (s.front ++ ((a, p, old) ∷ s.back))
    before_ = subst (Tagged h.tags h.cookie) s.was v.tagged

-- Allocations stand apart from a new one.
Holds-above : (p at stop : ℕ) (rs : List (ℕ × ℕ × ℕ)) → Ordered at stop rs → Holds p rs → at < p
Holds-above p at stop [] o m = absurd m
Holds-above p at stop ((a, q, n) ∷ rs) (f, b, z, o) (inl e) = omega arith
Holds-above p at stop ((a, q, n) ∷ rs) (f, b, z, o) (inr m) =
    let later = Holds-above p (q + n) stop rs o m in omega arith

pub Holds-apart :
    (p a q n at stop : ℕ) (front back : List (ℕ × ℕ × ℕ))
    → Ordered at stop (front ++ ((a, q, n) ∷ back))
    → Holds p (front ++ back)
    → q ≢ p
Holds-apart p a q n at stop [] back (f, b, z, o) m =
    let l = Holds-above p (q + n) stop back o m in omega arith
Holds-apart p a q n at stop ((c, r, k) ∷ front) back (f, b, z, o) (inl e) =
    let l = Ordered-below (r + k) stop a q n r front back o (omega arith) in omega arith
Holds-apart p a q n at stop ((c, r, k) ∷ front) back (f, b, z, o) (inr m) =
    Holds-apart p a q n (r + k) stop front back o m

-- Taking another allocation away keeps a new one.
pub without-Inserted :
    (p a q n : ℕ) (front back : List (ℕ × ℕ × ℕ))
    → q ≢ p
    → Inserted (a, q, n) (without p (front ++ back)) (without p (front ++ ((a, q, n) ∷ back)))
unfolding without
without-Inserted p a q n [] back ne = record {
  front = [];
  back = without p back;
  was = refl;
  is = ground (arith, ne);
}
without-Inserted p a q n ((c, r, k) ∷ front) back ne =
    let i = without-Inserted p a q n front back ne in
    elim (Bool-cases (r == p)) [
      | inl here ↦ record { front = front; back = back; was = rw here refl; is = rw here refl }
      | inr other ↦ record {
        front = (c, r, k) ∷ i.front;
        back = i.back;
        was = rw other (ap (λ l. (c, r, k) ∷ l) i.was);
        is = rw other (ap (λ l. (c, r, k) ∷ l) i.is);
      }
    ]
