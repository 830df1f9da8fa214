-- ===== src/Mm/Heap/Freeing.antt =====
-- `ns_kheap_free` (kernel/mm/heap.c): what it does for a pointer of an allocation, and for any other.
use northstar_os.Base.{
  ℕ, suc, ◌+◌, ◌^◌, ◌<◌, ◌≡◌, refl, sym, ap, ◌∙◌, ◌≢◌, false, some, List, [], ◌∷◌, ◌++◌, arith,
  if◌then◌else◌, if_intro, inl, inr, ◌==◌,
}
use mathlib.Core.Path.{subst}
use northstar_os.Mm.Heap.{
  HeapStatus, ok, Block, Heap, PageOps, failed, put_tag, Checked, refused, valid, validate_pointer,
  release,
}
use northstar_os.Mm.Heap.Operations.{free, alloc_aligned, effective}
use northstar_os.Mm.Heap.Live.{live, Ordered, Tiles-Ordered}
use northstar_os.Mm.Heap.Search.{Inserted}
use northstar_os.Mm.Heap.Release.{release-Tiles, release-Inserted}
use northstar_os.Mm.Heap.Validity.{Tagged, Valid, Tagged-less, Ordered-below}
use northstar_os.Mm.Heap.Allocation.{Served, AlignedCases, alloc_aligned-AlignedCases}
use northstar_os.Mm.Heap.Pointers.{Holds, accepts, Accepted, valid-Accepted, refused-error}

-- The heap has one allocation less.
pub record Freed (p : ℕ) (h after : Heap) : Type 0 where
  pub valid : Valid after
  pub address : ℕ
  pub size : ℕ
  pub removed : Inserted (address, p, size) (live after.blocks) (live h.blocks)
  pub reported : after.last_error ≡ ok

-- A status and the heap after it.
pub data FreeCases (h : Heap) (p : ℕ) : HeapStatus × Heap → Type 0 where
  nothing : p ≡ 0 → FreeCases h p (ok, h)
  freed_it : (after : Heap) → Freed p h after → FreeCases h p (ok, after)
  refused_it :
      (error : HeapStatus)
      → error ≢ ok
      → (Holds p (live h.blocks) → ⊥)
      → FreeCases h p (error, failed h error)

-- The heap after the block of an accepted pointer has been released.
released : Heap → ℕ → Block → Heap
released h p b = record h {
  blocks = release b.address h.blocks;
  tags = put_tag h.tags p (record (h.tags p) { cookie = 0 });
  last_error = ok;
}

Accepted-Freed :
    (h : Heap) (p : ℕ) (b : Block) → Valid h → Accepted h p b → Freed p h (released h p b)
unfolding released
Accepted-Freed h p b v a =
    let gone : Inserted (b.address, p, b.requested) (live (release b.address h.blocks))
        (live h.blocks) =
      subst
        (λ q.
          Inserted (b.address, q, b.requested) (live (release b.address h.blocks)) (live h.blocks))
        a.points (release-Inserted b.address h.blocks b a.found a.held) in
    record {
      valid = record {
        tiles = (release-Tiles b.address h.blocks _ _ false v.tiles).0;
        tagged = subst (Tagged _ h.cookie) (sym gone.was) (
            Tagged-less h.tags h.cookie h.arena_base (h.arena_base + h.committed_size) b.address p
              b.requested _ gone.front gone.back (subst (Tagged h.tags h.cookie) gone.is v.tagged)
              (subst (Ordered h.arena_base (h.arena_base + h.committed_size)) gone.is
                (Tiles-Ordered h.blocks _ _ false v.tiles)));
        somewhere = v.somewhere;
        base_page = v.base_page;
        width = v.width;
        within = v.within;
        arena_pages = v.arena_pages;
        committed_pages = v.committed_pages;
        started = v.started;
        running = v.running;
      };
      address = b.address;
      size = b.requested;
      removed = gone;
      reported = refl;
    }

-- On a valid heap the call frees exactly the pointers of allocations. For such a pointer it answers OK,
-- the other allocations stay as they are and the heap is valid again; for a null pointer it does nothing
-- and answers OK; for any other, one that has been freed before among them, it answers an error, which
-- is the only change of the heap.
pub free-FreeCases : (h : Heap) (p : ℕ) → Valid h → FreeCases h p (free h p)
unfolding free released
free-FreeCases h p v =
    if_intro (FreeCases h p) (p == 0) _ _ (λ null. nothing (ground (arith, null)))
      (λ _.
        if_intro (FreeCases h p) (h.initialized == 0) _ _
          (λ off. absurd (v.running (ground (arith, off))))
          (λ _. checked (validate_pointer h p) refl))
  where
    checked :
        (c : Checked)
        → validate_pointer h p ≡ c
        → FreeCases h p
            (elim c [ refused error ↦ (error, failed h error) | valid b ↦ (ok, released h p b) ])
    checked (refused error) e =
        refused_it error (refused-error h p error e)
          (λ m. let (b, q) = accepts h p v m in let r : refused error ≡ valid b = sym e ∙ q in cc)
    checked (valid b) e = freed_it _ (Accepted-Freed h p b v (valid-Accepted h p b e))

-- The allocations without that of a pointer.
unfoldable pub without : ℕ → List (ℕ × ℕ × ℕ) → List (ℕ × ℕ × ℕ)
without p [] = []
without p ((a, q, n) ∷ rest) =
    let others = without p rest in if q == p then rest else (a, q, n) ∷ others

without-append :
    (a p n at stop : ℕ) (front back : List (ℕ × ℕ × ℕ))
    → Ordered at stop (front ++ ((a, p, n) ∷ back))
    → without p (front ++ ((a, p, n) ∷ back)) ≡ front ++ back
unfolding without
without-append a p n at stop [] back o = ground arith
without-append a p n at stop ((c, q, k) ∷ front) back (f, m, z, o) =
    let below : q < p = Ordered-below (q + k) stop a p n q front back o (omega arith) in
    ground (arith, below, without-append a p n (q + k) stop front back o)

-- Taking an allocation away leaves those that it was put among.
pub Inserted-without :
    (p a n at stop : ℕ) (xs ys : List (ℕ × ℕ × ℕ))
    → Ordered at stop ys
    → Inserted (a, p, n) xs ys
    → xs ≡ without p ys
Inserted-without p a n at stop xs ys o i =
    i.was
    ∙ sym (without-append a p n at stop i.front i.back (subst (Ordered at stop) i.is o))
    ∙ ap (without p) (sym i.is)

-- An allocation goes as it came.
Inserted-unique :
    (p a n a' n' at stop : ℕ) (xs ys zs : List (ℕ × ℕ × ℕ))
    → Ordered at stop zs
    → Inserted (a, p, n) xs zs
    → Inserted (a', p, n') ys zs
    → ys ≡ xs
Inserted-unique p a n a' n' at stop xs ys zs o i j =
    Inserted-without p a' n' at stop ys zs o j ∙ sym (Inserted-without p a n at stop xs zs o i)

pub Inserted-Holds : (a p n : ℕ) (xs ys : List (ℕ × ℕ × ℕ)) → Inserted (a, p, n) xs ys → Holds p ys
Inserted-Holds a p n xs ys i = subst (Holds p) (sym i.is) (in_append i.front)
  where
    in_append : (front : List (ℕ × ℕ × ℕ)) → Holds p (front ++ ((a, p, n) ∷ i.back))
    in_append [] = inl refl
    in_append (x ∷ front) = inr (in_append front)

free-Served :
    (size alignment p : ℕ) (h after : Heap)
    → Served size alignment p h after
    → ((free after p).0 ≡ ok)
      × (live (free after p).1.blocks ≡ live h.blocks)
      × Valid (free after p).1
free-Served size alignment p h after r = split (free after p) (free-FreeCases after p r.valid)
  where
    o : Ordered after.arena_base (after.arena_base + after.committed_size) (live after.blocks)
    o = Tiles-Ordered after.blocks _ _ false r.valid.tiles

    positive : p ≢ 0
    positive z = omega (arith, z, r.positive)

    split :
        (result : HeapStatus × Heap)
        → FreeCases after p result
        → (result.0 ≡ ok) × (live result.1.blocks ≡ live h.blocks) × Valid result.1
    split _ (nothing z) = absurd (positive z)
    split _ (freed_it last f) = (
      refl,
      Inserted-unique p r.address size f.address f.size _ _ _ _ _ o r.inserted f.removed,
      f.valid,
    )
    split _ (refused_it error n m) = absurd (m (Inserted-Holds r.address p size _ _ r.inserted))

-- What a valid heap has handed out can be freed: the call answers OK, the allocations are then those
-- from before, block addresses, pointers and sizes alike, and the heap is valid.
pub free-alloc_aligned :
    {S : Type 0} (ops : PageOps S) (k : ℕ) (h after : Heap) (size alignment p : ℕ) (s t : S)
    → Valid h
    → size < 2 ^ 64
    → alignment < 2 ^ 64
    → alloc_aligned ops (suc (suc k)) h size alignment s ≡ some (some p, after, t)
    → ((free after p).0 ≡ ok)
      × (live (free after p).1.blocks ≡ live h.blocks)
      × Valid (free after p).1
free-alloc_aligned ops k h after size alignment p s t v w l e =
    free-Served size (effective alignment) p h after (
      subst (AlignedCases size (effective alignment) h) e
        (alloc_aligned-AlignedCases ops k h size alignment s v w l))
