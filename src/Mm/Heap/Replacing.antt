-- ===== src/Mm/Heap/Replacing.antt =====
-- `ns_kheap_realloc` (kernel/mm/heap.c): what it leaves of the heap, for a pointer of an allocation.
use northstar_os.Base.{
  ℕ, suc, ◌+◌, ◌^◌, ◌<◌, ◌≡◌, refl, sym, ◌≢◌, Bool, true, false, Option, none, some, List, [], ◌∷◌,
  ◌++◌, arith, if_intro, inl, inr, ◌==◌,
}
use mathlib.Core.Path.{subst, subst₂}
use northstar_os.Mm.Heap.{
  HeapStatus, einval, enomem, Block, Heap, PageOps, min_alignment, failed, Checked, refused, valid,
  validate_pointer,
}
use northstar_os.Mm.Heap.Operations.{free}
use northstar_os.Mm.Heap.Realloc.{Memory, resize, give_back, replace, moved_or_resized, realloc}
use northstar_os.Mm.Heap.Live.{live, Ordered, Tiles-Ordered}
use northstar_os.Mm.Heap.Search.{Inserted}
use northstar_os.Mm.Heap.Validity.{Valid}
use northstar_os.Mm.Heap.Allocation.{Served, AlignedCases, alloc_aligned-AlignedCases}
use northstar_os.Mm.Heap.Pointers.{Holds, valid-Accepted}
use northstar_os.Mm.Heap.Freeing.{
  FreeCases, nothing, freed_it, refused_it, free-FreeCases, without, Inserted-without,
}
use northstar_os.Mm.Heap.Resizing.{Swapped, Resized, resize-Resized}
use northstar_os.Mm.Heap.Exchange.{
  same_live-Valid, resized_heap, resized-Valid, Holds-apart, without-Inserted,
}

failed-Valid : (h : Heap) (error : HeapStatus) → Valid h → Valid (failed h error)
failed-Valid h error v = record {
  tiles = v.tiles;
  tagged = v.tagged;
  somewhere = v.somewhere;
  base_page = v.base_page;
  width = v.width;
  within = v.within;
  arena_pages = v.arena_pages;
  committed_pages = v.committed_pages;
  started = v.started;
  running = v.running;
}

-- The allocation at `p` has given way to one of `size` bytes at `q`.
pub record Exchanged (p q size : ℕ) (h after : Heap) : Type 0 where
  pub valid : Valid after
  pub others : List (ℕ × ℕ × ℕ)
  pub address : ℕ
  pub old : ℕ
  pub was : Inserted (address, p, old) others (live h.blocks)
  pub new_address : ℕ
  pub is : Inserted (new_address, q, size) others (live after.blocks)

abbrev pub ReallocCases : {S : Type 0} → Heap → ℕ → ℕ → Option (Option ℕ × Heap × S) → Type 0
ReallocCases h p size none = ⊥
ReallocCases h p size (some (some q, after, s)) = Exchanged p q size h after
ReallocCases h p size (some (none, after, s)) = Valid after × (live after.blocks ≡ live h.blocks)

ordered :
    (h : Heap) → Valid h → Ordered h.arena_base (h.arena_base + h.committed_size) (live h.blocks)
ordered h v = Tiles-Ordered h.blocks _ _ false v.tiles

-- What an accepted pointer is taken from.
taken_from :
    (h : Heap) (p : ℕ)
    → Valid h
    → p ≢ 0
    → Holds p (live h.blocks)
    → (a n : ℕ) × Inserted (a, p, n) (without p (live h.blocks)) (live h.blocks)
taken_from h p v nz m = split (free h p) (free-FreeCases h p v)
  where
    split :
        (r : HeapStatus × Heap)
        → FreeCases h p r
        → (a n : ℕ) × Inserted (a, p, n) (without p (live h.blocks)) (live h.blocks)
    split _ (nothing z) = absurd (nz z)
    split _ (freed_it after f) = (
      f.address,
      f.size,
      subst (λ xs. Inserted (f.address, p, f.size) xs (live h.blocks))
          (Inserted-without p f.address f.size _ _ _ _ (ordered h v) f.removed) f.removed,
    )
    split _ (refused_it error n absent) = absurd (absent m)

module _ {S : Type 0} (h : Heap) (p size : ℕ) (v : Valid h) (nz : p ≢ 0)
    (m : Holds p (live h.blocks)) where
  -- After the new allocation, the old one goes.
  give_back-ReallocCases :
      (middle after : Heap) (q alignment : ℕ) (s : S)
      → live middle.blocks ≡ live h.blocks
      → Served size alignment q middle after
      → ReallocCases h p size (give_back p q s (free after p))
  give_back-ReallocCases middle after q alignment s e r =
      split (free after p) (free-FreeCases after p r.valid)
    where
      i : Inserted (r.address, q, size) (live h.blocks) (live after.blocks)
      i = subst (λ xs. Inserted (r.address, q, size) xs (live after.blocks)) e r.inserted

      o :
          Ordered after.arena_base
            (after.arena_base + after.committed_size)
            (i.front ++ ((r.address, q, size) ∷ i.back))
      o = subst (Ordered _ _) i.is (ordered after r.valid)

      apart : q ≢ p
      apart = Holds-apart p r.address q size _ _ i.front i.back o (subst (Holds p) i.was m)

      still :
          (front back : List (ℕ × ℕ × ℕ))
          → Holds p (front ++ back)
          → Holds p (front ++ ((r.address, q, size) ∷ back))
      still [] back k = inr k
      still (c ∷ front) back (inl x) = inl x
      still (c ∷ front) back (inr k) = inr (still front back k)

      left :
          Inserted (r.address, q, size) (without p (live h.blocks)) (without p (live after.blocks))
      left =
          subst₂ (λ xs ys. Inserted (r.address, q, size) (without p xs) (without p ys)) (sym i.was)
            (sym i.is) (without-Inserted p r.address q size i.front i.back apart)

      split :
          (r' : HeapStatus × Heap)
          → FreeCases after p r'
          → ReallocCases h p size (give_back p q s r')
      split _ (nothing z) = absurd (nz z)
      split _ (refused_it error n absent) =
          absurd
            (absent (subst (Holds p) (sym i.is) (still i.front i.back (subst (Holds p) i.was m))))
      split _ (freed_it last f) =
          let (a, n, was) = taken_from h p v nz m in
          record {
            valid = f.valid;
            others = without p (live h.blocks);
            address = a;
            old = n;
            was = was;
            new_address = r.address;
            is =
                subst (Inserted (r.address, q, size) (without p (live h.blocks)))
                  (sym
                    (Inserted-without p f.address f.size _ _ _ _ (ordered after r.valid) f.removed))
                  left;
          }

  replace-ReallocCases :
      (memory : Memory S) (old_size : ℕ) (middle : Heap) (alignment : ℕ)
      (o : Option (Option ℕ × Heap × S))
      → Valid middle
      → live middle.blocks ≡ live h.blocks
      → AlignedCases size alignment middle o
      → ReallocCases h p size (replace memory p old_size size o)
  replace-ReallocCases memory old_size middle alignment none w e c = c
  replace-ReallocCases memory old_size middle alignment (some (some q, after, s)) w e c =
      give_back-ReallocCases middle after q alignment _ e c
  replace-ReallocCases memory old_size middle alignment (some (none, after, s)) w e (inl c) =
      subst (λ (x : Heap). Valid x × (live x.blocks ≡ live h.blocks)) (sym c)
        (failed-Valid middle einval w, e)
  replace-ReallocCases memory old_size middle alignment (some (none, after, s)) w e (inr c) =
      subst (λ (x : Heap). Valid x × (live x.blocks ≡ live h.blocks)) (sym c)
        (failed-Valid middle enomem w, e)

module _ {S : Type 0} where
  -- On a valid heap, for the pointer of an allocation and a size that is not zero, the call returns. With a
  -- pointer, the allocation has been exchanged for one of the new size at that pointer, and the others are
  -- as they were; with none, all allocations are as they were. The heap is valid in both cases.
  pub realloc-ReallocCases :
      (ops : PageOps S) (memory : Memory S) (k : ℕ) (h : Heap) (p size : ℕ) (s : S)
      → Valid h
      → p ≢ 0
      → Holds p (live h.blocks)
      → size ≢ 0
      → size < 2 ^ 64
      → ReallocCases h p size (realloc ops memory (suc (suc k)) h p size s)
  unfolding realloc resized_heap
  realloc-ReallocCases ops memory k h p size s v nz m sz w =
      if_intro (ReallocCases h p size) (p == 0) _ _ (λ null. absurd (nz (ground (arith, null))))
        (λ _.
          if_intro (ReallocCases h p size) (size == 0) _ _
            (λ none_wanted. absurd (sz (ground (arith, none_wanted))))
            (λ _.
              if_intro (ReallocCases h p size) (h.initialized == 0) _ _
                (λ off. absurd (v.running (ground (arith, off))))
                (λ _. checked (validate_pointer h p) refl)))
    where
      stop_small : h.arena_base + h.committed_size < 2 ^ 64
      stop_small = omega (arith, v.width, v.within)

      outcome :
          (b : Block) (r : Bool × List Block)
          → b.user_pointer ≡ p
          → Resized b.address b.user_pointer b.requested size h.arena_base
              (h.arena_base + h.committed_size)
              false
              h.blocks
              r
          → ReallocCases h p size (moved_or_resized ops memory (suc (suc k)) h p size s b r)
      outcome b (true, bs) e r =
          let q =
            subst
              (λ x.
                Swapped (b.address, x, b.requested) (b.address, x, size) (live h.blocks) (live bs))
              e (r.swapped refl) in
          record {
            valid = resized-Valid h b.address p b.requested size bs v r.tiles q;
            others = q.front ++ q.back;
            address = b.address;
            old = b.requested;
            was = record { front = q.front; back = q.back; was = refl; is = q.was };
            new_address = b.address;
            is = record { front = q.front; back = q.back; was = refl; is = q.is };
          }
      outcome b (false, bs) e r =
          let middle = record h { blocks = bs } in
          let w' : Valid middle = same_live-Valid h bs v r.tiles (r.kept refl) in
          replace-ReallocCases h p size v nz m memory b.requested middle min_alignment _ w'
            (r.kept refl)
            (alloc_aligned-AlignedCases ops k middle size min_alignment s w' w (omega arith))

      checked :
          (c : Checked)
          → validate_pointer h p ≡ c
          → ReallocCases h p size (elim c [
            | refused error ↦ some (none, failed h error, s)
            | valid b ↦
                moved_or_resized ops memory
                  (suc (suc k))
                  h
                  p
                  size
                  s
                  b
                  (resize b.address size p h.blocks)
          ])
      checked (refused error) e = (failed-Valid h error v, refl)
      checked (valid b) e =
          let a = valid-Accepted h p b e in
          outcome b _ a.points (
            subst
              (λ x.
                Resized b.address b.user_pointer b.requested size h.arena_base
                  (h.arena_base + h.committed_size) false h.blocks
                  (resize b.address size x h.blocks))
              a.points
              (resize-Resized size (h.arena_base + h.committed_size) sz stop_small w h.blocks b
                h.arena_base false v.tiles a.found a.held))
