-- ===== src/Mm/Heap/Pointers.antt =====
-- `validate_pointer` (kernel/mm/heap.c): which pointers it accepts.
use northstar_os.Base.{
  ℕ, ◌+◌, ◌≤◌, ◌<◌, ◌≡◌, sym, ap, ◌≢◌, ◌⊎◌, Bool, false, some, List, [], ◌∷◌, arith, if_intro,
  option_intro, Bool-cases, inl, inr, ◌==◌,
}
use Prim.Native.Nat.{bit_xor}
use mathlib.Core.Path.{subst}
use northstar_os.Mm.Heap.{
  HeapStatus, ok, einval, ecorrupt, Block, Tag, Heap, block_magic, header_size, tag_size,
  allocation_cookie, refused, valid, find_block, check_block, out_of_range, names_no_block,
  validate_pointer,
}
use northstar_os.Mm.Heap.Tiling.{Tiles, Tiles-le}
use northstar_os.Mm.Heap.Live.{live, live-free, live-held}
use northstar_os.Mm.Heap.Validity.{Tagged, Valid}

-- The pointer is that of an allocation.
abbrev pub Holds : ℕ → List (ℕ × ℕ × ℕ) → Type 0
Holds p [] = ⊥
Holds p ((address, pointer, size) ∷ rest) = (pointer ≡ p) ⊎ Holds p rest

-- The block of such a pointer.
record Located (tags : ℕ → Tag) (cookie at stop p : ℕ) (bs : List Block) (b : Block) : Type 0 where
  found : find_block b.address bs ≡ some b
  held : b.free ≡ false
  points : b.user_pointer ≡ p
  marked : b.magic ≡ block_magic
  above : at ≤ b.address
  behind : b.address + header_size + tag_size ≤ p
  inside : p < stop
  tag : tags p ≡ record {
    cookie = bit_xor (bit_xor cookie b.address) p;
    block = b.address;
    requested = b.requested;
  }

module _ (tags : ℕ → Tag) (cookie stop p : ℕ) where
  Located-later :
      (b c : Block) (rest : List Block) (at : ℕ)
      → b.address ≡ at
      → 0 < b.span
      → Located tags cookie (at + b.span) stop p rest c
      → Located tags cookie at stop p (b ∷ rest) c
  unfolding find_block
  Located-later b c rest at a s l = record {
    found =
        let other : b.address ≢ c.address = omega (arith, l.above) in
        ground (arith, other, l.found);
    held = l.held;
    points = l.points;
    marked = l.marked;
    above = omega (arith, l.above);
    behind = l.behind;
    inside = l.inside;
    tag = l.tag;
  }

  locate :
      (bs : List Block) (at : ℕ) (before : Bool)
      → Tiles at stop before bs
      → Tagged tags cookie (live bs)
      → Holds p (live bs)
      → (b : Block) × Located tags cookie at stop p bs b
  unfolding live find_block
  locate [] at before t g m = absurd m
  locate (b ∷ rest) at before (a, s, n, t) g m = elim (Bool-cases b.free) [
    | inl open_ ↦
        let (c, l) =
          locate rest (at + b.span) b.free t (subst (Tagged tags cookie) (live-free b rest open_) g)
            (subst (Holds p) (live-free b rest open_) m) in
        (c, Located-later b c rest at a (omega (arith, s.holds_header)) l)
    | inr held ↦
        here held (subst (Tagged tags cookie) (live-held b rest held) g)
          (subst (Holds p) (live-held b rest held) m)
          (λ g' m'. locate rest (at + b.span) b.free t g' m')
  ]
    where
      here :
          b.free ≡ false
          → Tagged tags cookie ((b.address, b.user_pointer, b.requested) ∷ live rest)
          → (b.user_pointer ≡ p) ⊎ Holds p (live rest)
          → (Tagged tags cookie (live rest)
              → Holds p (live rest)
              → (c : Block) × Located tags cookie (at + b.span) stop p rest c)
          → (c : Block) × Located tags cookie at stop p (b ∷ rest) c
      here held (f, e, later) (inr in_rest) behind =
          let (c, l) = behind later in_rest in
          (c, Located-later b c rest at a (omega (arith, s.holds_header)) l)
      here held (f, e, later) (inl q) behind =
          let (nz, lo, hi) = s.full held in
          (
            b,
            record {
              found = ground arith;
              held = held;
              points = q;
              marked = s.marked;
              above = omega arith;
              behind = omega arith;
              inside = omega (arith, Tiles-le rest _ stop _ t);
              tag =
                  subst
                    (λ x. tags x ≡ record {
                      cookie = bit_xor (bit_xor cookie b.address) x;
                      block = b.address;
                      requested = b.requested;
                    })
                    q e;
            },
          )

-- A pointer of an allocation passes each test.
pub accepts :
    (h : Heap) (p : ℕ)
    → Valid h
    → Holds p (live h.blocks)
    → (b : Block) × (validate_pointer h p ≡ valid b)
unfolding validate_pointer
accepts h p v m =
    let (b, l) =
      locate h.tags h.cookie (h.arena_base + h.committed_size) p h.blocks h.arena_base false v.tiles
        v.tagged m in
    let block : (h.tags p).block ≡ b.address = ap (λ (t : Tag). t.block) l.tag in
    let requested : (h.tags p).requested ≡ b.requested = ap (λ (t : Tag). t.requested) l.tag in
    let cookie : (h.tags p).cookie ≡ allocation_cookie h b.address p =
      ap (λ (t : Tag). t.cookie) l.tag in
    let found : find_block (h.tags p).block h.blocks ≡ some b =
      subst (λ a. find_block a h.blocks ≡ some b) (sym block) l.found in
    (
      b,
      if_intro (λ r. r ≡ valid b) (out_of_range h p) _ _
          (λ e. absurd (
            let above : h.arena_base + header_size + tag_size ≤ p =
              omega (arith, l.above, l.behind) in
            let below : p < h.arena_base + h.committed_size = l.inside in
            ground (arith, e, above, below)))
          (λ _.
            if_intro (λ r. r ≡ valid b) (names_no_block h p) _ _
              (λ e. absurd (
                let above : h.arena_base ≤ (h.tags p).block = omega (arith, l.above) in
                let below : (h.tags p).block + header_size ≤ h.arena_base + h.committed_size =
                  omega (arith, l.behind, l.inside) in
                ground (arith, e, above, below)))
              (λ _. rw found (ground (arith, l.marked, l.held, l.points, requested, cookie)))),
    )

-- The block of an accepted pointer.
pub record Accepted (h : Heap) (p : ℕ) (b : Block) : Type 0 where
  pub found : find_block b.address h.blocks ≡ some b
  pub held : b.free ≡ false
  pub points : b.user_pointer ≡ p

find_block-address :
    (address : ℕ) (bs : List Block) (b : Block)
    → find_block address bs ≡ some b
    → b.address ≡ address
unfolding find_block
find_block-address address [] b e = absurd (cc)
find_block-address address (c ∷ rest) b e = elim (Bool-cases (c.address == address)) [
  | inl here ↦ ground (arith, e, here)
  | inr later ↦ find_block-address address rest b (ground (arith, e, later))
]

check_block-valid :
    (h : Heap) (p : ℕ) (c b : Block)
    → check_block h p c ≡ valid b
    → (c ≡ b) × (c.free ≡ false) × (c.user_pointer ≡ p)
check_block-valid h p c b e = ground (arith, e)

pub valid-Accepted :
    (h : Heap) (p : ℕ) (b : Block) → validate_pointer h p ≡ valid b → Accepted h p b
unfolding validate_pointer
valid-Accepted h p b =
    if_intro (λ r. r ≡ valid b → Accepted h p b) (out_of_range h p) _ _
      (λ _ (e : refused einval ≡ valid b). absurd (cc))
      (λ _.
        if_intro (λ r. r ≡ valid b → Accepted h p b) (names_no_block h p) _ _
          (λ _ (e : refused ecorrupt ≡ valid b). absurd (cc))
          (λ _.
            option_intro (λ r. r ≡ valid b → Accepted h p b) (find_block (h.tags p).block h.blocks)
              _ _ (λ _ (e : refused ecorrupt ≡ valid b). absurd (cc))
              (λ c f e.
                let (same, held, points) = check_block-valid h p c b e in
                subst (Accepted h p) same (record {
                  found =
                      subst (λ a. find_block a h.blocks ≡ some c)
                        (sym (find_block-address _ h.blocks c f)) f;
                  held = held;
                  points = points;
                }))))

-- A refusal is an error.
pub refused-error :
    (h : Heap) (p : ℕ) (error : HeapStatus) → validate_pointer h p ≡ refused error → error ≢ ok
unfolding validate_pointer
refused-error h p error =
    if_intro (λ r. r ≡ refused error → error ≢ ok) (out_of_range h p) _ _
      (λ _ (e : refused einval ≡ refused error) q. cc)
      (λ _.
        if_intro (λ r. r ≡ refused error → error ≢ ok) (names_no_block h p) _ _
          (λ _ (e : refused ecorrupt ≡ refused error) q. cc)
          (λ _.
            option_intro (λ r. r ≡ refused error → error ≢ ok)
              (find_block (h.tags p).block h.blocks) _ _
              (λ _ (e : refused ecorrupt ≡ refused error) q. cc) (λ c f e q. ground (arith, e, q))))
