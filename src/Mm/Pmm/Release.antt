-- ===== src/Mm/Pmm/Release.antt =====
-- What `ns_pmm_free_pages` of kernel/mm/pmm.c does on success and on each error, and that it undoes
-- an allocation.
use Prim.Native.Nat.{bit_and}
use mathlib.Core.Path.{subst}
use mathlib.Core.Option.{some-injective}
use northstar_os.Base.{
  ℕ, zero, suc, ◌+◌, ◌-◌, ◌*◌, ◌/◌, ◌^◌, ◌≤◌, ◌<◌, ◌≡◌, refl, sym, ap, ◌∙◌, ◌≢◌, inl, inr, Bool,
  true, false, not, ◌||◌, some, arith, ltb, leb, ◌==◌, Bool-cases,
}
use northstar_os.Base.Bits.{mask_split}
use native.Mathlib.Decide.{ℕ_discrete}
use northstar_os.Mm.Bitmap.{bitmap_get}
use northstar_os.Mm.Pmm.{
  Status, ok, einval, ecorrupt, enospc, erange, eperm, edoublefree, Pmm, page_size, check_free,
  give_back, free_pages, alloc_pages,
}
use northstar_os.Mm.Pmm.Invariant.{Inv, clear_run-Fits, get-clear_run, free_below-clear_run}
use northstar_os.Mm.Pmm.Allocation.{Takes, alloc_pages-Found}

-- The verdict of the checking loop over `count` frames from `first` on.
abbrev pub Verdict : Pmm → ℕ → ℕ → Status → Type 0
Verdict p first count ok =
    (f : ℕ)
    → first ≤ f
    → f < first + count
    → (bitmap_get p.allocated_bitmap f ≡ true) × (bitmap_get p.reserved_bitmap f ≡ false)
Verdict p first count eperm =
    (f : ℕ) × (first ≤ f) × (f < first + count) × (bitmap_get p.reserved_bitmap f ≡ true)
Verdict p first count edoublefree =
    (f : ℕ) × (first ≤ f) × (f < first + count) × (bitmap_get p.allocated_bitmap f ≡ false)
Verdict p first count _ = ⊥

Verdict-later :
    (p : Pmm) (first count : ℕ) (s : Status)
    → bitmap_get p.allocated_bitmap first ≡ true
    → bitmap_get p.reserved_bitmap first ≡ false
    → Verdict p (first + 1) count s
    → Verdict p first (suc count) s
Verdict-later p first count ok a r v = λ f lo hi. elim (ℕ_discrete f first) [
  | yes e ↦ rw e (a, r)
  | no ne ↦ v f (omega arith) (omega arith)
]
Verdict-later p first count eperm a r v = (v.0, omega (arith, v.1), omega (arith, v.2), v.3)
Verdict-later p first count edoublefree a r v = (v.0, omega (arith, v.1), omega (arith, v.2), v.3)
Verdict-later p first count einval a r v = v
Verdict-later p first count ecorrupt a r v = v
Verdict-later p first count enospc a r v = v
Verdict-later p first count erange a r v = v

check_free-Verdict : (p : Pmm) (first count : ℕ) → Verdict p first count (check_free p first count)
unfolding check_free
check_free-Verdict p first zero = λ f lo hi. absurd (omega arith)
check_free-Verdict p first (suc count) = elim (Bool-cases (bitmap_get p.reserved_bitmap first)) [
  | inl r ↦ rw (r, check_free) (first, omega arith, omega arith, r)
  | inr r ↦ elim (Bool-cases (bitmap_get p.allocated_bitmap first)) [
    | inr a ↦ rw (r, check_free, a) (first, omega arith, omega arith, a)
    | inl a ↦
        rw (r, check_free, a)
          (Verdict-later p first count _ a r (check_free-Verdict p (first + 1) count))
  ]
]

give_back-Takes :
    (p : Pmm) (first count : ℕ)
    → Inv p
    → first + count ≤ p.frame_count
    → Verdict p first count ok
    → Takes (give_back p first count) p first count
unfolding give_back
give_back-Takes p first count v room taken = record {
  was_free = λ f lo hi.
      get-clear_run p.allocated_bitmap p.frame_count first count f v.allocated_fits room
      ∙ ground arith;
  bits = λ f. ground (
    arith,
    get-clear_run p.allocated_bitmap p.frame_count first count f v.allocated_fits room,
    taken f,
  );
  reserved_kept = refl;
  free_left = refl;
  frames_kept = refl;
  ready_kept = refl;
}

give_back-Inv :
    (p : Pmm) (first count : ℕ)
    → Inv p
    → first + count ≤ p.frame_count
    → Verdict p first count ok
    → Inv (give_back p first count)
unfolding give_back
give_back-Inv p first count v room taken = record {
  allocated_fits = clear_run-Fits p.allocated_bitmap p.frame_count first count v.allocated_fits;
  reserved_fits = v.reserved_fits;
  reserved_allocated = λ f l r.
      get-clear_run p.allocated_bitmap p.frame_count first count f v.allocated_fits room
      ∙ ground (arith, v.reserved_allocated f l r, taken f);
  counted = omega (
    arith,
    v.counted,
    free_below-clear_run p.allocated_bitmap p.frame_count first count v.allocated_fits room
        (λ f lo hi. (taken f lo hi).0),
  );
  sized = v.sized;
  nonempty = v.nonempty;
  bounded = v.bounded;
}

-- The first two tests of the function.
abbrev badly_called : Pmm → ℕ → ℕ → Bool
badly_called p phys count =
    (p.initialized == 0) || (count == 0) || not (bit_and phys (page_size - 1) == 0)

abbrev out_of_range : Pmm → ℕ → ℕ → Bool
out_of_range p phys count =
    leb p.frame_count (phys / page_size) || ltb (p.frame_count - phys / page_size) count

-- What each status says of the frames, and of the allocator afterwards.
abbrev pub FreeCases : Pmm → ℕ → ℕ → Status → Pmm → Type 0
FreeCases p phys count ok q =
    Verdict p (phys / page_size) count ok × Takes q p (phys / page_size) count × Inv q
FreeCases p phys count einval q = (badly_called p phys count ≡ true) × (q ≡ p)
FreeCases p phys count erange q = (out_of_range p phys count ≡ true) × (q ≡ p)
FreeCases p phys count failure q = Verdict p (phys / page_size) count failure × (q ≡ p)

abbrev checked : Pmm → ℕ → ℕ → Status → Status × Pmm
checked p first count ok = (ok, give_back p first count)
checked p first count failure = (failure, p)

checked-FreeCases :
    (p : Pmm) (phys count : ℕ) (s : Status)
    → Inv p
    → phys / page_size + count ≤ p.frame_count
    → Verdict p (phys / page_size) count s
    → FreeCases p phys count
        (checked p (phys / page_size) count s).0
        (checked p (phys / page_size) count s).1
checked-FreeCases p phys count ok v room t =
    (t, give_back-Takes p _ count v room t, give_back-Inv p _ count v room t)
checked-FreeCases p phys count eperm v room t = (t, refl)
checked-FreeCases p phys count edoublefree v room t = (t, refl)
checked-FreeCases p phys count einval v room t = absurd t
checked-FreeCases p phys count erange v room t = absurd t
checked-FreeCases p phys count ecorrupt v room t = absurd t
checked-FreeCases p phys count enospc v room t = absurd t

-- On a consistent allocator, freeing succeeds only on a run of allocated frames of which none is
-- reserved, and then frees just these; it reports a reserved or a free frame only where there is
-- one; on each error the allocator is as it was.
pub free_pages-FreeCases :
    (p : Pmm) (phys count : ℕ)
    → Inv p
    → FreeCases p phys count (free_pages p phys count).0 (free_pages p phys count).1
unfolding free_pages
free_pages-FreeCases p phys count v = elim (Bool-cases (badly_called p phys count)) [
  | inl bad ↦ rw bad (bad, refl)
  | inr fine ↦ elim (Bool-cases (out_of_range p phys count)) [
    | inl out ↦ rw (fine, out) (out, refl)
    | inr within ↦
        rw (fine, within)
          (checked-FreeCases p phys count _ v (ground (arith, within))
            (check_free-Verdict p (phys / page_size) count))
  ]
]

-- The address of a frame is aligned, and names the frame.
frame_address : (frame : ℕ) → bit_and (frame * page_size) (page_size - 1) ≡ 0
frame_address frame = let (q, e, l) = mask_split 12 (frame * page_size) in omega arith

restored :
    (p q : Pmm) (phys count : ℕ)
    → Inv p
    → Takes p q (phys / page_size) count
    → p.initialized ≢ 0
    → count ≢ 0
    → bit_and phys (page_size - 1) ≡ 0
    → phys / page_size + count ≤ p.frame_count
    → (s : Status) (r : Pmm) → FreeCases q phys count s r
    → (s ≡ ok)
      × ((f : ℕ)
          → f < p.frame_count
          → bitmap_get r.allocated_bitmap f ≡ bitmap_get p.allocated_bitmap f)
      × (r.free_frames ≡ p.free_frames)
      × (r.reserved_bitmap ≡ p.reserved_bitmap)
restored p q phys count v t ready nz al room ok r (_, back, _) = (
  refl,
  λ f l. ground (arith, t.bits f, back.bits f, t.was_free f, back.was_free f),
  omega (arith, t.free_left, back.free_left),
  sym back.reserved_kept ∙ t.reserved_kept,
)
restored p q phys count v t ready nz al room einval r (bad, _) =
    absurd (ground (arith, bad, t.ready_kept))
restored p q phys count v t ready nz al room erange r (bad, _) =
    absurd (ground (arith, bad, t.frames_kept))
restored p q phys count v t ready nz al room eperm r ((f, lo, hi, res), _) = absurd (
    ground (
      arith,
      t.was_free f lo hi,
      v.reserved_allocated f (omega arith) (ap (λ b. bitmap_get b f) (sym t.reserved_kept) ∙ res),
    ))
restored p q phys count v t ready nz al room edoublefree r ((f, lo, hi, open_), _) =
    absurd (ground (arith, t.bits f))
restored p q phys count v t ready nz al room ecorrupt r c = absurd c.0
restored p q phys count v t ready nz al room enospc r c = absurd c.0

-- Freeing what was allocated from a consistent allocator succeeds, and leaves every frame and the
-- number of free frames as they were before the allocation.
pub free-alloc_pages :
    (p : Pmm) (count alignment max_phys phys : ℕ) (q : Pmm)
    → Inv p
    → alignment < 2 ^ 64
    → p.initialized ≢ 0
    → count ≢ 0
    → alloc_pages p count alignment max_phys ≡ (ok, some phys, q)
    → ((free_pages q phys count).0 ≡ ok)
      × ((f : ℕ)
          → f < p.frame_count
          → bitmap_get (free_pages q phys count).1.allocated_bitmap f
            ≡ bitmap_get p.allocated_bitmap f)
      × ((free_pages q phys count).1.free_frames ≡ p.free_frames)
      × ((free_pages q phys count).1.reserved_bitmap ≡ p.reserved_bitmap)
free-alloc_pages p count alignment max_phys phys q v ha ready nz e =
    let g = alloc_pages-Found p v count max_phys alignment (some phys) q ha e in
    let named : g.frame ≡ phys / page_size = omega (arith, some-injective _ _ g.address) in
    let aligned : bit_and phys (page_size - 1) ≡ 0 =
      rw (some-injective phys (g.frame * page_size) g.address) (frame_address g.frame) in
    restored p q phys count v (subst (λ first. Takes p q first count) named g.takes) ready nz
      aligned (omega (arith, g.in_memory)) (free_pages q phys count).0 (free_pages q phys count).1
      (free_pages-FreeCases q phys count g.consistent)
