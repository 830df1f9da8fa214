-- ===== src/Mm/Pmm/Allocation.antt =====
-- What the allocator of kernel/mm/pmm.c does on success and on each error.
use Prim.Native.Nat.{bit_and}
use mathlib.Core.Path.{subst, subst₂}
use mathlib.Core.Option.{some-injective}
use native.Mathlib.Decide.{dec_lt}
use northstar_os.Base.{
  ℕ, ◌+◌, ◌-◌, ◌*◌, ◌^◌, ◌≤◌, ◌<◌, ◌≡◌, refl, sym, ap, ◌∙◌, ◌≢◌, ◌⊎◌, inl, inr, Bool, true, not,
  ◌||◌, Option, none, some, arith, ltb, ◌==◌, if◌then◌else◌, Bool-cases, ltb→lt,
}
use northstar_os.Base.Bits.{two_pow_of_test, two_pow_mono}
use northstar_os.Mm.Bitmap.{bitmap_get}
use northstar_os.Mm.Pmm.{
  Status, ok, einval, enospc, Pmm, page_size, invalid_phys, frame_limit, hint_below, search_runs,
  take_run, alloc_pages,
}
use northstar_os.Mm.Pmm.Runs.{RunFree, IsRun, FirstRun}
use northstar_os.Mm.Pmm.Search.{frame_limit-le, search_cases}
use northstar_os.Mm.Pmm.Invariant.{Inv, in_run, set_run-Fits, get-set_run, free_below-set_run}

-- Only the frames of one run change, from free to allocated.
pub record Takes (p q : Pmm) (first count : ℕ) : Type 0 where
  pub was_free : RunFree p.allocated_bitmap first count
  pub bits :
      (f : ℕ)
      → bitmap_get q.allocated_bitmap f
        ≡ (if in_run first count f then true else bitmap_get p.allocated_bitmap f)
  pub reserved_kept : q.reserved_bitmap ≡ p.reserved_bitmap
  pub free_left : q.free_frames + count ≡ p.free_frames
  pub frames_kept : q.frame_count ≡ p.frame_count
  pub ready_kept : q.initialized ≡ p.initialized

take_run-Takes :
    (p : Pmm) (first count : ℕ)
    → Inv p
    → first + count ≤ p.frame_count
    → RunFree p.allocated_bitmap first count
    → Takes p (take_run p first count) first count
unfolding take_run
take_run-Takes p first count v room free = record {
  was_free = free;
  bits = λ f. get-set_run p.allocated_bitmap p.frame_count first count f v.allocated_fits room;
  reserved_kept = refl;
  free_left = omega (
    arith,
    v.counted,
    free_below-set_run p.allocated_bitmap p.frame_count first count v.allocated_fits room free,
  );
  frames_kept = refl;
  ready_kept = refl;
}

pub take_run-Inv :
    (p : Pmm) (first count : ℕ)
    → Inv p
    → first + count ≤ p.frame_count
    → RunFree p.allocated_bitmap first count
    → Inv (take_run p first count)
unfolding take_run
take_run-Inv p first count v room free = record {
  allocated_fits = set_run-Fits p.allocated_bitmap p.frame_count first count v.allocated_fits;
  reserved_fits = v.reserved_fits;
  reserved_allocated = λ f l r.
      get-set_run p.allocated_bitmap p.frame_count first count f v.allocated_fits room
      ∙ ground (arith, v.reserved_allocated f l r);
  counted = omega (
    arith,
    v.counted,
    free_below-set_run p.allocated_bitmap p.frame_count first count v.allocated_fits room free,
  );
  sized = v.sized;
  nonempty = v.nonempty;
  bounded = v.bounded;
}

-- An alignment that passes the tests is a power of two, below the width of `size_t`.
alignment_power :
    (alignment : ℕ)
    → alignment < 2 ^ 64
    → alignment ≢ 0
    → bit_and alignment (alignment - 1) ≡ 0
    → (k : ℕ) × (alignment ≡ 2 ^ k) × (k < 64)
alignment_power alignment h nz e =
    let (k, p) = two_pow_of_test alignment nz e in
    (
      k,
      p,
      elim (dec_lt k 64) [
        | yes l ↦ l
        | no l ↦ absurd (omega (arith, two_pow_mono 64 k (omega arith)))
      ],
    )

-- The arguments that pass the first test of `ns_pmm_alloc_pages`.
pub record Valid (p : Pmm) (count alignment : ℕ) : Type 0 where
  pub ready : p.initialized ≢ 0
  pub count_nz : count ≢ 0
  pub alignment_nz : alignment ≢ 0
  pub power : bit_and alignment (alignment - 1) ≡ 0

-- What the call returns then, from the answer of the search.
abbrev pub outcome : Pmm → ℕ → Option ℕ → Status × Option ℕ × Pmm
outcome p count none = (enospc, some invalid_phys, p)
outcome p count (some frame) = (ok, some (frame * page_size), take_run p frame count)

abbrev pub rejected : Pmm → ℕ → ℕ → Bool
rejected p count alignment =
    (p.initialized == 0)
    || (count == 0)
    || (alignment == 0)
    || not (bit_and alignment (alignment - 1) == 0)

-- The three ways through the function.
abbrev pub AllocCases : Pmm → ℕ → ℕ → ℕ → Status × Option ℕ × Pmm → Type 0
AllocCases p count alignment max_phys r =
    ((rejected p count alignment ≡ true) × (r ≡ (einval, none, p)))
    ⊎ (Valid p count alignment × (p.free_frames < count) × (r ≡ (enospc, some invalid_phys, p)))
    ⊎ (Valid p count alignment
        × (count ≤ p.free_frames)
        × (r ≡ outcome p count (search_runs p (frame_limit p max_phys) count alignment)))

pub alloc_cases :
    (p : Pmm) (count alignment max_phys : ℕ)
    → AllocCases p count alignment max_phys (alloc_pages p count alignment max_phys)
unfolding alloc_pages
alloc_cases p count alignment max_phys = elim (Bool-cases (rejected p count alignment)) [
  | inl bad ↦ inl (bad, rw bad)
  | inr good ↦
      let v : Valid p count alignment = record {
        ready = ground (arith, good);
        count_nz = ground (arith, good);
        alignment_nz = ground (arith, good);
        power = ground (arith, good);
      } in
      elim (Bool-cases (ltb p.free_frames count)) [
        | inl few ↦ inr (inl (v, ltb→lt _ _ few, rw (good, few)))
        | inr enough ↦ inr (inr (v, ground (arith, enough), rw (good, enough)))
      ]
]

-- What a search without an answer means: no free aligned run from the hint to the limit, and none
-- from 0 to the hint.
abbrev pub NoRun : ℕ → Pmm → ℕ → ℕ → Type 0
NoRun k p limit count =
    FirstRun k p.allocated_bitmap (hint_below p limit) limit count none
    × FirstRun k p.allocated_bitmap 0 (hint_below p limit) count none

-- The outcome of the search, as what the caller sees.
pub record Found (p : Pmm) (count alignment max_phys : ℕ) (out : Option ℕ) (q : Pmm) : Type 0 where
  pub frame : ℕ
  pub address : out ≡ some (frame * page_size)
  pub in_memory : frame + count ≤ p.frame_count
  pub below_max : (max_phys ≡ 0) ⊎ ((frame + count) * page_size ≤ max_phys)
  pub multiple : (m : ℕ) × (frame ≡ m * alignment)
  pub takes : Takes p q frame count
  pub consistent : Inv q

module _ (p : Pmm) (v : Inv p) (count max_phys : ℕ) where
  found :
      (k frame : ℕ)
      → IsRun k p.allocated_bitmap 0 (frame_limit p max_phys) count frame
      → Found p count (2 ^ k) max_phys (some (frame * page_size)) (take_run p frame count)
  found k frame (lo, hi, al, free) =
      let (limit_le, below) = frame_limit-le p max_phys in
      let room : frame + count ≤ p.frame_count = omega arith in
      record {
        frame = frame;
        address = refl;
        in_memory = room;
        below_max = capped below;
        multiple = al;
        takes = take_run-Takes p frame count v room free;
        consistent = take_run-Inv p frame count v room free;
      }
    where
      capped :
          (max_phys ≡ 0) ⊎ (frame_limit p max_phys * page_size ≤ max_phys)
          → (max_phys ≡ 0) ⊎ ((frame + count) * page_size ≤ max_phys)
      capped (inl z) = inl z
      capped (inr l) = inr (omega arith)

  abbrev result : ℕ → Status × Option ℕ × Pmm
  result alignment = alloc_pages p count alignment max_phys

  IsRun-of :
      (k frame : ℕ)
      → k < 64
      → count ≢ 0
      → search_runs p (frame_limit p max_phys) count (2 ^ k) ≡ some frame
      → IsRun k p.allocated_bitmap 0 (frame_limit p max_phys) count frame
  IsRun-of k frame hk nz e =
      elim (search_cases k hk p v (frame_limit p max_phys) count nz (frame_limit-le p max_phys).0
        (some frame) e) [
          | inl (c, same, r, _) ↦
              subst (IsRun k p.allocated_bitmap 0 (frame_limit p max_phys) count)
                (some-injective c frame (sym same)) r
          | inr (none_, _, _) ↦ absurd (cc)
        ]

  Found-of :
      (k : ℕ) (o out : Option ℕ) (q : Pmm)
      → k < 64
      → count ≢ 0
      → search_runs p (frame_limit p max_phys) count (2 ^ k) ≡ o
      → outcome p count o ≡ (ok, out, q)
      → Found p count (2 ^ k) max_phys out q
  Found-of k none out q hk nz e r = absurd (cc)
  Found-of k (some frame) out q hk nz e r =
      subst₂ (Found p count (2 ^ k) max_phys) (ap (λ t. t.1) r) (ap (λ t. t.2) r)
        (found k frame (IsRun-of k frame hk nz e))

  -- On a consistent allocator, a successful allocation takes one aligned run of free frames within
  -- the bounds, changes no other frame, counts the frames taken, returns the address of the run, and
  -- keeps the allocator consistent.
  pub alloc_pages-Found :
      (alignment : ℕ) (out : Option ℕ) (q : Pmm)
      → alignment < 2 ^ 64
      → alloc_pages p count alignment max_phys ≡ (ok, out, q)
      → Found p count alignment max_phys out q
  alloc_pages-Found alignment out q h e = go (alloc_cases p count alignment max_phys)
    where
      go :
          AllocCases p count alignment max_phys (alloc_pages p count alignment max_phys)
          → Found p count alignment max_phys out q
      go (inl (_, r)) = absurd (cc)
      go (inr (inl (_, _, r))) = absurd (cc)
      go (inr (inr (w, _, r))) =
          let (k, power, hk) = alignment_power alignment h w.alignment_nz w.power in
          subst (λ a. Found p count a max_phys out q) (sym power)
            (Found-of k _ out q hk w.count_nz refl (
              ap (λ a. outcome p count (search_runs p (frame_limit p max_phys) count a)) (sym power)
              ∙ sym r
              ∙ e))

  -- On a consistent allocator, running out of space changes nothing, stores the invalid address, and
  -- happens only if too few frames are free or neither search has a run to find.
  pub alloc_pages-enospc :
      (k : ℕ) (out : Option ℕ) (q : Pmm)
      → k < 64
      → alloc_pages p count (2 ^ k) max_phys ≡ (enospc, out, q)
      → (q ≡ p)
        × (out ≡ some invalid_phys)
        × ((p.free_frames < count) ⊎ NoRun k p (frame_limit p max_phys) count)
  alloc_pages-enospc k out q hk e = go (alloc_cases p count (2 ^ k) max_phys)
    where
      missed :
          (o : Option ℕ)
          → count ≢ 0
          → search_runs p (frame_limit p max_phys) count (2 ^ k) ≡ o
          → outcome p count o ≡ (enospc, out, q)
          → (q ≡ p)
            × (out ≡ some invalid_phys)
            × ((p.free_frames < count) ⊎ NoRun k p (frame_limit p max_phys) count)
      missed none nz s r = (
        ap (λ t. t.2) (sym r),
        ap (λ t. t.1) (sym r),
        elim (search_cases k hk p v (frame_limit p max_phys) count nz (frame_limit-le p max_phys).0
            none s) [
              | inl (c, same, _, _) ↦ absurd (cc)
              | inr (_, first, second) ↦ inr (first, second)
            ],
      )
      missed (some frame) nz s r = absurd (cc)

      go :
          AllocCases p count (2 ^ k) max_phys (alloc_pages p count (2 ^ k) max_phys)
          → (q ≡ p)
            × (out ≡ some invalid_phys)
            × ((p.free_frames < count) ⊎ NoRun k p (frame_limit p max_phys) count)
      go (inl (_, r)) = absurd (cc)
      go (inr (inl (_, few, r))) = (ap (λ t. t.2) (sym e ∙ r), ap (λ t. t.1) (sym e ∙ r), inl few)
      go (inr (inr (w, _, r))) = missed _ w.count_nz refl (sym r ∙ e)
