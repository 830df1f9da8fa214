-- ===== src/Mm/Pmm/Runs.antt =====
-- The search of `find_run` in kernel/mm/pmm.c finds the first free aligned run, if there is one.
use Prim.Native.Nat.{bit_and}
use native.Mathlib.Nat.{mul-le-mul_right, add_assoc, suc-mul, add-zero}
use mathlib.Core.Bool.{true≢false}
use native.Mathlib.Decide.{dec_lt}
use northstar_os.Base.{
  ℕ, zero, suc, ◌+◌, ◌-◌, ◌*◌, ◌^◌, ◌≤◌, ◌<◌, ◌≡◌, sym, ap, ◌∙◌, ◌≢◌, true, false, ◌&&◌, ◌||◌,
  Option, none, some, List, arith, ltb, leb, Bool-cases, inl, inr,
}
use northstar_os.Base.Words.{u64_max, add64}
use northstar_os.Base.Bits.{mask_split, high_split, two_pow_pos, two_pow_mono}
use northstar_os.Mm.Bitmap.{bitmap_get}
use northstar_os.Mm.Pmm.{align_frame, all_free, span_is_free, skip_from, find_from, find_run}

-- Frames that are multiples of `2 ^ k`.
abbrev pub IsAligned : ℕ → ℕ → Type 0
IsAligned k frame = (q : ℕ) × (frame ≡ q * 2 ^ k)

-- No frame of `count` from `first` on is allocated.
abbrev pub RunFree : List ℕ → ℕ → ℕ → Type 0
RunFree bitmap first count =
    (frame : ℕ) → first ≤ frame → frame < first + count → bitmap_get bitmap frame ≡ false

all_free-RunFree :
    (bitmap : List ℕ) (first count : ℕ)
    → all_free bitmap first count ≡ true
    → RunFree bitmap first count
unfolding all_free
all_free-RunFree bitmap first zero h frame lo hi = absurd (omega arith)
all_free-RunFree bitmap first (suc count) h frame lo hi =
    ground (arith, all_free-RunFree bitmap (first + 1) count _ frame)

-- Where the run is not free, the skip ends one past an occupied frame of it.
skip_from_occupied :
    (bitmap : List ℕ) (frame i count : ℕ)
    → all_free bitmap (frame + i) count ≡ false
    → (i < skip_from bitmap frame i count)
      × (skip_from bitmap frame i count ≤ i + count)
      × (bitmap_get bitmap (frame + (skip_from bitmap frame i count - 1)) ≡ true)
unfolding all_free skip_from
skip_from_occupied bitmap frame i zero h = absurd (cc)
skip_from_occupied bitmap frame i (suc count) h =
    elim (Bool-cases (bitmap_get bitmap (frame + i))) [
      | inl occupied ↦
          rw (occupied, skip_from)
            (
              omega arith,
              omega arith,
              ap (λ n. bitmap_get bitmap (frame + n)) (omega arith) ∙ occupied,
            )
      | inr open_ ↦
          rw (open_, skip_from)
            (let (lo, hi, at_) =
                skip_from_occupied bitmap frame (i + 1) count
                  (rw (← add_assoc frame i 1) (rest open_)) in
              (omega arith, omega arith, at_))
    ]
  where
    rest : bitmap_get bitmap (frame + i) ≡ false → all_free bitmap (frame + i + 1) count ≡ false
    rest e = rw (e, all_free) at h

-- A run that the search may answer.
abbrev pub IsRun : ℕ → List ℕ → ℕ → ℕ → ℕ → ℕ → Type 0
IsRun k bitmap begin end_ count c =
    (begin ≤ c) × (c + count ≤ end_) × IsAligned k c × RunFree bitmap c count

-- The first of the runs, or that there is none.
abbrev pub FirstRun : ℕ → List ℕ → ℕ → ℕ → ℕ → Option ℕ → Type 0
FirstRun k bitmap begin end_ count none = (c : ℕ) → IsRun k bitmap begin end_ count c → ⊥
FirstRun k bitmap begin end_ count (some c) =
    IsRun k bitmap begin end_ count c × ((d : ℕ) → IsRun k bitmap begin end_ count d → c ≤ d)

module _ (k : ℕ) (hk : k < 64) where
  align_frame_cases :
      (frame : ℕ)
      → frame < 2 ^ 64
      → frame + 2 ^ k ≤ 2 ^ 64
      → (frame ≤ align_frame frame (2 ^ k))
        × (align_frame frame (2 ^ k) < frame + 2 ^ k)
        × IsAligned k (align_frame frame (2 ^ k))
  unfolding align_frame
  align_frame_cases frame h l =
      let (q, e, r) = mask_split k (frame + (2 ^ k - 1)) in
      let v : align_frame frame (2 ^ k) ≡ q * 2 ^ k = value q e r in
      (omega (arith, two_pow_pos k), omega (arith, two_pow_pos k), (q, v))
    where
      mask_name : u64_max - (2 ^ k - 1) ≡ 2 ^ 64 - 2 ^ k
      mask_name = omega (arith, two_pow_pos k)

      value :
          (q : ℕ)
          → frame + (2 ^ k - 1) ≡ q * 2 ^ k + bit_and (frame + (2 ^ k - 1)) (2 ^ k - 1)
          → bit_and (frame + (2 ^ k - 1)) (2 ^ k - 1) < 2 ^ k
          → align_frame frame (2 ^ k) ≡ q * 2 ^ k
      value q e r = ground (arith, two_pow_pos k, high_split 64 k (frame + (2 ^ k - 1)), mask_name)

  -- Of two aligned frames the larger is a whole alignment away.
  aligned_step : (a b : ℕ) → IsAligned k a → IsAligned k b → a < b → a + 2 ^ k ≤ b
  aligned_step a b (p, e) (q, f) h = elim (dec_lt p q) [
    | yes l ↦ omega (arith, mul-le-mul_right {m = suc p} {n = q} (2 ^ k) l, suc-mul p (2 ^ k))
    | no l ↦ absurd (omega (arith, mul-le-mul_right {m = q} {n = p} (2 ^ k) (omega arith)))
  ]

  -- No aligned frame from `frame` on comes before `align_frame`.
  align_frame-least :
      (frame c : ℕ)
      → frame + 2 ^ k ≤ 2 ^ 64
      → IsAligned k c
      → frame ≤ c
      → align_frame frame (2 ^ k) ≤ c
  align_frame-least frame c l a h =
      let (lo, hi, al) = align_frame_cases frame (omega (arith, two_pow_pos k)) l in
      elim (dec_lt c (align_frame frame (2 ^ k))) [
        | yes below ↦ absurd (omega (arith, aligned_step c _ a al below))
        | no above ↦ omega arith
      ]

  -- Skipping past an occupied frame passes over no run.
  FirstRun-mono :
      (bitmap : List ℕ) (begin later end_ count : ℕ) (o : Option ℕ)
      → begin ≤ later
      → ((c : ℕ) → IsRun k bitmap begin end_ count c → later ≤ c)
      → FirstRun k bitmap later end_ count o
      → FirstRun k bitmap begin end_ count o
  FirstRun-mono bitmap begin later end_ count none h skip f = λ c r. f c (skip c r, r.1, r.2, r.3)
  FirstRun-mono bitmap begin later end_ count (some c) h skip (r, least) =
      ((omega (arith, r.0), r.1, r.2, r.3), λ d t. least d (skip d t, t.1, t.2, t.3))

  -- What comes after an occupied frame at `frame + (s - 1)`.
  abbrev Skips : List ℕ → ℕ → ℕ → ℕ → ℕ → Type 0
  Skips bitmap frame end_ count next =
      (frame < next) × IsAligned k next × ((c : ℕ) → IsRun k bitmap frame end_ count c → next ≤ c)

  passed_over :
      (bitmap : List ℕ) (frame end_ count s c : ℕ)
      → 0 < s
      → s ≤ count
      → bitmap_get bitmap (frame + (s - 1)) ≡ true
      → IsRun k bitmap frame end_ count c
      → frame + s ≤ c
  passed_over bitmap frame end_ count s c pos_ le at_ (lo, hi, al, free) =
      elim (dec_lt c (frame + s)) [
        | no above ↦ omega arith
        | yes below ↦
            absurd (true≢false (sym at_ ∙ free (frame + (s - 1)) (omega arith) (omega arith)))
      ]

  skipped_by :
      (bitmap : List ℕ) (frame end_ count s : ℕ)
      → 0 < s
      → s ≤ count
      → bitmap_get bitmap (frame + (s - 1)) ≡ true
      → frame + count ≤ end_
      → end_ ≤ 2 ^ 63
      → Skips bitmap frame end_ count (align_frame (add64 frame s) (2 ^ k))
  skipped_by bitmap frame end_ count s pos_ le at_ room hend =
      let plain : add64 frame s ≡ frame + s = omega arith in
      let small : frame + s + 2 ^ k ≤ 2 ^ 64 = omega (arith, two_pow_mono k 63 (omega arith)) in
      let (lo, hi, al) = align_frame_cases (frame + s) (omega arith) small in
      rw plain (
        omega arith,
        al,
        λ c r.
            align_frame-least (frame + s) c small r.2
              (passed_over bitmap frame end_ count s c pos_ le at_ r),
      )

  skipped :
      (bitmap : List ℕ) (frame end_ count : ℕ)
      → all_free bitmap frame count ≡ false
      → frame + count ≤ end_
      → end_ ≤ 2 ^ 63
      → Skips bitmap frame end_ count
          (align_frame (add64 frame (skip_from bitmap frame 0 count)) (2 ^ k))
  skipped bitmap frame end_ count h room hend =
      let (lo, hi, at_) = skip_from_occupied bitmap frame 0 count (rw (add-zero frame) h) in
      skipped_by bitmap frame end_ count _ lo (omega arith) at_ room hend

  find_from-FirstRun :
      (fuel : ℕ) (bitmap : List ℕ) (frame end_ count : ℕ)
      → end_ ≤ 2 ^ 63
      → end_ < frame + fuel
      → count ≢ 0
      → IsAligned k frame
      → FirstRun k bitmap frame end_ count (find_from fuel bitmap frame end_ count (2 ^ k))
  unfolding find_from span_is_free
  find_from-FirstRun zero bitmap frame end_ count hend hfuel nz al = λ c r. omega (arith, r.0, r.1)
  find_from-FirstRun (suc fuel) bitmap frame end_ count hend hfuel nz al =
      elim (Bool-cases (ltb frame end_ && leb count (end_ - frame))) [
        | inr stop ↦ rw (stop, find_from) (λ c r. stopped c stop r.0 r.1)
        | inl more ↦
            let room : frame + count ≤ end_ = ground (arith, more) in
            rw (more, find_from)
              (elim (Bool-cases (all_free bitmap frame count)) [
                | inl open_ ↦
                    rw (open_, span_ok room)
                      (
                        (omega arith, room, al, all_free-RunFree bitmap frame count open_),
                        λ d r. r.0,
                      )
                | inr taken ↦
                    let (lo, al', least) = skipped bitmap frame end_ count taken room hend in
                    rw (taken, span_ok room)
                      (FirstRun-mono bitmap frame _ end_ count _ (omega arith) least
                        (find_from-FirstRun fuel bitmap _ end_ count hend (omega arith) nz al'))
              ])
      ]
    where
      stopped :
          (c : ℕ)
          → (ltb frame end_ && leb count (end_ - frame)) ≡ false
          → frame ≤ c
          → c + count ≤ end_
          → ⊥
      stopped c e lo hi = ground arith

      span_ok : frame + count ≤ end_ → (ltb end_ frame || ltb (end_ - frame) count) ≡ false
      span_ok h = ground arith

  -- `find_run` answers with the first free aligned run between `begin` and `end_`, and with none only
  -- where there is none.
  pub find_run-FirstRun :
      (bitmap : List ℕ) (begin end_ count : ℕ)
      → begin ≤ 2 ^ 63
      → end_ ≤ 2 ^ 63
      → count ≢ 0
      → FirstRun k bitmap begin end_ count (find_run bitmap begin end_ count (2 ^ k))
  unfolding find_run
  find_run-FirstRun bitmap begin end_ count hb hend nz =
      let small : begin + 2 ^ k ≤ 2 ^ 64 = omega (arith, two_pow_mono k 63 (omega arith)) in
      let (lo, hi, al) = align_frame_cases begin (omega arith) small in
      FirstRun-mono bitmap begin _ end_ count _ lo (λ c r. align_frame-least begin c small r.2 r.0)
        (find_from-FirstRun (suc end_) bitmap _ end_ count hend (omega arith) nz al)
