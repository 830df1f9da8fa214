-- ===== src/Base/Align.antt =====
-- Rounding addresses to a power of two at 64 bits, as the kernel's sources write it.
use Prim.Native.Nat.{ℕ, ◌+◌, ◌-◌, ◌*◌, ◌^◌, ◌≤◌, ◌<◌, bit_and}
use mathlib.Core.Path.{◌≡◌, ap}
use mathlib.Core.Logic.{inl, inr}
use mathlib.Core.Bool.{true}
use mathlib.Core.Option.{Option, none, some}
use native.Mathlib.Omega.{arith}
use northstar_os.Base.Tests.{leb, ltb, if◌then◌else◌, Bool-cases}
use northstar_os.Base.Words.{u64_max, is_power_of_two}
use northstar_os.Base.Bits.{mask_split, high_split, two_pow_of_test, two_pow_mono}

exponent_small : (k : ℕ) → 2 ^ k ≤ 2 ^ 64 → k ≤ 64
exponent_small k h = elim (Bool-cases (leb k 64)) [
  | inl small ↦ ground (arith, small)
  | inr large ↦ absurd (omega (arith, two_pow_mono 65 k (ground (arith, large))))
]

-- Masking with `~(size - 1)` leaves the largest multiple of the size that is not above.
pub page_floor :
    (size a : ℕ)
    → is_power_of_two size ≡ true
    → a < 2 ^ 64
    → size ≤ 2 ^ 64
    → (bit_and a (u64_max - (size - 1)) ≤ a)
      × (a < bit_and a (u64_max - (size - 1)) + size)
      × ((m : ℕ) × (bit_and a (u64_max - (size - 1)) ≡ m * size))
page_floor size a h l le =
    let (k, e) = two_pow_of_test size (ground (arith, h)) (ground (arith, h)) in
    let (q, s, b) = mask_split k a in
    let small : k ≤ 64 = exponent_small k (omega arith) in
    let same : u64_max - (size - 1) ≡ 2 ^ 64 - 2 ^ k = omega arith in
    let t = high_split 64 k a small l in
    let scaled : q * size ≡ q * 2 ^ k = ap (λ (x : ℕ). q * x) e in
    rw (same) (omega arith, omega arith, (q, omega arith))

-- `(value + mask) & ~mask` with `mask = alignment - 1`, none where the sum would wrap.
abbrev pub align_up_checked : ℕ → ℕ → Option ℕ
align_up_checked value alignment =
    if ltb (u64_max - (alignment - 1)) value
    then none
    else some (bit_and (value + (alignment - 1)) (u64_max - (alignment - 1)))

-- It is the least multiple of the alignment that is not below.
pub align_up_bounds :
    (value alignment : ℕ)
    → is_power_of_two alignment ≡ true
    → alignment < 2 ^ 64
    → value + (alignment - 1) ≤ u64_max
    → (value ≤ bit_and (value + (alignment - 1)) (u64_max - (alignment - 1)))
      × (bit_and (value + (alignment - 1)) (u64_max - (alignment - 1)) < value + alignment)
      × ((m : ℕ) × (bit_and (value + (alignment - 1)) (u64_max - (alignment - 1)) ≡ m * alignment))
align_up_bounds value alignment h l fits =
    let (lo, hi, m) =
      page_floor alignment (value + (alignment - 1)) h (omega arith) (omega arith) in
    let nz : 0 < alignment = ground (arith, h) in (omega arith, omega arith, m)

-- The same of the checked form.
pub record Rounds (value alignment result : ℕ) : Type 0 where
  pub above : value ≤ result
  pub near : result < value + alignment
  pub multiple : (m : ℕ) × (result ≡ m * alignment)
  pub width : result < 2 ^ 64

pub align_up_checked-Rounds :
    (value alignment result : ℕ)
    → is_power_of_two alignment ≡ true
    → alignment < 2 ^ 64
    → align_up_checked value alignment ≡ some result
    → Rounds value alignment result
align_up_checked-Rounds value alignment result h l e =
    elim (Bool-cases (ltb (u64_max - (alignment - 1)) value)) [
      | inl wraps ↦ absurd (ground (arith, wraps, e))
      | inr fits ↦
          let room : value + (alignment - 1) ≤ u64_max = ground (arith, fits) in
          let (lo, hi, (m, q)) = align_up_bounds value alignment h l room in
          let (low, high, n) =
            page_floor alignment (value + (alignment - 1)) h (omega arith) (omega arith) in
          let same : bit_and (value + (alignment - 1)) (u64_max - (alignment - 1)) ≡ result =
            ground (arith, fits, e) in
          record {
            above = omega arith;
            near = omega arith;
            multiple = (m, omega arith);
            width = omega arith;
          }
    ]
