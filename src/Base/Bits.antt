-- ===== src/Base/Bits.antt =====
-- Masks, alignment and powers of two over `bit_and` on numbers of any size, for the tests
-- `x & (2^k - 1)`, `x & ~(2^k - 1)` and `x & (x - 1)` of the C sources.
use Prim.Native.Nat.{
  ℕ, zero, suc, ◌+◌, ◌-◌, ◌*◌, ◌/◌, ◌%◌, ◌^◌, ◌≤◌, ◌<◌, min, bit_and, digits, bit_and-bitwise,
}
use mathlib.Core.Path.{◌≡◌, refl, sym, ap, ◌∙◌}
use mathlib.Core.Logic.{◌≢◌}
use native.Mathlib.Nat.{pow-suc}
use native.Mathlib.Decide.{ℕ_discrete}
use native.Mathlib.Omega.{arith}

-- The digits of a conjunction, in at most `rounds` rounds.
abbrev conj : ℕ → ℕ → ℕ → ℕ
conj rounds x y = digits (λ rest. zero) min rounds x y

-- One round more than the left operand needs.
one_more : (rounds x y : ℕ) → x ≤ rounds → conj (suc rounds) x y ≡ conj rounds x y
one_more zero zero y fits = refl
one_more (suc rounds) zero y fits = refl
one_more zero (suc x) y fits = absurd (omega arith)
one_more (suc rounds) (suc x) y fits =
    omega (arith, one_more rounds (suc x / 2) (y / 2) (omega arith))

many_more :
    (extra rounds total x y : ℕ)
    → total ≡ rounds + extra
    → x ≤ rounds
    → conj total x y ≡ conj rounds x y
many_more zero rounds total x y sum fits = ap (λ t. conj t x y) (omega arith)
many_more (suc extra) rounds total x y sum fits =
    many_more extra (suc rounds) total x y (omega arith) (omega arith) ∙ one_more rounds x y fits

-- The lowest digit of a conjunction.
pub bit_and_step : (x y : ℕ) → bit_and x y ≡ bit_and (x / 2) (y / 2) * 2 + min (x % 2) (y % 2)
bit_and_step zero b = omega (arith, bit_and-bitwise zero (b / 2), bit_and-bitwise zero b)
bit_and_step (suc n) b = omega (arith, halved, bit_and-bitwise (suc n) b)
  where
    halved : conj n (suc n / 2) (b / 2) ≡ bit_and (suc n / 2) (b / 2)
    halved =
        many_more (n - suc n / 2) (suc n / 2) n (suc n / 2) (b / 2) (omega arith) (omega arith)
        ∙ sym (bit_and-bitwise (suc n / 2) (b / 2))

conj-zero : (rounds x : ℕ) → conj rounds x 0 ≡ 0
conj-zero zero zero = refl
conj-zero zero (suc x) = refl
conj-zero (suc rounds) zero = refl
conj-zero (suc rounds) (suc x) = omega (arith, conj-zero rounds (suc x / 2))

pub bit_and-zero : (a : ℕ) → bit_and a 0 ≡ 0
bit_and-zero a = bit_and-bitwise a 0 ∙ conj-zero a a

zero_bit_and_fuel : (n a : ℕ) → a ≤ n → bit_and 0 a ≡ 0
zero_bit_and_fuel n zero h = bit_and-zero 0
zero_bit_and_fuel zero (suc a) h = absurd (omega arith)
zero_bit_and_fuel (suc n) (suc a) h =
    omega (arith, bit_and_step 0 (suc a), zero_bit_and_fuel n (suc a / 2) (omega arith))

pub bit_and_zero_left : (a : ℕ) → bit_and 0 a ≡ 0
bit_and_zero_left a = zero_bit_and_fuel a a (omega arith)

bit_and_self_fuel : (n a : ℕ) → a ≤ n → bit_and a a ≡ a
bit_and_self_fuel n zero h = refl
bit_and_self_fuel zero (suc a) h = absurd (omega arith)
bit_and_self_fuel (suc n) (suc a) h =
    omega (arith, bit_and_step (suc a) (suc a), bit_and_self_fuel n (suc a / 2) (omega arith))

pub bit_and_self : (a : ℕ) → bit_and a a ≡ a
bit_and_self a = bit_and_self_fuel a a (omega arith)

pub two_pow_pos : (k : ℕ) → 0 < 2 ^ k
two_pow_pos zero = omega arith
two_pow_pos (suc k) = omega (arith, pow-suc 2 k, two_pow_pos k)

-- The step against a number whose halves are known.
pub bit_and_step_odd : (a b c : ℕ) → b ≡ c * 2 + 1 → bit_and a b ≡ bit_and (a / 2) c * 2 + a % 2
bit_and_step_odd a b c h =
    let e : b / 2 ≡ c = omega arith in rw (← e) (omega (arith, bit_and_step a b))

pub bit_and_step_even : (a b c : ℕ) → b ≡ c * 2 → bit_and a b ≡ bit_and (a / 2) c * 2
bit_and_step_even a b c h =
    let e : b / 2 ≡ c = omega arith in rw (← e) (omega (arith, bit_and_step a b))

mask_step : (k a : ℕ) → bit_and a (2 ^ suc k - 1) ≡ bit_and (a / 2) (2 ^ k - 1) * 2 + a % 2
mask_step k a = bit_and_step_odd a _ _ (omega (arith, pow-suc 2 k, two_pow_pos k))

-- `a & (2^k - 1)` is the remainder of `a` by `2^k`.
pub mask_split :
    (k a : ℕ) → (q : ℕ) × (a ≡ q * 2 ^ k + bit_and a (2 ^ k - 1)) × (bit_and a (2 ^ k - 1) < 2 ^ k)
mask_split zero a = (a, omega (arith, bit_and-zero a), omega (arith, bit_and-zero a))
mask_split (suc k) a =
    let (q, e, l) = mask_split k (a / 2) in
    let scaled : q * 2 ^ suc k ≡ q * (2 ^ k * 2) = ap (λ t. q * t) (pow-suc 2 k) in
    (q, omega (arith, mask_step k a, scaled), omega (arith, mask_step k a, pow-suc 2 k))

full_mask : (w a : ℕ) → a < 2 ^ w → bit_and a (2 ^ w - 1) ≡ a
full_mask zero a h = omega (arith, bit_and-zero a)
full_mask (suc w) a h =
    omega (arith, mask_step w a, full_mask w (a / 2) (omega (arith, pow-suc 2 w)), pow-suc 2 w)

-- `a & ~(2^k - 1)` at the width `w` takes off what `a & (2^k - 1)` keeps.
pub high_split :
    (w k a : ℕ) → k ≤ w → a < 2 ^ w → bit_and a (2 ^ w - 2 ^ k) + bit_and a (2 ^ k - 1) ≡ a
high_split w zero a h l = omega (arith, full_mask w a l, bit_and-zero a)
high_split zero (suc k) a h l = absurd (omega arith)
high_split (suc w) (suc k) a h l = omega (
  arith,
  mask_step k a,
  bit_and_step_even a (2 ^ suc w - 2 ^ suc k) (2 ^ w - 2 ^ k)
      (omega (arith, pow-suc 2 k, pow-suc 2 w)),
  high_split w k (a / 2) (omega arith) (omega (arith, pow-suc 2 w)),
)

two_pow_fuel : (n v : ℕ) → v ≤ n → v ≢ 0 → bit_and v (v - 1) ≡ 0 → (k : ℕ) × (v ≡ 2 ^ k)
two_pow_fuel zero v h nz e = absurd (omega arith)
two_pow_fuel (suc n) v h nz e = elim (ℕ_discrete (v % 2) 0) [
  | yes even ↦
      let half : bit_and (v / 2) (v / 2 - 1) ≡ 0 =
        omega (arith, bit_and_step v (v - 1), lower even) in
      let (k, p) = two_pow_fuel n (v / 2) (omega arith) (omega arith) half in
      (suc k, omega (arith, pow-suc 2 k))
  | no odd ↦ (0, omega (arith, bit_and_step v (v - 1), odd_half odd))
]
  where
    lower : v % 2 ≡ 0 → bit_and (v / 2) ((v - 1) / 2) ≡ bit_and (v / 2) (v / 2 - 1)
    lower even = ap (bit_and (v / 2)) (omega arith)

    odd_half : v % 2 ≢ 0 → bit_and (v / 2) ((v - 1) / 2) ≡ v / 2
    odd_half odd = ap (bit_and (v / 2)) (omega arith) ∙ bit_and_self (v / 2)

-- What passes `v != 0 && (v & (v - 1)) == 0` is a power of two.
pub two_pow_of_test : (v : ℕ) → v ≢ 0 → bit_and v (v - 1) ≡ 0 → (k : ℕ) × (v ≡ 2 ^ k)
two_pow_of_test v nz e = two_pow_fuel v v (omega arith) nz e

pub two_pow_mono : (k m : ℕ) → k ≤ m → 2 ^ k ≤ 2 ^ m
two_pow_mono zero m h = two_pow_pos m
two_pow_mono (suc k) zero h = absurd (omega arith)
two_pow_mono (suc k) (suc m) h =
    omega (arith, two_pow_mono k m (omega arith), pow-suc 2 k, pow-suc 2 m)

-- A power of two passes the test.
pub two_pow_test : (k : ℕ) → bit_and (2 ^ k) (2 ^ k - 1) ≡ 0
two_pow_test zero = refl
two_pow_test (suc k) =
    let half : 2 ^ suc k / 2 ≡ 2 ^ k = omega (arith, pow-suc 2 k) in
    let step : bit_and (2 ^ suc k / 2) (2 ^ k - 1) ≡ 0 = rw half (two_pow_test k) in
    omega (arith, mask_step k (2 ^ suc k), step, pow-suc 2 k)
