-- ===== src/Base/Words.antt =====
-- Fixed-width unsigned arithmetic of the C sources: a value is a number below the word's modulus,
-- and each operation writes its wrap-around out.
use Prim.Native.Nat.{ℕ, ◌+◌, ◌-◌, ◌*◌, ◌%◌, ◌^◌, bit_and}
use mathlib.Core.Bool.{Bool, not, ◌&&◌}
use northstar_os.Base.Tests.{◌==◌}

abbrev pub u64_max : ℕ
u64_max = 2 ^ 64 - 1

-- `uint64_t`, `uintptr_t` and `size_t` operations.
abbrev pub add64 : ℕ → ℕ → ℕ
add64 a b = (a + b) % 2 ^ 64

abbrev pub sub64 : ℕ → ℕ → ℕ
sub64 a b = (2 ^ 64 + a - b) % 2 ^ 64

abbrev pub mul64 : ℕ → ℕ → ℕ
mul64 a b = a * b % 2 ^ 64

-- `uint32_t` operations.
abbrev pub add32 : ℕ → ℕ → ℕ
add32 a b = (a + b) % 2 ^ 32

abbrev pub sub32 : ℕ → ℕ → ℕ
sub32 a b = (2 ^ 32 + a - b) % 2 ^ 32

-- `value != 0 && (value & (value - 1)) == 0`; the subtraction runs only where it cannot wrap.
abbrev pub is_power_of_two : ℕ → Bool
is_power_of_two value = not (value == 0) && (bit_and value (value - 1) == 0)
