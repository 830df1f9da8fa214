-- ===== src/Core/String.antt =====
-- kernel/core/string.c: the functions on memory and strings. Memory is a function from addresses to
-- bytes; an object lies within it without wrapping. Bytes are below 256. The loops that stop at a zero
-- byte only run on fuel.
pub mod Copying
pub mod Comparison
mod Tests
use northstar_os.Base.{
  ℕ, zero, suc, ◌+◌, ◌-◌, ◌%◌, Bool, true, false, not, ◌&&◌, ◌||◌, Option, none, some, ltb, leb,
  ◌==◌, if◌then◌else◌,
}
use northstar_os.Base.Errno.{ℤ, pos, negsuc, zero_result}

abbrev pub Memory : Type 0
Memory = ℕ → ℕ

-- A byte is stored.
abbrev pub store : Memory → ℕ → ℕ → Memory
store memory address value other = if other == address then value else memory other

-- The difference of two bytes as an `int`.
abbrev pub int_sub : ℕ → ℕ → ℤ
int_sub a b = if leb b a then pos (a - b) else negsuc (b - a - 1)

-- The loop of `memcpy` from the index `i` on, `n` bytes.
pub copy_up : ℕ → ℕ → ℕ → ℕ → Memory → Memory
copy_up to from i zero memory = memory
copy_up to from i (suc n) memory =
    copy_up to from (i + 1) n (store memory (to + i) (memory (from + i)))

pub memcpy : ℕ → ℕ → ℕ → Memory → Memory
memcpy to from count memory = copy_up to from 0 count memory

-- The loop of `memmove`, downwards.
pub copy_down : ℕ → ℕ → ℕ → Memory → Memory
copy_down to from zero memory = memory
copy_down to from (suc n) memory = copy_down to from n (store memory (to + n) (memory (from + n)))

pub memmove : ℕ → ℕ → ℕ → Memory → Memory
memmove to from count memory =
    if ltb to from then memcpy to from count memory else copy_down to from count memory

pub set_up : ℕ → ℕ → ℕ → ℕ → Memory → Memory
set_up to value i zero memory = memory
set_up to value i (suc n) memory = set_up to value (i + 1) n (store memory (to + i) (value % 256))

pub memset : ℕ → ℕ → ℕ → Memory → Memory
memset to value count memory = set_up to value 0 count memory

pub compare_up : Memory → ℕ → ℕ → ℕ → ℕ → ℤ
compare_up memory a b i zero = zero_result
compare_up memory a b i (suc n) =
    let rest = compare_up memory a b (i + 1) n in
    if not (memory (a + i) == memory (b + i))
    then int_sub (memory (a + i)) (memory (b + i))
    else rest

pub memcmp : Memory → ℕ → ℕ → ℕ → ℤ
memcmp memory a b count = compare_up memory a b 0 count

-- `strnlen` from a length on, `n` being the bytes left to the maximum.
pub length_up : Memory → ℕ → ℕ → ℕ → ℕ
length_up memory string length zero = length
length_up memory string length (suc n) =
    let rest = length_up memory string (length + 1) n in
    if not (memory (string + length) == 0) then rest else length

pub strnlen : Memory → ℕ → ℕ → ℕ
strnlen memory string maximum = length_up memory string 0 maximum

-- `strlen`, on fuel.
pub strlen_up : ℕ → Memory → ℕ → ℕ → Option ℕ
strlen_up zero memory string length = none
strlen_up (suc fuel) memory string length =
    let rest = strlen_up fuel memory string (length + 1) in
    if not (memory (string + length) == 0) then rest else some length

pub strlen : ℕ → Memory → ℕ → Option ℕ
strlen fuel memory string = strlen_up fuel memory string 0

-- `strcmp`, on fuel.
pub strcmp : ℕ → Memory → ℕ → ℕ → Option ℤ
strcmp zero memory left right = none
strcmp (suc fuel) memory left right =
    let rest = strcmp fuel memory (left + 1) (right + 1) in
    if not (memory left == 0) && (memory left == memory right)
    then rest
    else some (int_sub (memory left) (memory right))

pub strncmp_up : Memory → ℕ → ℕ → ℕ → ℕ → ℤ
strncmp_up memory left right i zero = zero_result
strncmp_up memory left right i (suc n) =
    let rest = strncmp_up memory left right (i + 1) n in
    if not (memory (left + i) == memory (right + i)) || (memory (left + i) == 0)
    then int_sub (memory (left + i)) (memory (right + i))
    else rest

pub strncmp : Memory → ℕ → ℕ → ℕ → ℤ
strncmp memory left right count = strncmp_up memory left right 0 count

-- The second loop of `strncpy`, and the first with it.
pub zero_up : ℕ → ℕ → ℕ → Memory → Memory
zero_up to i zero memory = memory
zero_up to i (suc n) memory = zero_up to (i + 1) n (store memory (to + i) 0)

pub strncpy_up : ℕ → ℕ → ℕ → ℕ → Memory → Memory
strncpy_up to from i zero memory = memory
strncpy_up to from i (suc n) memory =
    let copied = strncpy_up to from (i + 1) n (store memory (to + i) (memory (from + i))) in
    if not (memory (from + i) == 0) then copied else zero_up to i (suc n) memory

pub strncpy : ℕ → ℕ → ℕ → Memory → Memory
strncpy to from count memory = strncpy_up to from 0 count memory
