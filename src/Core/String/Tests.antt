-- ===== src/Core/String/Tests.antt =====
-- Runs of the functions of kernel/core/string.c on the memory whose byte at an address below 8 is the
-- address plus one, and zero from there on.
use northstar_os.Base.{ℕ, ◌+◌, ◌<◌, ◌≤◌, ◌≡◌, ◌≢◌, ◌↔◌, refl, inl, some, ltb, arith, if◌then◌else◌}
use northstar_os.Base.Errno.{pos, negsuc, zero_result}
use northstar_os.Core.String.{
  Memory, copy_up, memcpy, copy_down, memmove, memset, set_up, memcmp, compare_up, strlen, strnlen,
  strcmp, strncmp, strncmp_up, strncpy, strncpy_up, zero_up,
}
use northstar_os.Core.String.Copying.{Moved, memcpy-Moved, memmove-Moved}
use northstar_os.Core.String.Comparison.{strlen-strnlen, memcmp-agrees, strnlen-first_zero}

abbrev rising : Memory
rising a = if ltb a 8 then a + 1 else 0

overlap_run :
    (memmove 2 0 4 rising 5 ≡ 4) × (memmove 0 2 4 rising 0 ≡ 3) × (memmove 2 0 4 rising 6 ≡ 7)
unfolding memmove memcpy copy_up copy_down
overlap_run = (refl, refl, refl)

set_run : (memset 1 258 2 rising 2 ≡ 2) × (memset 1 258 2 rising 3 ≡ 4)
unfolding memset set_up
set_run = (refl, refl)

compare_run :
    (memcmp rising 0 1 3 ≡ negsuc 0)
    × (memcmp rising 8 9 3 ≡ pos 0)
    × (strcmp 9 rising 1 0 ≡ some (pos 1))
    × (strncmp rising 8 9 3 ≡ pos 0)
unfolding memcmp compare_up strcmp strncmp strncmp_up
compare_run = (refl, refl, refl, refl)

pad_run : (strncpy 20 6 4 rising 21 ≡ 8) × (strncpy 20 6 4 (memset 20 1 8 rising) 23 ≡ 0)
unfolding strncpy strncpy_up zero_up memset set_up
pad_run = (refl, refl)

length_example : strlen 9 rising 3 ≡ some (strnlen rising 3 9)
length_example = strlen-strnlen rising 3 9 5 (omega arith) refl

copy_example : Moved rising (memcpy 0 2 4 rising) 0 2 4
copy_example = memcpy-Moved 0 2 4 rising (inl (omega arith))

move_example : Moved rising (memmove 2 0 4 rising) 2 0 4
move_example = memmove-Moved 2 0 4 rising

agree_example :
    (memcmp rising 8 9 3 ≡ zero_result) ↔ ((i : ℕ) → i < 3 → rising (8 + i) ≡ rising (9 + i))
agree_example = memcmp-agrees rising 8 9 3

strnlen_example :
    (strnlen rising 3 9 ≤ 9)
    × ((j : ℕ) → j < strnlen rising 3 9 → rising (3 + j) ≢ 0)
    × (strnlen rising 3 9 < 9 → rising (3 + strnlen rising 3 9) ≡ 0)
strnlen_example = strnlen-first_zero rising 3 9
