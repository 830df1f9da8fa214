-- ===== src/Proc/Usercopy/Tests.antt =====
-- Runs of kernel/proc/usercopy.c on a user's memory with a string of two bytes at 100, of which the
-- addresses from 100 to 109 may be read.
use northstar_os.Base.{
  ℕ, ◌+◌, ◌<◌, ◌^◌, ◌≡◌, ◌≢◌, ◌⊎◌, ◌↔◌, refl, inr, Bool, true, false, ◌&&◌, Option, none, some,
  List, [], ◌∷◌, leb, ◌==◌, if◌then◌else◌, arith,
}
use northstar_os.Base.Errno.{zero_result, enametoolong, efault}
use northstar_os.Proc.Usercopy.{
  user_range_check, copy_from_user, copy_to_user, copy_user_string, string_loop,
}
use northstar_os.Proc.Usercopy.Ranges.{given, user_range_check-accepts}
use northstar_os.Proc.Usercopy.Strings.{StringCases, copy_user_string-StringCases}

abbrev user_bytes : ℕ → ℕ
user_bytes a = if a == 100 then 72 else if a == 101 then 105 else 0

abbrev readable : ℕ → ℕ → ℕ → Bool → Bool
readable user a n write = leb 100 a && leb (a + n) 110

abbrev byte_at : ℕ → ℕ → ℕ → Option (List ℕ)
byte_at user a n = some (user_bytes a ∷ [])

abbrev no_write : ℕ → ℕ → List ℕ → Option ℕ
no_write user a bytes = none

string_run :
    copy_user_string (given readable byte_at no_write) true true 0 (9 ∷ 9 ∷ 9 ∷ 9 ∷ []) 4 100
    ≡ record { status = zero_result; destination = 72 ∷ 105 ∷ 0 ∷ 9 ∷ []; stored_length = some 2 }
unfolding copy_user_string string_loop copy_from_user user_range_check
string_run = refl

long_run :
    copy_user_string (given readable byte_at no_write) true true 0 (9 ∷ 9 ∷ []) 2 100
    ≡ record { status = enametoolong; destination = 72 ∷ 0 ∷ []; stored_length = none }
unfolding copy_user_string string_loop copy_from_user user_range_check
long_run = refl

write_run : copy_to_user (given readable byte_at no_write) true true 0 200 (1 ∷ []) 1 ≡ (efault, 0)
unfolding copy_to_user user_range_check
write_run = refl

range_example :
    (user_range_check (given readable byte_at no_write) true 0 100 4 false ≡ zero_result) ↔ (
      (true ≡ true)
      × (100 + 4 < 2 ^ 64)
      × ((◌≡◌ {A = ℕ} 4 0) ⊎ ((◌≢◌ {A = ℕ} 100 0) × (readable 0 100 4 false ≡ true))))
range_example = user_range_check-accepts readable byte_at no_write 0 true 100 4 false (omega arith)

string_example :
    StringCases readable byte_at no_write 0 user_bytes
      (λ a. inr refl)
      100
      4
      (copy_user_string (given readable byte_at no_write) true true 0 (9 ∷ 9 ∷ 9 ∷ 9 ∷ []) 4 100)
string_example =
    copy_user_string-StringCases readable byte_at no_write 0 user_bytes (λ a. inr refl) true
      (9 ∷ 9 ∷ 9 ∷ 9 ∷ []) 4 100 refl
