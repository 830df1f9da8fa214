-- ===== src/Net/Checksum.antt =====
-- kernel/net/net_checksum.c: the Internet checksum, computed over the pieces of a message. Bytes are
-- numbers; the pointer arguments are not null.
pub mod Pieces
mod Tests
use Prim.Native.Nat.{bit_and, bit_or}
use northstar_os.Base.{
  ℕ, zero, suc, ◌+◌, ◌-◌, ◌*◌, ◌/◌, ◌%◌, ◌^◌, Bool, true, false, List, [], ◌∷◌, ◌==◌, if◌then◌else◌,
}
use northstar_os.Base.Words.{add32}

-- `net_checksum_state_t`
pub record State : Type 0 where
  pub sum : ℕ
  pub odd_byte : ℕ
  pub has_odd_byte : Bool

-- `net_checksum_init`
abbrev pub checksum_init : State
checksum_init = record { sum = 0; odd_byte = 0; has_odd_byte = false }

-- `((uint32_t)high << 8u) | (uint32_t)low`
abbrev pub word : ℕ → ℕ → ℕ
word high low = bit_or (high * 256) low

abbrev pub add_word : State → ℕ → ℕ → State
add_word s high low = record {
  sum = add32 s.sum (word high low);
  odd_byte = s.odd_byte;
  has_odd_byte = false;
}

-- The loop of `net_checksum_update` over whole words, and what follows it.
pub update_words : State → List ℕ → State
update_words s [] = s
update_words s (b ∷ []) = record { sum = s.sum; odd_byte = b; has_odd_byte = true }
update_words s (high ∷ low ∷ rest) =
    update_words (record s { sum = add32 s.sum (word high low) }) rest

-- `net_checksum_update`
pub update : State → List ℕ → State
update s [] = s
update s (b ∷ rest) =
    if s.has_odd_byte
    then update_words (add_word s s.odd_byte b) rest
    else update_words s (b ∷ rest)

-- The folding loop of `net_checksum_finalize`, in at most `rounds` rounds.
pub fold_sum : ℕ → ℕ → ℕ
fold_sum zero sum = sum
fold_sum (suc rounds) sum =
    if sum / 2 ^ 16 == 0 then sum else fold_sum rounds (sum % 2 ^ 16 + sum / 2 ^ 16)

abbrev pub final_sum : State → ℕ
final_sum s = if s.has_odd_byte then add32 s.sum (s.odd_byte * 256) else s.sum

-- `net_checksum_finalize`; a sum of 32 bits takes two rounds.
pub finalize : State → ℕ
finalize s = (2 ^ 32 - 1 - fold_sum 2 (final_sum s)) % 2 ^ 16

-- `net_checksum_compute`
pub compute : List ℕ → ℕ
compute bytes = finalize (update checksum_init bytes)

-- `net_checksum_is_valid`
pub checksum_is_valid : List ℕ → Bool
checksum_is_valid bytes = compute bytes == 0
