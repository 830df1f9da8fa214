-- ===== src/Proc/Usercopy.antt =====
-- kernel/proc/usercopy.c: the checks on user pointers. The memory callbacks of
-- include/northstar/syscall_usercopy.h are parameters over the user's memory `U`; a null one is `none`.
pub mod Ranges
pub mod Strings
mod Tests
use northstar_os.Base.{
  ℕ, zero, suc, ◌+◌, ◌-◌, ◌^◌, Bool, true, false, not, ◌&&◌, ◌||◌, Option, none, some, List, [],
  set, get_or, ltb, ◌==◌, if◌then◌else◌,
}
use northstar_os.Base.Words.{u64_max, add64}
use northstar_os.Base.Errno.{ℤ, pos, negsuc, zero_result, efault, einval, enametoolong}

-- `ns_user_memory_ops`. A copy that reports an error is `none`.
pub record UserMemoryOps (U : Type 0) : Type 0 where
  pub range_valid : Option (U → ℕ → ℕ → Bool → Bool)
  pub copy_from_user : Option (U → ℕ → ℕ → Option (List ℕ))
  pub copy_to_user : Option (U → ℕ → List ℕ → Option U)

abbrev pub bounds_overflow : ℕ → ℕ → Bool
bounds_overflow address length = ltb (u64_max - address) length

-- `ns_user_range_check`; `has_space` tells whether there is a process with an address space.
unfoldable pub user_range_check : {U : Type 0} → UserMemoryOps U → Bool → U → ℕ → ℕ → Bool → ℤ
user_range_check ops has_space user address length write_access = elim ops.range_valid [
  | none ↦ efault
  | some range_valid ↦
      if not has_space || bounds_overflow address length
      then efault
      else if length == 0
      then zero_result
      else if address == 0
      then efault
      else if range_valid user address length write_access
      then zero_result
      else efault
]

-- The end of `ns_copy_from_user` after a range that is valid and not empty: the result and the bytes.
abbrev pub copied : {U : Type 0} → UserMemoryOps U → U → ℕ → ℕ → ℤ × List ℕ
copied ops user source length = elim ops.copy_from_user [
  | none ↦ (efault, [])
  | some copy ↦ elim (copy user source length) [
    | none ↦ (efault, [])
    | some bytes ↦ (zero_result, bytes)
  ]
]

-- A result is success.
abbrev pub is_ok : ℤ → Bool
is_ok (pos n) = n == 0
is_ok (negsuc n) = false

-- `ns_copy_from_user`, with the bytes that it puts into the destination.
pub copy_from_user : {U : Type 0} → UserMemoryOps U → Bool → Bool → U → ℕ → ℕ → ℤ × List ℕ
copy_from_user ops has_space has_destination user source length =
    if not (length == 0) && not has_destination
    then (einval, [])
    else if not (is_ok (user_range_check ops has_space user source length false)) || (length == 0)
    then (user_range_check ops has_space user source length false, [])
    else copied ops user source length

-- `ns_copy_to_user`, with the user's memory after it; `bytes` are the `length` bytes of the source.
pub copy_to_user : {U : Type 0} → UserMemoryOps U → Bool → Bool → U → ℕ → List ℕ → ℕ → ℤ × U
copy_to_user ops has_space has_source user destination bytes length =
    if not (length == 0) && not has_source
    then (einval, user)
    else if not (is_ok (user_range_check ops has_space user destination length true))
        || (length == 0)
    then (user_range_check ops has_space user destination length true, user)
    else elim ops.copy_to_user [
      | none ↦ (efault, user)
      | some copy ↦ elim (copy user destination bytes) [
        | none ↦ (efault, user)
        | some after ↦ (zero_result, after)
      ]
    ]

-- The outcome of `ns_copy_user_string`: its result, the destination, and what it stores as the length.
pub record StringResult : Type 0 where
  pub status : ℤ
  pub destination : List ℕ
  pub stored_length : Option ℕ

-- A round of its loop with what the copy of the byte at `offset` gave, `rest` being the next rounds.
abbrev pub string_byte : List ℕ → ℕ → ℤ × List ℕ → (List ℕ → StringResult) → StringResult
string_byte destination offset (status, bytes) rest =
    if not (is_ok status)
    then record { status = status; destination = destination; stored_length = none }
    else if get_or bytes 0 0 == 0
    then record {
      status = zero_result;
      destination = set destination offset (get_or bytes 0 0);
      stored_length = some offset;
    }
    else rest (set destination offset (get_or bytes 0 0))

-- The loop from `offset` on, `n` rounds before the capacity.
pub string_loop : {U : Type 0} → UserMemoryOps U → Bool → U → ℕ → ℕ → ℕ → List ℕ → StringResult
string_loop ops has_space user source offset zero destination = record {
  status = enametoolong;
  destination = set destination (offset - 1) 0;
  stored_length = none;
}
string_loop ops has_space user source offset (suc n) destination =
    string_byte destination offset (copy_from_user ops has_space true user (add64 source offset) 1)
      (λ next. string_loop ops has_space user source (offset + 1) n next)

-- `ns_copy_user_string`
pub copy_user_string :
    {U : Type 0} → UserMemoryOps U → Bool → Bool → U → List ℕ → ℕ → ℕ → StringResult
copy_user_string ops has_space has_destination user destination capacity source =
    if not has_destination || (capacity == 0) || (source == 0)
    then record { status = einval; destination = destination; stored_length = none }
    else string_loop ops has_space user source 0 capacity destination
