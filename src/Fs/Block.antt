-- ===== src/Fs/Block.antt =====
-- kernel/fs/block.c: the generic block device with its geometry, overflow, transfer and read-only
-- checks. A driver is a set of functions over a state `S` (what its `context` points to); a null
-- pointer is `none`. Sector numbers are `uint64_t`, counts, sizes and flags `uint32_t`, `size_t` has
-- 64 bits.
pub mod Slice
pub mod Requests
pub mod Memory
mod Tests
use Prim.Native.Nat.{bit_and, bit_or}
use northstar_os.Base.{
  ℕ, zero, suc, ◌+◌, ◌-◌, ◌*◌, ◌/◌, ◌%◌, ◌^◌, Bool, true, false, not, ◌&&◌, ◌||◌, Option, none,
  some, List, ltb, leb, ◌==◌, if◌then◌else◌,
}
use northstar_os.Base.Words.{u64_max, is_power_of_two}
use northstar_os.Base.Errno.{
  ℤ, pos, negsuc, zero_result, einval, enodev, eoverflow, erange, emsgsize, efault, erofs, eproto,
}

-- `ns_block_ops`. A read gets the buffer and returns it filled.
pub record Ops (S : Type 0) : Type 0 where
  pub read : Option (S → ℕ → ℕ → Option (List ℕ) → ℤ × Option (List ℕ) × S)
  pub write : Option (S → ℕ → ℕ → Option (List ℕ) → ℤ × S)
  pub flush : Option (S → ℤ × S)

-- `ns_block_device`; the context is passed beside it.
pub record Device (S : Type 0) : Type 0 where
  pub ops : Option (Ops S)
  pub sector_count : ℕ
  pub sector_size : ℕ
  pub max_transfer_sectors : ℕ
  pub flags : ℕ
  pub magic : ℕ

abbrev pub device_magic : ℕ
device_magic = 0x4e53424c

abbrev pub read_only : ℕ
read_only = 1

abbrev pub removable : ℕ
removable = 2

abbrev pub volatile_write_cache : ℕ
volatile_write_cache = 4

-- `~NS_BLOCK_F_ALL` as a `uint32_t`.
abbrev pub unknown_flags : ℕ
unknown_flags = 2 ^ 32 - 1 - 7

-- `(flags & mask) != 0`
abbrev pub has : ℕ → ℕ → Bool
has flags mask = not (bit_and flags mask == 0)

abbrev pub is_null {ℓ} : {A : Type ℓ} → Option A → Bool
is_null none = true
is_null (some a) = false

-- `ns_block_normalize_driver_result`
abbrev pub normalize : ℤ → ℤ
normalize (pos n) = if n == 0 then pos n else eproto
normalize (negsuc n) = negsuc n

module _ {S : Type 0} where
  -- `ns_block_device_init` once `ops` is not null: the tests in order, then the fields.
  init_with : Ops S → ℕ → ℕ → ℕ → ℕ → Device S → ℤ × Device S
  init_with ops sector_size sector_count max_transfer flags old =
      if is_null ops.read
      then (einval, old)
      else if not (is_power_of_two sector_size) || (sector_count == 0)
      then (einval, old)
      else if has flags unknown_flags
      then (einval, old)
      else if has flags volatile_write_cache && is_null ops.flush
      then (einval, old)
      else (
        zero_result,
        record {
          ops = some ops;
          sector_count = sector_count;
          sector_size = sector_size;
          max_transfer_sectors = max_transfer;
          flags = if is_null ops.write then bit_or flags read_only else flags;
          magic = device_magic;
        },
      )

  -- `ns_block_device_init`: the result and what `*device` then holds; `old` is what it held.
  pub device_init : Option (Ops S) → ℕ → ℕ → ℕ → ℕ → Device S → ℤ × Device S
  unfolding init_with
  device_init none sector_size sector_count max_transfer flags old = (einval, old)
  device_init (some ops) sector_size sector_count max_transfer flags old =
      init_with ops sector_size sector_count max_transfer flags old

  -- `ns_block_device_reset`
  pub device_reset : Device S
  device_reset = record {
    ops = none;
    sector_count = 0;
    sector_size = 0;
    max_transfer_sectors = 0;
    flags = 0;
    magic = 0;
  }

  valid_with : Ops S → Device S → Bool
  valid_with ops d =
      if is_null ops.read
        || not (is_power_of_two d.sector_size)
        || (d.sector_count == 0)
        || has d.flags unknown_flags
      then false
      else if has d.flags volatile_write_cache && is_null ops.flush
      then false
      else if is_null ops.write && not (has d.flags read_only)
      then false
      else true

  -- `ns_block_device_is_valid`
  pub is_valid : Option (Device S) → Bool
  unfolding valid_with
  is_valid none = false
  is_valid (some d) =
      if not (d.magic == device_magic)
      then false
      else elim d.ops [ none ↦ false | some ops ↦ valid_with ops d ]

  range_of : Device S → ℕ → ℕ → ℤ × ℕ
  range_of d first count =
      if not (count == 0) && ltb (u64_max - count) first
      then (eoverflow, 0)
      else if ltb d.sector_count first || ltb (d.sector_count - first) count
      then (erange, 0)
      else if not (d.max_transfer_sectors == 0) && ltb d.max_transfer_sectors count
      then (emsgsize, 0)
      else if ltb (u64_max / d.sector_size) count
      then (eoverflow, 0)
      else (zero_result, count * d.sector_size)

  -- `ns_block_validate_range`: the result, and the byte count that it stores on success.
  pub validate_range : Option (Device S) → ℕ → ℕ → ℤ × ℕ
  unfolding range_of
  validate_range device first count =
      if is_valid device
      then elim device [ none ↦ (enodev, 0) | some d ↦ range_of d first count ]
      else (enodev, 0)

  -- `ns_block_capacity_bytes` with a non-null `capacity_out`: the result and the capacity.
  pub capacity_bytes : Option (Device S) → ℤ × ℕ
  capacity_bytes none = (einval, 0)
  capacity_bytes (some d) =
      if not (is_valid (some d))
      then (einval, 0)
      else if ltb (u64_max / d.sector_size) d.sector_count
      then (eoverflow, 0)
      else (zero_result, d.sector_count * d.sector_size % 2 ^ 64)

  -- The driver's read, its result normalised.
  unfoldable pub call_read : Option (Ops S) → ℕ → ℕ → Option (List ℕ) → S → ℤ × Option (List ℕ) × S
  call_read none first count buffer s = (efault, buffer, s)
  call_read (some ops) first count buffer s = elim ops.read [
    | none ↦ (efault, buffer, s)
    | some driver ↦ let (r, filled, s') = driver s first count buffer in (normalize r, filled, s')
  ]

  read_checked : Device S → ℤ → ℕ → ℕ → Option (List ℕ) → S → ℤ × Option (List ℕ) × S
  read_checked d (pos zero) first count buffer s =
      if count == 0
      then (zero_result, buffer, s)
      else if is_null buffer
      then (efault, buffer, s)
      else call_read d.ops first count buffer s
  read_checked d result first count buffer s = (result, buffer, s)

  -- `ns_block_read`: the result, the buffer and the driver's state.
  pub read : Option (Device S) → ℕ → ℕ → Option (List ℕ) → S → ℤ × Option (List ℕ) × S
  read none first count buffer s = (enodev, buffer, s)
  read (some d) first count buffer s =
      read_checked d (validate_range (some d) first count).0 first count buffer s

  -- The driver's write, its result normalised.
  unfoldable pub call_write : Option (Ops S) → ℕ → ℕ → Option (List ℕ) → S → ℤ × S
  call_write none first count buffer s = (erofs, s)
  call_write (some ops) first count buffer s = elim ops.write [
    | none ↦ (erofs, s)
    | some driver ↦ let (r, s') = driver s first count buffer in (normalize r, s')
  ]

  write_checked : Device S → ℤ → ℕ → ℕ → Option (List ℕ) → S → ℤ × S
  write_checked d (pos zero) first count buffer s =
      if count == 0
      then (zero_result, s)
      else if is_null buffer
      then (efault, s)
      else if has d.flags read_only
      then (erofs, s)
      else call_write d.ops first count buffer s
  write_checked d result first count buffer s = (result, s)

  -- `ns_block_write`
  pub write : Option (Device S) → ℕ → ℕ → Option (List ℕ) → S → ℤ × S
  write none first count buffer s = (enodev, s)
  write (some d) first count buffer s =
      write_checked d (validate_range (some d) first count).0 first count buffer s

  call_flush : Option (Ops S) → S → ℤ × S
  call_flush none s = (zero_result, s)
  call_flush (some ops) s = elim ops.flush [
    | none ↦ (zero_result, s)
    | some driver ↦ let (r, s') = driver s in (normalize r, s')
  ]

  -- `ns_block_flush`
  pub flush : Option (Device S) → S → ℤ × S
  unfolding call_flush
  flush none s = (enodev, s)
  flush (some d) s = if is_valid (some d) then call_flush d.ops s else (enodev, s)
