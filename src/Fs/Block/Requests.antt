-- ===== src/Fs/Block/Requests.antt =====
-- Which requests pass the checks of kernel/fs/block.c, and what the entry points then do.
use Prim.Native.Nat.{bit_and, bit_or}
use native.Mathlib.Nat.{le_trans, mul-le-mul, le-div_iff_mul-le}
use native.Mathlib.Decide.{ℕ_discrete}
use northstar_os.Base.{
  ℕ, zero, suc, ◌+◌, ◌-◌, ◌*◌, ◌/◌, ◌^◌, ◌≤◌, ◌<◌, ◌≡◌, refl, ◌≢◌, ◌↔◌, ◌⊎◌, inl, inr, true, false,
  Option, none, some, List, arith, Bool-cases,
}
use northstar_os.Base.Bits.{mask_split, high_split}
use northstar_os.Base.Words.{u64_max}
use northstar_os.Base.Errno.{ℤ, pos, negsuc, zero_result}
use northstar_os.Fs.Block.{
  Ops, Device, is_valid, device_init, validate_range, read, read_checked, call_read, write,
  write_checked, call_write, is_null, has, read_only, unknown_flags, volatile_write_cache,
}

-- What a caller has to keep to.
pub record InRange {S : Type 0} (d : Device S) (first count : ℕ) : Type 0 where
  pub valid : is_valid (some d) ≡ true
  pub within : first + count ≤ d.sector_count
  pub transfer : (d.max_transfer_sectors ≡ 0) ⊎ (count ≤ d.max_transfer_sectors)

-- The field widths of `ns_block_device`.
pub record Widths {S : Type 0} (d : Device S) : Type 0 where
  pub count_64 : d.sector_count < 2 ^ 64
  pub size_32 : d.sector_size < 2 ^ 32

-- A `uint32_t` count of sectors of a `uint32_t` size cannot overflow `size_t`.
product_fit : (count size : ℕ) → count < 2 ^ 32 → size < 2 ^ 32 → count * size ≤ u64_max
product_fit count size h k =
    le_trans (mul-le-mul {n₂ = 2 ^ 32 - 1} {m₂ = 2 ^ 32 - 1} (omega arith) (omega arith))
      (omega arith)

bytes_fit : (count size : ℕ) → count < 2 ^ 32 → size < 2 ^ 32 → size ≢ 0 → count ≤ u64_max / size
bytes_fit count size h k nz = (le-div_iff_mul-le (omega arith)).1 (product_fit count size h k)

module _ {S : Type 0} (d : Device S) where
  valid-size : is_valid (some d) ≡ true → d.sector_size ≢ 0
  unfolding is_valid
  valid-size h = ground arith

  -- A request with numbers of the C types passes the validation exactly if the device is valid, the
  -- request ends within it, and it is no longer than the largest transfer.
  pub validate_range-InRange :
      (first count : ℕ)
      → Widths d
      → first < 2 ^ 64
      → count < 2 ^ 32
      → ((validate_range (some d) first count).0 ≡ zero_result) ↔ InRange d first count
  unfolding validate_range
  validate_range-InRange first count w hf hc = (
    λ e. record { valid = ground arith; within = ground arith; transfer = ground arith },
    λ r. ground (arith, bytes_fit count d.sector_size hc w.size_32 (valid-size r.valid)),
  )

  -- The byte count that comes with success is the exact product, and fits a `size_t`.
  pub validate_range-bytes :
      (first count : ℕ)
      → Widths d
      → count < 2 ^ 32
      → (validate_range (some d) first count).0 ≡ zero_result
      → ((validate_range (some d) first count).1 ≡ count * d.sector_size)
        × (count * d.sector_size < 2 ^ 64)
  unfolding validate_range
  validate_range-bytes first count w hc e =
      (ground arith, omega (arith, product_fit count d.sector_size hc w.size_32))

-- A device with another driver.
abbrev pub with_ops : {S : Type 0} → Device S → Ops S → Device S
with_ops d o = record d { ops = some o }

-- The requests that the driver of a device may see.
abbrev pub Admissible : {S : Type 0} → Device S → ℕ → ℕ → Type 0
Admissible d first count =
    (count ≢ 0)
    × (first + count ≤ d.sector_count)
    × ((d.max_transfer_sectors ≡ 0) ⊎ (count ≤ d.max_transfer_sectors))

-- Two drivers that lack the same operations.
pub record SameShape {S : Type 0} (o₁ o₂ : Ops S) : Type 0 where
  pub reads : is_null o₁.read ≡ is_null o₂.read
  pub writes : is_null o₁.write ≡ is_null o₂.write
  pub flushes : is_null o₁.flush ≡ is_null o₂.flush

module _ {S : Type 0} (d : Device S) (o₁ o₂ : Ops S) (same : SameShape o₁ o₂) (w : Widths d) where
  pub same_is_valid : is_valid (some (with_ops d o₁)) ≡ is_valid (some (with_ops d o₂))
  unfolding is_valid
  same_is_valid = rw (same.reads, same.writes, same.flushes)

  same_validity :
      (first count : ℕ)
      → validate_range (some (with_ops d o₁)) first count
        ≡ validate_range (some (with_ops d o₂)) first count
  unfolding validate_range is_valid
  same_validity first count = rw (same.reads, same.writes, same.flushes)

  admitted :
      (first count : ℕ)
      → first < 2 ^ 64
      → count < 2 ^ 32
      → count ≢ 0
      → (validate_range (some (with_ops d o₁)) first count).0 ≡ zero_result
      → Admissible d first count
  admitted first count hf hc nz e =
      let v : InRange (with_ops d o₁) first count =
        (validate_range-InRange (with_ops d o₁) first count
            (record { count_64 = w.count_64; size_32 = w.size_32 }) hf hc).0
          e in
      (nz, v.within, v.transfer)

  -- Two drivers that agree on a request if it is admissible cannot be told apart by passing it to
  -- `ns_block_read`.
  pub read_in_range :
      (first count : ℕ) (buffer : Option (List ℕ)) (s : S)
      → (Admissible d first count
          → call_read (some o₁) first count buffer s ≡ call_read (some o₂) first count buffer s)
      → first < 2 ^ 64
      → count < 2 ^ 32
      → read (some (with_ops d o₁)) first count buffer s
        ≡ read (some (with_ops d o₂)) first count buffer s
  unfolding read read_checked
  read_in_range first count buffer s agree hf hc =
      rw (← same_validity first count)
        (go (validate_range (some (with_ops d o₁)) first count).0 refl)
    where
      go :
          (z : ℤ)
          → (validate_range (some (with_ops d o₁)) first count).0 ≡ z
          → read_checked (with_ops d o₁) z first count buffer s
            ≡ read_checked (with_ops d o₂) z first count buffer s
      go (pos zero) e = elim (ℕ_discrete count 0) [
        | yes z ↦ rw z
        | no nz ↦ rw (agree (admitted first count hf hc nz e))
      ]
      go (pos (suc n)) e = refl
      go (negsuc n) e = refl

  -- Two drivers that agree on a request if it is admissible and the device writable cannot be told
  -- apart by passing it to `ns_block_write`.
  pub write_in_range :
      (first count : ℕ) (buffer : Option (List ℕ)) (s : S)
      → (Admissible d first count
          → has d.flags read_only ≡ false
          → call_write (some o₁) first count buffer s ≡ call_write (some o₂) first count buffer s)
      → first < 2 ^ 64
      → count < 2 ^ 32
      → write (some (with_ops d o₁)) first count buffer s
        ≡ write (some (with_ops d o₂)) first count buffer s
  unfolding write write_checked
  write_in_range first count buffer s agree hf hc =
      rw (← same_validity first count)
        (go (validate_range (some (with_ops d o₁)) first count).0 refl)
    where
      go :
          (z : ℤ)
          → (validate_range (some (with_ops d o₁)) first count).0 ≡ z
          → write_checked (with_ops d o₁) z first count buffer s
            ≡ write_checked (with_ops d o₂) z first count buffer s
      go (pos zero) e = elim (ℕ_discrete count 0) [
        | yes z ↦ rw z
        | no nz ↦ elim (Bool-cases (has d.flags read_only)) [
          | inl closed ↦ rw closed
          | inr open_ ↦ rw (agree (admitted first count hf hc nz e) open_)
        ]
      ]
      go (pos (suc n)) e = refl
      go (negsuc n) e = refl

-- Below 32 bits, only the three known flags pass the test for unknown ones.
known_flags : (flags : ℕ) → flags < 2 ^ 32 → has flags unknown_flags ≡ false → flags < 8
known_flags flags h e =
    omega (arith, high_split 32 3 flags (omega arith) h, mask_split 3 flags, fact)
  where
    fact : bit_and flags unknown_flags ≡ 0
    fact = ground arith

read_only_flag :
    (flags : ℕ)
    → flags < 8
    → (has (bit_or flags read_only) unknown_flags ≡ false)
      × (has (bit_or flags read_only) read_only ≡ true)
      × (has (bit_or flags read_only) volatile_write_cache ≡ has flags volatile_write_cache)
read_only_flag zero h = (refl, refl, refl)
read_only_flag (suc zero) h = (refl, refl, refl)
read_only_flag (suc (suc zero)) h = (refl, refl, refl)
read_only_flag (suc (suc (suc zero))) h = (refl, refl, refl)
read_only_flag (suc (suc (suc (suc zero)))) h = (refl, refl, refl)
read_only_flag (suc (suc (suc (suc (suc zero))))) h = (refl, refl, refl)
read_only_flag (suc (suc (suc (suc (suc (suc zero)))))) h = (refl, refl, refl)
read_only_flag (suc (suc (suc (suc (suc (suc (suc zero))))))) h = (refl, refl, refl)
read_only_flag (suc (suc (suc (suc (suc (suc (suc (suc k)))))))) h = absurd (omega arith)

module _ {S : Type 0} where
  -- `ns_block_device_init` succeeds only with a device that `ns_block_device_is_valid` accepts.
  pub device_init-is_valid :
      (o : Option (Ops S)) (size count transfer flags : ℕ) (old : Device S)
      → flags < 2 ^ 32
      → (device_init o size count transfer flags old).0 ≡ zero_result
      → is_valid (some (device_init o size count transfer flags old).1) ≡ true
  unfolding device_init is_valid
  device_init-is_valid none size count transfer flags old h e = cc
  device_init-is_valid (some o) size count transfer flags old h e =
      ground (arith, known_flags flags h, read_only_flag flags)
