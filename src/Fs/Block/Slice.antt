-- ===== src/Fs/Block/Slice.antt =====
-- kernel/fs/block_slice.c: a device that is a range of sectors of another one. A slice is the driver
-- of its own device; the state that the driver works on is the parent's.
pub mod Confinement
use Prim.Native.Nat.{bit_or}
use northstar_os.Base.{
  ℕ, ◌+◌, ◌-◌, ◌^◌, not, ◌||◌, Option, none, some, List, ltb, leb, ◌==◌, if◌then◌else◌,
}
use northstar_os.Base.Words.{u64_max}
use northstar_os.Base.Errno.{ℤ, einval, eoverflow, erange}
use northstar_os.Fs.Block.{
  Ops, Device, has, is_valid, device_init, device_reset, read, write, flush,
}

-- `ns_block_slice`
pub record Slice (S : Type 0) : Type 0 where
  pub device : Device S
  pub parent : Option (Device S)
  pub first_sector : ℕ

-- `~NS_BLOCK_F_READ_ONLY` as a `uint32_t`
abbrev pub not_read_only : ℕ
not_read_only = 2 ^ 32 - 1 - 1

module _ {S : Type 0} where
  -- `ns_slice_read`
  pub slice_read : Option (Device S) → ℕ → S → ℕ → ℕ → Option (List ℕ) → ℤ × Option (List ℕ) × S
  slice_read parent base s first count buffer =
      if ltb (u64_max - first) base
      then (eoverflow, buffer, s)
      else read parent (base + first) count buffer s

  -- `ns_slice_write`
  pub slice_write : Option (Device S) → ℕ → S → ℕ → ℕ → Option (List ℕ) → ℤ × S
  slice_write parent base s first count buffer =
      if ltb (u64_max - first) base
      then (eoverflow, s)
      else write parent (base + first) count buffer s

  -- `ns_slice_ops`, over the slice that is their context; `ns_slice_flush` is the flush.
  unfoldable pub slice_ops : Option (Device S) → ℕ → Ops S
  slice_ops parent base = record {
    read = some (slice_read parent base);
    write = some (slice_write parent base);
    flush = some (flush parent);
  }

  -- `ns_block_slice_init` with a non-null `slice`: the result and what `*slice` then holds.
  unfoldable pub slice_init : Option (Device S) → ℕ → ℕ → ℕ → Slice S → ℤ × Slice S
  slice_init none first count slice_flags old = (einval, old)
  slice_init (some parent) first count slice_flags old =
      if not (is_valid (some parent)) || (count == 0) || has slice_flags not_read_only
      then (einval, old)
      else if ltb (u64_max - count) first
      then (eoverflow, old)
      else if leb parent.sector_count first || ltb (parent.sector_count - first) count
      then (erange, old)
      else let (result, device) =
          device_init (some (slice_ops (some parent) first)) parent.sector_size count
            parent.max_transfer_sectors (bit_or parent.flags slice_flags) old.device in
        (result, record { device = device; parent = some parent; first_sector = first })

  -- `ns_block_slice_reset`
  pub slice_reset : Slice S
  slice_reset = record { device = device_reset; parent = none; first_sector = 0 }
