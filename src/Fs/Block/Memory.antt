-- ===== src/Fs/Block/Memory.antt =====
-- kernel/fs/block_mem.c: a block device in memory with an injected fault, as a driver of
-- kernel/fs/block.c. The data is a list of bytes, which is empty for a null pointer. The geometry that
-- the driver reads through its device stands with the data; the device itself is beside it. An operation
-- is one critical section.
pub mod Contents
mod Tests
use Prim.Native.Nat.{bit_and}
use northstar_os.Base.{
  ℕ, zero, suc, ◌+◌, ◌-◌, ◌*◌, ◌/◌, ◌%◌, ◌^◌, Bool, true, false, not, ◌&&◌, ◌||◌, Option, none,
  some, List, [], ◌∷◌, ◌++◌, take, drop, ltb, leb, ◌==◌, if◌then◌else◌,
}
use northstar_os.Base.Words.{u64_max, add64, mul64, is_power_of_two}
use northstar_os.Base.Errno.{ℤ, pos, negsuc, zero_result, einval, eoverflow, erange}
use northstar_os.Fs.Block.{
  Ops, Device, has, volatile_write_cache, unknown_flags, device_init, device_reset, is_valid,
}

-- `ns_mem_block_fault`
pub record Fault : Type 0 where
  pub operation_mask : ℕ
  pub error : ℤ
  pub first_sector : ℕ
  pub sector_count : ℕ
  pub pass_count : ℕ
  pub fail_count : ℕ

-- `ns_mem_block_stats`
pub record MemStats : Type 0 where
  pub read_calls : ℕ
  pub write_calls : ℕ
  pub flush_calls : ℕ
  pub sectors_read : ℕ
  pub sectors_written : ℕ
  pub bytes_read : ℕ
  pub bytes_written : ℕ
  pub failed_reads : ℕ
  pub failed_writes : ℕ
  pub failed_flushes : ℕ
  pub fault_matches : ℕ
  pub injected_failures : ℕ

-- `ns_mem_block`
pub record MemBlock : Type 0 where
  pub contents : List ℕ
  pub byte_count : ℕ
  pub sector_size : ℕ
  pub sector_count : ℕ
  pub fault : Fault
  pub stats : MemStats
  pub magic : ℕ

abbrev pub mem_block_magic : ℕ
mem_block_magic = 0x4e534d42

abbrev pub fault_read : ℕ
fault_read = 1

abbrev pub fault_write : ℕ
fault_write = 2

abbrev pub fault_flush : ℕ
fault_flush = 4

-- `~NS_MEM_BLOCK_FAULT_ALL` as a `uint32_t`.
abbrev pub unknown_faults : ℕ
unknown_faults = 2 ^ 32 - 1 - 7

abbrev pub no_fault : Fault
no_fault = record {
  operation_mask = 0;
  error = zero_result;
  first_sector = 0;
  sector_count = 0;
  pass_count = 0;
  fail_count = 0;
}

abbrev pub no_calls : MemStats
no_calls = record {
  read_calls = 0;
  write_calls = 0;
  flush_calls = 0;
  sectors_read = 0;
  sectors_written = 0;
  bytes_read = 0;
  bytes_written = 0;
  failed_reads = 0;
  failed_writes = 0;
  failed_flushes = 0;
  fault_matches = 0;
  injected_failures = 0;
}

-- `ns_saturating_add_u64`
abbrev pub saturating_add : ℕ → ℕ → ℕ
saturating_add a b = if ltb (u64_max - b) a then u64_max else a + b

abbrev pub ranges_overlap : ℕ → ℕ → ℕ → ℕ → Bool
ranges_overlap first_a count_a first_b count_b =
    ltb first_a (add64 first_b count_b) && ltb first_b (add64 first_a count_a)

abbrev pub fault_matches_request : Fault → ℕ → ℕ → ℕ → Bool
fault_matches_request f operation first count =
    if bit_and f.operation_mask operation == 0
    then false
    else if (operation == fault_flush) || (f.sector_count == 0)
    then true
    else ranges_overlap first count f.first_sector f.sector_count

-- A fault that has a failure left, or is out of them.
abbrev pub inject : MemBlock → ℤ × MemBlock
inject m =
    if not (m.fault.pass_count == 0)
    then (zero_result, record m { fault = record m.fault { pass_count = m.fault.pass_count - 1 } })
    else if m.fault.fail_count == 0
    then (zero_result, m)
    else (
      m.fault.error,
      record m {
        fault = record m.fault {
          fail_count =
              if not (m.fault.fail_count == u64_max)
              then m.fault.fail_count - 1
              else m.fault.fail_count;
        };
        stats = record m.stats { injected_failures = saturating_add m.stats.injected_failures 1 };
      },
    )

-- `ns_mem_maybe_fail`
pub maybe_fail : MemBlock → ℕ → ℕ → ℕ → ℤ × MemBlock
maybe_fail m operation first count =
    if not (fault_matches_request m.fault operation first count)
    then (zero_result, m)
    else inject (record m {
      stats = record m.stats { fault_matches = saturating_add m.stats.fault_matches 1 };
    })

-- The bytes of a buffer. The generic device calls no driver with a null one.
abbrev pub bytes_of : Option (List ℕ) → List ℕ
bytes_of none = []
bytes_of (some bytes) = bytes

-- `ns_copy_bytes` of `n` bytes to a place in a list.
abbrev pub splice : List ℕ → ℕ → List ℕ → ℕ → List ℕ
splice old offset bytes n = take offset old ++ (take n bytes ++ drop (offset + n) old)

abbrev pub offset_of : MemBlock → ℕ → ℕ
offset_of m first = mul64 first m.sector_size

-- A call is counted.
abbrev pub read_called : MemBlock → MemBlock
read_called m = record m {
  stats = record m.stats { read_calls = saturating_add m.stats.read_calls 1 };
}

abbrev pub write_called : MemBlock → MemBlock
write_called m = record m {
  stats = record m.stats { write_calls = saturating_add m.stats.write_calls 1 };
}

abbrev pub flush_called : MemBlock → MemBlock
flush_called m = record m {
  stats = record m.stats { flush_calls = saturating_add m.stats.flush_calls 1 };
}

-- `ns_mem_read` and `ns_mem_write`, with the outcome of the fault.
abbrev pub read_after : ℕ → ℕ → Option (List ℕ) → ℤ × MemBlock → ℤ × Option (List ℕ) × MemBlock
read_after first count buffer (pos zero, m) = (
  zero_result,
  some (splice (bytes_of buffer) 0 (drop (offset_of m first) m.contents) (offset_of m count)),
  record m {
    stats = record m.stats {
      sectors_read = saturating_add m.stats.sectors_read count;
      bytes_read = saturating_add m.stats.bytes_read (offset_of m count);
    };
  },
)
read_after first count buffer (error, m) = (
  error,
  buffer,
  record m { stats = record m.stats { failed_reads = saturating_add m.stats.failed_reads 1 } },
)

pub mem_read : MemBlock → ℕ → ℕ → Option (List ℕ) → ℤ × Option (List ℕ) × MemBlock
mem_read m first count buffer =
    read_after first count buffer (maybe_fail (read_called m) fault_read first count)

abbrev pub write_after : ℕ → ℕ → Option (List ℕ) → ℤ × MemBlock → ℤ × MemBlock
write_after first count buffer (pos zero, m) = (
  zero_result,
  record m {
    contents = splice m.contents (offset_of m first) (bytes_of buffer) (offset_of m count);
    stats = record m.stats {
      sectors_written = saturating_add m.stats.sectors_written count;
      bytes_written = saturating_add m.stats.bytes_written (offset_of m count);
    };
  },
)
write_after first count buffer (error, m) = (
  error,
  record m { stats = record m.stats { failed_writes = saturating_add m.stats.failed_writes 1 } },
)

pub mem_write : MemBlock → ℕ → ℕ → Option (List ℕ) → ℤ × MemBlock
mem_write m first count buffer =
    write_after first count buffer (maybe_fail (write_called m) fault_write first count)

abbrev pub flush_after : ℤ × MemBlock → ℤ × MemBlock
flush_after (pos zero, m) = (zero_result, m)
flush_after (error, m) = (
  error,
  record m { stats = record m.stats { failed_flushes = saturating_add m.stats.failed_flushes 1 } },
)

pub mem_flush : MemBlock → ℤ × MemBlock
mem_flush m = flush_after (maybe_fail (flush_called m) fault_flush 0 0)

-- `ns_mem_block_ops`
abbrev pub mem_ops : Ops MemBlock
mem_ops = record { read = some mem_read; write = some mem_write; flush = some mem_flush }

-- `ns_mem_block_reset_fields`
abbrev pub reset_fields : MemBlock
reset_fields = record {
  contents = [];
  byte_count = 0;
  sector_size = 0;
  sector_count = 0;
  fault = no_fault;
  stats = no_calls;
  magic = 0;
}

-- The arguments that `ns_mem_block_finish_init` refuses; `backing` is not null.
abbrev pub finish_refuses : ℕ → ℕ → ℕ → Bool
finish_refuses backing_bytes sector_size flags =
    (backing_bytes == 0)
    || not (is_power_of_two sector_size)
    || not (backing_bytes % sector_size == 0)
    || has flags unknown_flags
    || has flags volatile_write_cache
    || (backing_bytes / sector_size == 0)

-- The end of it, with the result of the device's own initialisation.
abbrev pub finished : List ℕ → ℕ → ℕ → ℤ × Device MemBlock → ℤ × Device MemBlock × MemBlock
finished backing backing_bytes sector_size (pos zero, device) = (
  zero_result,
  device,
  record reset_fields {
    contents = backing;
    byte_count = backing_bytes;
    sector_size = device.sector_size;
    sector_count = device.sector_count;
    magic = mem_block_magic;
  },
)
finished backing backing_bytes sector_size (error, device) = (error, device_reset, reset_fields)

-- `ns_mem_block_init_borrowed`
pub init_borrowed : List ℕ → ℕ → ℕ → ℕ → ℤ × Device MemBlock × MemBlock
init_borrowed backing backing_bytes sector_size flags =
    if finish_refuses backing_bytes sector_size flags
    then (einval, device_reset, reset_fields)
    else finished backing backing_bytes sector_size
        (device_init (some mem_ops) sector_size (backing_bytes / sector_size) 0 flags device_reset)

-- `ns_mem_block_valid`. That the device is the one of this memory and has its driver is taken to hold.
abbrev pub mem_block_valid : Device MemBlock → MemBlock → Bool
mem_block_valid d m =
    (m.magic == mem_block_magic)
    && not (elim m.contents [ [] ↦ true | x ∷ rest ↦ false ])
    && not (m.byte_count == 0)
    && is_valid (some d)

abbrev pub clear_fault : Device MemBlock → MemBlock → MemBlock
clear_fault d m = if not (mem_block_valid d m) then m else record m { fault = no_fault }

abbrev pub is_negative : ℤ → Bool
is_negative (pos n) = false
is_negative (negsuc n) = true

-- `ns_mem_block_set_fault`
pub set_fault : Device MemBlock → MemBlock → Fault → ℤ × MemBlock
set_fault d m f =
    if not (mem_block_valid d m)
    then (einval, m)
    else if has f.operation_mask unknown_faults
    then (einval, m)
    else if f.operation_mask == 0
    then (zero_result, clear_fault d m)
    else if not (is_negative f.error)
    then (einval, m)
    else if not (f.sector_count == 0) && ltb (u64_max - f.sector_count) f.first_sector
    then (eoverflow, m)
    else if not (f.sector_count == 0)
        && (leb m.sector_count f.first_sector
            || ltb (m.sector_count - f.first_sector) f.sector_count)
    then (erange, m)
    else (zero_result, record m { fault = f })

abbrev pub reset_stats : Device MemBlock → MemBlock → ℤ × MemBlock
reset_stats d m =
    if not (mem_block_valid d m) then (einval, m) else (zero_result, record m { stats = no_calls })
