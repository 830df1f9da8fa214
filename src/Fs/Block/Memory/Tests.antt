-- ===== src/Fs/Block/Memory/Tests.antt =====
-- Runs of the memory device of kernel/fs/block_mem.c with two sectors of four bytes.
use northstar_os.Base.{◌≡◌, ◌≢◌, refl, inl, some, [], ◌∷◌, arith}
use northstar_os.Base.Errno.{zero_result, eio, erange}
use northstar_os.Fs.Block.{Device, device_magic, is_valid, read, write, device_init}
use northstar_os.Fs.Block.Requests.{InRange}
use northstar_os.Fs.Block.Memory.{
  MemBlock, Fault, mem_block_magic, mem_ops, no_fault, no_calls, mem_write, mem_flush, maybe_fail,
  init_borrowed, set_fault,
}
use northstar_os.Fs.Block.Memory.Contents.{Backed, read-write, mem_write-failed}

abbrev small : MemBlock
small = record {
  contents = 1 ∷ 2 ∷ 3 ∷ 4 ∷ 5 ∷ 6 ∷ 7 ∷ 8 ∷ [];
  byte_count = 8;
  sector_size = 4;
  sector_count = 2;
  fault = no_fault;
  stats = no_calls;
  magic = mem_block_magic;
}

abbrev small_device : Device MemBlock
small_device = record {
  ops = some mem_ops;
  sector_count = 2;
  sector_size = 4;
  max_transfer_sectors = 0;
  flags = 0;
  magic = device_magic;
}

abbrev once : Fault
once = record {
  operation_mask = 2;
  error = eio;
  first_sector = 1;
  sector_count = 1;
  pass_count = 0;
  fail_count = 1;
}

abbrev faulty : MemBlock
faulty = record small { fault = once }

init_run : (init_borrowed small.contents 8 4 0).0 ≡ zero_result
unfolding init_borrowed device_init
init_run = refl

fault_run :
    ((mem_write faulty 0 1 (some (9 ∷ 9 ∷ 9 ∷ 9 ∷ []))).0 ≡ zero_result)
    × ((mem_write faulty 1 1 (some (9 ∷ 9 ∷ 9 ∷ 9 ∷ []))).0 ≡ eio)
    × ((set_fault small_device small (record once { sector_count = 2 })).0 ≡ erange)
    × ((mem_flush faulty).0 ≡ zero_result)
unfolding mem_write maybe_fail set_fault mem_flush is_valid
fault_run = (refl, refl, refl, refl)

small-Backed : Backed small_device small
small-Backed = record {
  driven = refl;
  writable = refl;
  widths = record { count_64 = omega arith; size_32 = omega arith };
  same_size = refl;
  sized = refl;
  addressable = omega arith;
  quiet = refl;
}

small-InRange : InRange small_device 1 1
unfolding is_valid
small-InRange = record { valid = refl; within = omega arith; transfer = inl refl }

read_write_example :
    ((write (some small_device) 1 1 (some (9 ∷ 8 ∷ 7 ∷ 6 ∷ [])) small).0 ≡ zero_result)
    × ((read
          (some small_device)
          1
          1
          (some (0 ∷ 0 ∷ 0 ∷ 0 ∷ []))
          (write (some small_device) 1 1 (some (9 ∷ 8 ∷ 7 ∷ 6 ∷ [])) small).1).0
        ≡ zero_result)
    × ((read
          (some small_device)
          1
          1
          (some (0 ∷ 0 ∷ 0 ∷ 0 ∷ []))
          (write (some small_device) 1 1 (some (9 ∷ 8 ∷ 7 ∷ 6 ∷ [])) small).1).1
        ≡ some (9 ∷ 8 ∷ 7 ∷ 6 ∷ []))
read_write_example =
    read-write small_device small 1 1 (9 ∷ 8 ∷ 7 ∷ 6 ∷ []) (0 ∷ 0 ∷ 0 ∷ 0 ∷ []) small-Backed
      small-InRange (omega arith) (omega arith) (omega arith) refl refl

fault_differs : (mem_write faulty 1 1 (some (9 ∷ 9 ∷ 9 ∷ 9 ∷ []))).0 ≢ zero_result
unfolding mem_write maybe_fail
fault_differs = λ e. cc

failed_example : (mem_write faulty 1 1 (some (9 ∷ 9 ∷ 9 ∷ 9 ∷ []))).1.contents ≡ faulty.contents
failed_example = mem_write-failed faulty 1 1 (some (9 ∷ 9 ∷ 9 ∷ 9 ∷ [])) fault_differs
