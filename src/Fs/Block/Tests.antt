-- ===== src/Fs/Block/Tests.antt =====
-- Requests to a device of 64 sectors (kernel/fs/block.c), and to a slice of it
-- (kernel/fs/block_slice.c). A driver answers with its state, and counts its calls there.
use northstar_os.Base.{
  ℕ, ◌+◌, ◌≡◌, refl, ◌↔◌, true, Option, none, some, List, [], ◌∷◌, arith, if◌then◌else◌, leb, ◌&&◌,
}
use northstar_os.Base.Errno.{zero_result, eio}
use northstar_os.Fs.Block.{
  Ops, Device, device_magic, is_valid, valid_with, validate_range, read, write, call_read,
  call_write, device_init, init_with,
}
use northstar_os.Fs.Block.Requests.{
  InRange, Widths, SameShape, with_ops, validate_range-InRange, device_init-is_valid,
}
use northstar_os.Fs.Block.Slice.{Slice, slice_init, slice_ops}
use northstar_os.Fs.Block.Slice.Confinement.{Inside, slice_read_confined, slice_write_confined}

-- A driver that serves every request.
abbrev plain_driver : Ops ℕ
plain_driver = record {
  read = some (λ s first count buffer. (zero_result, some (s ∷ []), s + 1));
  write = some (λ s first count buffer. (zero_result, s + 1));
  flush = none;
}

-- One that fails outside sectors 16 to 23.
abbrev guarded_driver : Ops ℕ
guarded_driver = record {
  read = some (λ s first count buffer.
      if leb 16 first && leb (first + count) 24
      then (zero_result, some (s ∷ []), s + 1)
      else (eio, buffer, s + 100));
  write = some (λ s first count buffer.
      if leb 16 first && leb (first + count) 24 then (zero_result, s + 1) else (eio, s + 100));
  flush = none;
}

abbrev disk : Device ℕ
disk = record {
  ops = some plain_driver;
  sector_count = 64;
  sector_size = 512;
  max_transfer_sectors = 8;
  flags = 0;
  magic = device_magic;
}

abbrev no_slice : Slice ℕ
no_slice = record {
  device = record {
    ops = none;
    sector_count = 0;
    sector_size = 0;
    max_transfer_sectors = 0;
    flags = 0;
    magic = 0;
  };
  parent = none;
  first_sector = 0;
}

disk-Widths : Widths disk
disk-Widths = record { count_64 = omega arith; size_32 = omega arith }

alike : SameShape plain_driver guarded_driver
alike = record { reads = refl; writes = refl; flushes = refl }

validate_range-InRange_example :
    ((validate_range (some disk) 60 4).0 ≡ zero_result) ↔ InRange disk 60 4
validate_range-InRange_example =
    validate_range-InRange disk 60 4 disk-Widths (omega arith) (omega arith)

past_end : (validate_range (some disk) 60 5).0 ≡ zero_result → InRange disk 60 5
past_end = (validate_range-InRange disk 60 5 disk-Widths (omega arith) (omega arith)).0

initialised : (device_init (some plain_driver) 512 64 8 0 disk).0 ≡ zero_result
unfolding device_init init_with
initialised = refl

device_init-is_valid_example :
    is_valid (some (device_init (some plain_driver) 512 64 8 0 disk).1) ≡ true
device_init-is_valid_example =
    device_init-is_valid (some plain_driver) 512 64 8 0 disk (omega arith) initialised

-- The slice of sectors 16 to 23.
sliced : (slice_init (some (with_ops disk plain_driver)) 16 8 0 no_slice).0 ≡ zero_result
unfolding slice_init slice_ops device_init init_with is_valid valid_with
sliced = refl

same_read :
    (f : ℕ) (b : Option (List ℕ)) (s : ℕ)
    → Inside 16 8 (16 + f) 4
    → call_read (some plain_driver) (16 + f) 4 b s ≡ call_read (some guarded_driver) (16 + f) 4 b s
unfolding call_read
same_read f b s (lo, hi, nz) =
    let t : (leb 16 (16 + f) && leb (16 + f + 4) 24) ≡ true = ground arith in rw t refl

same_write :
    (f : ℕ) (b : Option (List ℕ)) (s : ℕ)
    → Inside 16 8 (16 + f) 4
    → call_write (some plain_driver) (16 + f) 4 b s
      ≡ call_write (some guarded_driver) (16 + f) 4 b s
unfolding call_write
same_write f b s (lo, hi, nz) =
    let t : (leb 16 (16 + f) && leb (16 + f + 4) 24) ≡ true = ground arith in rw t refl

slice_read_confined_example :
    read
      (some (slice_init (some (with_ops disk plain_driver)) 16 8 0 no_slice).1.device)
      4
      4
      (some [])
      7
    ≡ read
        (some (slice_init (some (with_ops disk guarded_driver)) 16 8 0 no_slice).1.device)
        4
        4
        (some [])
        7
slice_read_confined_example =
    slice_read_confined disk plain_driver guarded_driver 16 8 0 no_slice alike disk-Widths sliced 4
      4 (some []) 7 (same_read 4 (some []) 7) (omega arith) (omega arith) (omega arith)

slice_write_confined_example :
    write
      (some (slice_init (some (with_ops disk plain_driver)) 16 8 0 no_slice).1.device)
      4
      4
      (some [])
      7
    ≡ write
        (some (slice_init (some (with_ops disk guarded_driver)) 16 8 0 no_slice).1.device)
        4
        4
        (some [])
        7
slice_write_confined_example =
    slice_write_confined disk plain_driver guarded_driver 16 8 0 no_slice alike disk-Widths sliced 4
      4 (some []) 7 (λ i _. same_write 4 (some []) 7 i) (omega arith) (omega arith) (omega arith)
