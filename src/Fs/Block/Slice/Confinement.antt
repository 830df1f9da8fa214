-- ===== src/Fs/Block/Slice/Confinement.antt =====
-- A slice never reaches its parent's driver outside its own sectors (kernel/fs/block_slice.c).
use Prim.Native.Nat.{bit_or}
use northstar_os.Base.{
  ℕ, ◌+◌, ◌-◌, ◌^◌, ◌≤◌, ◌<◌, ◌≡◌, refl, sym, ap, ◌∙◌, ◌≢◌, Bool, true, false, ◌&&◌, Option, some,
  List, arith, ltb, leb, ◌==◌,
}
use northstar_os.Base.Words.{u64_max, is_power_of_two}
use northstar_os.Base.Errno.{zero_result}
use northstar_os.Fs.Block.{
  Ops, Device, device_magic, unknown_flags, normalize, is_valid, device_init, call_read, call_write,
  read, write, has, read_only,
}
use northstar_os.Fs.Block.Slice.{
  Slice, not_read_only, slice_init, slice_ops, slice_read, slice_write,
}
use northstar_os.Fs.Block.Requests.{
  Widths, SameShape, Admissible, with_ops, same_is_valid, read_in_range, write_in_range,
}

-- Requests that stay inside the slice's range of the parent.
abbrev pub Inside : ℕ → ℕ → ℕ → ℕ → Type 0
Inside base count first n = (base ≤ first) × (first + n ≤ base + count) × (n ≢ 0)

and_false : (b : Bool) → (b && false) ≡ false
and_false true = refl
and_false false = refl

module _ {S : Type 0} where
  -- The tests of `ns_block_slice_init`, and of the `ns_block_device_init` that it calls.
  record Passes (parent : Device S) (first count flags : ℕ) : Type 0 where
    valid : is_valid (some parent) ≡ true
    nonempty : (count == 0) ≡ false
    known : has flags not_read_only ≡ false
    no_wrap : ltb (u64_max - count) first ≡ false
    starts : leb parent.sector_count first ≡ false
    fits : ltb (parent.sector_count - first) count ≡ false
    power : is_power_of_two parent.sector_size ≡ true
    flags_known : has (bit_or parent.flags flags) unknown_flags ≡ false

  slice_init-Passes :
      (parent : Device S) (first count flags : ℕ) (old : Slice S)
      → (slice_init (some parent) first count flags old).0 ≡ zero_result
      → Passes parent first count flags
  unfolding slice_init device_init
  slice_init-Passes parent first count flags old e = record {
    valid = ground arith;
    nonempty = ground arith;
    known = ground arith;
    no_wrap = ground arith;
    starts = ground arith;
    fits = ground arith;
    power = ground arith;
    flags_known = ground arith;
  }

  -- What a successful `ns_block_slice_init` has set up.
  abbrev pub slice_of : Device S → ℕ → ℕ → ℕ → Slice S
  slice_of parent first count flags = record {
    device = record {
      ops = some (slice_ops (some parent) first);
      sector_count = count;
      sector_size = parent.sector_size;
      max_transfer_sectors = parent.max_transfer_sectors;
      flags = bit_or parent.flags flags;
      magic = device_magic;
    };
    parent = some parent;
    first_sector = first;
  }

  slice_of-Passes :
      (parent : Device S) (first count flags : ℕ) (old : Slice S)
      → Passes parent first count flags
      → slice_init (some parent) first count flags old
        ≡ (zero_result, slice_of parent first count flags)
  unfolding slice_init device_init slice_ops
  slice_of-Passes parent first count flags old p =
      rw (
        p.valid, p.nonempty, p.known, p.no_wrap, p.starts, p.fits, p.power, p.flags_known,
        and_false,
      )

  Passes-room :
      {parent : Device S} {first count flags : ℕ}
      → Passes parent first count flags
      → first + count ≤ parent.sector_count
  Passes-room p = ground (arith, p.starts, p.fits)

-- One request through the slices of two parents that differ in their drivers.
module _ {S : Type 0} (parent : Device S) (o₁ o₂ : Ops S) (base count flags : ℕ) (old : Slice S)
    (same : SameShape o₁ o₂) (w : Widths parent)
    (ok : (slice_init (some (with_ops parent o₁)) base count flags old).0 ≡ zero_result) where
  first-Passes : Passes (with_ops parent o₁) base count flags
  first-Passes = slice_init-Passes (with_ops parent o₁) base count flags old ok

  second-Passes : Passes (with_ops parent o₂) base count flags
  second-Passes =
      let p = first-Passes in
      record {
        valid = sym (same_is_valid parent o₁ o₂ same w) ∙ p.valid;
        nonempty = p.nonempty;
        known = p.known;
        no_wrap = p.no_wrap;
        starts = p.starts;
        fits = p.fits;
        power = p.power;
        flags_known = p.flags_known;
      }

  abbrev sliced : Device S
  sliced = (slice_of (with_ops parent o₁) base count flags).device

  sliced-Widths : count < 2 ^ 64 → Widths sliced
  sliced-Widths hc = record { count_64 = hc; size_32 = w.size_32 }

  reads_agree :
      (f n : ℕ) (b : Option (List ℕ)) (s : S)
      → (Inside base count (base + f) n
          → call_read (some o₁) (base + f) n b s ≡ call_read (some o₂) (base + f) n b s)
      → n < 2 ^ 32
      → Admissible sliced f n
      → slice_read (some (with_ops parent o₁)) base s f n b
        ≡ slice_read (some (with_ops parent o₂)) base s f n b
  unfolding slice_read
  reads_agree f n b s agree hn (nz, within, _) =
      let room : base + count ≤ parent.sector_count = Passes-room first-Passes in
      rw (
        read_in_range parent o₁ o₂ same w (base + f) n b s
          (λ _. agree (omega arith, omega arith, nz)) (omega (arith, w.count_64)) hn)

  -- Whatever the request, reading an initialised slice takes nothing from the parent's driver but
  -- what it returns for a request inside the slice.
  pub slice_read_confined :
      (f n : ℕ) (b : Option (List ℕ)) (s : S)
      → (Inside base count (base + f) n
          → call_read (some o₁) (base + f) n b s ≡ call_read (some o₂) (base + f) n b s)
      → count < 2 ^ 64
      → f < 2 ^ 64
      → n < 2 ^ 32
      → read (some (slice_init (some (with_ops parent o₁)) base count flags old).1.device) f n b s
        ≡ read (some (slice_init (some (with_ops parent o₂)) base count flags old).1.device) f n b s
  unfolding slice_ops call_read
  slice_read_confined f n b s agree hc hf hn =
      rw
        (
          slice_of-Passes _ base count flags old first-Passes,
          slice_of-Passes _ base count flags old second-Passes,
        )
        (read_in_range sliced (slice_ops (some (with_ops parent o₁)) base)
          (slice_ops (some (with_ops parent o₂)) base)
          (record { reads = refl; writes = refl; flushes = refl }) (sliced-Widths hc) f n b s
          (λ a. ap (λ r. (normalize r.0, r.1, r.2)) (reads_agree f n b s agree hn a)) hf hn)

  writes_agree :
      (f n : ℕ) (b : Option (List ℕ)) (s : S)
      → (Inside base count (base + f) n
          → has parent.flags read_only ≡ false
          → call_write (some o₁) (base + f) n b s ≡ call_write (some o₂) (base + f) n b s)
      → n < 2 ^ 32
      → Admissible sliced f n
      → slice_write (some (with_ops parent o₁)) base s f n b
        ≡ slice_write (some (with_ops parent o₂)) base s f n b
  unfolding slice_write
  writes_agree f n b s agree hn (nz, within, _) =
      let room : base + count ≤ parent.sector_count = Passes-room first-Passes in
      rw (
        write_in_range parent o₁ o₂ same w (base + f) n b s
          (λ _ writable. agree (omega arith, omega arith, nz) writable) (omega (arith, w.count_64))
          hn)

  -- Whatever the request, writing an initialised slice asks nothing of the parent's driver but a
  -- write inside the slice, and only if the parent is writable.
  pub slice_write_confined :
      (f n : ℕ) (b : Option (List ℕ)) (s : S)
      → (Inside base count (base + f) n
          → has parent.flags read_only ≡ false
          → call_write (some o₁) (base + f) n b s ≡ call_write (some o₂) (base + f) n b s)
      → count < 2 ^ 64
      → f < 2 ^ 64
      → n < 2 ^ 32
      → write (some (slice_init (some (with_ops parent o₁)) base count flags old).1.device) f n b s
        ≡ write
            (some (slice_init (some (with_ops parent o₂)) base count flags old).1.device)
            f
            n
            b
            s
  unfolding slice_ops call_write
  slice_write_confined f n b s agree hc hf hn =
      rw
        (
          slice_of-Passes _ base count flags old first-Passes,
          slice_of-Passes _ base count flags old second-Passes,
        )
        (write_in_range sliced (slice_ops (some (with_ops parent o₁)) base)
          (slice_ops (some (with_ops parent o₂)) base)
          (record { reads = refl; writes = refl; flushes = refl }) (sliced-Widths hc) f n b s
          (λ a _. ap (λ r. (normalize r.0, r.1)) (writes_agree f n b s agree hn a)) hf hn)
