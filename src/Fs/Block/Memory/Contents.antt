-- ===== src/Fs/Block/Memory/Contents.antt =====
-- What requests to the memory device of kernel/fs/block_mem.c, through kernel/fs/block.c, do to its data.
use native.Mathlib.Nat.{add-mul, mul-le-mul_right}
use northstar_os.Base.{
  ℕ, zero, suc, ◌+◌, ◌*◌, ◌^◌, ◌≤◌, ◌<◌, ◌≡◌, ◌≢◌, refl, sym, ap, ◌∙◌, false, not, Option, some,
  List, ◌++◌, append-nil, length, take, drop, length-append, length-take, length-drop, take_of_le,
  drop_of_le, take-append_exact, drop-append_exact, ◌==◌, if_intro, arith,
}
use Prim.Native.Nat.{bit_and}
use northstar_os.Base.Bits.{bit_and_zero_left}
use northstar_os.Base.Errno.{ℤ, pos, negsuc, zero_result}
use northstar_os.Fs.Block.{
  Device, has, read_only, read, read_checked, call_read, write, write_checked, call_write,
  validate_range,
}
use northstar_os.Fs.Block.Requests.{InRange, Widths, validate_range-InRange}
use northstar_os.Fs.Block.Memory.{
  MemBlock, read_called, write_called, saturating_add, fault_matches_request, maybe_fail, splice,
  offset_of, mem_read, write_after, mem_write, mem_ops, fault_read, fault_write,
}

-- The sectors that a list of bytes holds, and a write to them.
abbrev pub sectors : List ℕ → ℕ → ℕ → List ℕ
sectors old offset n = take n (drop offset old)

splice-sectors :
    (old bytes : List ℕ) (offset n : ℕ)
    → offset + n ≤ length old
    → length bytes ≡ n
    → sectors (splice old offset bytes n) offset n ≡ bytes
splice-sectors old bytes offset n h e =
    ap (take n)
      (drop-append_exact offset (take offset old) _ (omega (arith, length-take offset old)))
    ∙ ap (λ l. take n (l ++ drop (offset + n) old)) (take_of_le n bytes (omega arith))
    ∙ take-append_exact n bytes _ e

length-splice :
    (old bytes : List ℕ) (offset n : ℕ)
    → offset + n ≤ length old
    → length bytes ≡ n
    → length (splice old offset bytes n) ≡ length old
length-splice old bytes offset n h e = omega (
  arith,
  length-append (take offset old) (take n bytes ++ drop (offset + n) old),
  length-append (take n bytes) (drop (offset + n) old),
  length-take offset old,
  length-take n bytes,
  length-drop (offset + n) old,
)

-- A whole buffer that is read into.
filled :
    (buffer source : List ℕ) (n : ℕ) → length buffer ≡ n → splice buffer 0 source n ≡ take n source
filled buffer source n e =
    ap (λ l. take n source ++ l) (drop_of_le (0 + n) buffer (omega arith))
    ∙ append-nil (take n source)

-- A memory device, its state and a fault that matches no request.
pub record Backed (d : Device MemBlock) (m : MemBlock) : Type 0 where
  pub driven : d.ops ≡ some mem_ops
  pub writable : has d.flags read_only ≡ false
  pub widths : Widths d
  pub same_size : m.sector_size ≡ d.sector_size
  pub sized : length m.contents ≡ d.sector_count * d.sector_size
  pub addressable : d.sector_count * d.sector_size < 2 ^ 64
  pub quiet : m.fault.operation_mask ≡ 0

quiet-maybe_fail :
    (m : MemBlock) (operation first count : ℕ)
    → m.fault.operation_mask ≡ 0
    → maybe_fail m operation first count ≡ (zero_result, m)
unfolding maybe_fail
quiet-maybe_fail m operation first count e =
    let none_ : bit_and m.fault.operation_mask operation ≡ 0 = rw e (bit_and_zero_left operation) in
    if_intro (λ r. r ≡ (zero_result, m)) (not (fault_matches_request m.fault operation first count))
      _ _ (λ _. refl) (λ matches. absurd (ground (arith, none_, matches)))

-- The states that the two calls leave.
abbrev read_counted : MemBlock → ℕ → MemBlock
read_counted m count = record m {
  stats = record m.stats {
    read_calls = saturating_add m.stats.read_calls 1;
    sectors_read = saturating_add m.stats.sectors_read count;
    bytes_read = saturating_add m.stats.bytes_read (offset_of m count);
  };
}

abbrev written : MemBlock → ℕ → ℕ → List ℕ → MemBlock
written m first count bytes = record m {
  contents = splice m.contents (offset_of m first) bytes (offset_of m count);
  stats = record m.stats {
    write_calls = saturating_add m.stats.write_calls 1;
    sectors_written = saturating_add m.stats.sectors_written count;
    bytes_written = saturating_add m.stats.bytes_written (offset_of m count);
  };
}

module _ (d : Device MemBlock) (m : MemBlock) (b : Backed d m) (first count : ℕ)
    (r : InRange d first count) (w : first < 2 ^ 64) (c : count < 2 ^ 32) (nz : count ≢ 0) where
  accepted : (validate_range (some d) first count).0 ≡ zero_result
  accepted = (validate_range-InRange d first count b.widths w c).1 r

  -- The places of the request in the data.
  placed :
      (offset_of m first ≡ first * d.sector_size)
      × (offset_of m count ≡ count * d.sector_size)
      × (first * d.sector_size + count * d.sector_size ≤ length m.contents)
  placed =
      let s = b.same_size in
      let total : (first + count) * d.sector_size ≤ d.sector_count * d.sector_size =
        mul-le-mul_right d.sector_size r.within in
      let split = add-mul first count d.sector_size in
      (
        rw s (omega (arith, b.addressable, b.sized)),
        rw s (omega (arith, b.addressable, b.sized)),
        omega (arith, b.sized),
      )

  write-written :
      (bytes : List ℕ)
      → write (some d) first count (some bytes) m ≡ (zero_result, written m first count bytes)
  unfolding write write_checked call_write mem_write
  write-written bytes =
      rw (accepted, b.driven, quiet-maybe_fail (write_called m) fault_write first count b.quiet)
        (ground (arith, nz, b.writable))

  read-read :
      (buffer : List ℕ)
      → read (some d) first count (some buffer) m ≡ (
        zero_result,
        some (splice buffer 0 (drop (offset_of m first) m.contents) (offset_of m count)),
        read_counted m count,
      )
  unfolding read read_checked call_read mem_read
  read-read buffer =
      rw (accepted, b.driven, quiet-maybe_fail (read_called m) fault_read first count b.quiet)
        (ground (arith, nz))

-- The device after a write is backed by its new state.
written-Backed :
    (d : Device MemBlock) (m : MemBlock) (b : Backed d m) (first count : ℕ) (bytes : List ℕ)
    → offset_of m first + offset_of m count ≤ length m.contents
    → length bytes ≡ offset_of m count
    → Backed d (written m first count bytes)
written-Backed d m b first count bytes h e = record {
  driven = b.driven;
  writable = b.writable;
  widths = b.widths;
  same_size = b.same_size;
  sized = length-splice m.contents bytes (offset_of m first) (offset_of m count) h e ∙ b.sized;
  addressable = b.addressable;
  quiet = b.quiet;
}

-- On a memory device without a fault, a write of whole sectors that the generic device lets through
-- succeeds, and a read of the same sectors then succeeds and fills its buffer with the bytes written.
pub read-write :
    (d : Device MemBlock) (m : MemBlock) (first count : ℕ) (bytes buffer : List ℕ)
    → Backed d m
    → InRange d first count
    → first < 2 ^ 64
    → count < 2 ^ 32
    → count ≢ 0
    → length bytes ≡ count * d.sector_size
    → length buffer ≡ count * d.sector_size
    → ((write (some d) first count (some bytes) m).0 ≡ zero_result)
      × ((read (some d) first count (some buffer) (write (some d) first count (some bytes) m).1).0
          ≡ zero_result)
      × ((read (some d) first count (some buffer) (write (some d) first count (some bytes) m).1).1
          ≡ some bytes)
read-write d m first count bytes buffer b r w c nz eb er =
    let (eo, en, fits) = placed d m b first count r w c nz in
    let e = write-written d m b first count r w c nz bytes in
    let after = written m first count bytes in
    let size : length bytes ≡ offset_of m count = eb ∙ sym en in
    let room : offset_of m first + offset_of m count ≤ length m.contents = omega arith in
    let b' : Backed d after = written-Backed d m b first count bytes room size in
    let f = read-read d after b' first count r w c nz buffer in
    let got : splice buffer 0 (drop (offset_of after first) after.contents) (offset_of after count)
        ≡ bytes =
      filled buffer (drop (offset_of after first) after.contents) (offset_of after count)
        (er ∙ sym en)
      ∙ splice-sectors m.contents bytes (offset_of m first) (offset_of m count) room size in
    (
      ap (λ x. x.0) e,
      ap (λ x. (read (some d) first count (some buffer) x.1).0) e ∙ ap (λ x. x.0) f,
      ap (λ x. (read (some d) first count (some buffer) x.1).1) e ∙ ap (λ x. x.1) f ∙ ap some got,
    )

-- An injected failure keeps the data.
maybe_fail-contents :
    (m : MemBlock) (operation first count : ℕ)
    → (maybe_fail m operation first count).1.contents ≡ m.contents
unfolding maybe_fail
maybe_fail-contents m operation first count =
    if_intro (λ (r : ℤ × MemBlock). r.1.contents ≡ m.contents)
      (not (fault_matches_request m.fault operation first count)) _ _ (λ _. refl)
      (λ _.
        if_intro (λ (r : ℤ × MemBlock). r.1.contents ≡ m.contents) (not (m.fault.pass_count == 0)) _
          _ (λ _. refl)
          (λ _.
            if_intro (λ (r : ℤ × MemBlock). r.1.contents ≡ m.contents) (m.fault.fail_count == 0) _ _
              (λ _. refl) (λ _. refl)))

-- A write to the memory device that reports an error has not changed its data.
pub mem_write-failed :
    (m : MemBlock) (first count : ℕ) (buffer : Option (List ℕ))
    → (mem_write m first count buffer).0 ≢ zero_result
    → (mem_write m first count buffer).1.contents ≡ m.contents
unfolding mem_write
mem_write-failed m first count buffer =
    split (maybe_fail (write_called m) fault_write first count)
      (maybe_fail-contents (write_called m) fault_write first count)
  where
    split :
        (r : ℤ × MemBlock)
        → r.1.contents ≡ m.contents
        → (write_after first count buffer r).0 ≢ zero_result
        → (write_after first count buffer r).1.contents ≡ m.contents
    split (pos zero, after) e h = absurd (h refl)
    split (pos (suc n), after) e h = e
    split (negsuc n, after) e h = e
