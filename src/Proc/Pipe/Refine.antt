-- ===== src/Proc/Pipe/Refine.antt =====
-- The ring of kernel/proc/pipe.c implements the queue of bytes.
use northstar_os.Base.{
  ℕ, ◌+◌, ◌-◌, ◌%◌, ◌≤◌, ◌≡◌, refl, sym, ap, ap₂, ◌∙◌, Bool, true, false, not, ◌&&◌, List, ◌++◌,
  min, length, take, drop, length-take, length-drop, take_of_le, drop_of_le, if_map, arith, ◌⊎◌,
  inl, inr, ltb, leb, ◌==◌, Bool-cases, if_intro, if◌then◌else◌,
}
use native.Mathlib.Nat.{mod-lt}
use northstar_os.Base.Words.{add64, sub64}
use northstar_os.Proc.Pipe.{
  Pipe, Turn, returns, sleeps, looks_again, turns_again, takes, puts, atomic_max, copy_in,
  taken_out, read_turn, put_in, write_turn, look_again,
}
use northstar_os.Proc.Pipe.Window.{window, window_mod, take-window, drop-window}
use northstar_os.Proc.Pipe.Queue.{Queue, read, append, write, sleep_if_full}
use northstar_os.Proc.Pipe.Copying.{
  Valid, contents, queue, length-contents, copy_out-window, copy_in-window, length-copy_in,
}

-- A turn on a pipe, seen as one on its queue.
unfoldable pub image : Turn Pipe → Turn Queue
image (returns r) = returns r
image sleeps = sleeps
image looks_again = looks_again
image turns_again = turns_again
image (takes xs p) = takes xs (queue p)
image (puts n p) = puts n (queue p)

-- The pipe that a turn leaves is valid.
abbrev pub ValidAfter : Turn Pipe → Type 0
ValidAfter (returns r) = Unit {0}
ValidAfter sleeps = Unit {0}
ValidAfter looks_again = Unit {0}
ValidAfter turns_again = Unit {0}
ValidAfter (takes xs p) = Valid p
ValidAfter (puts n p) = Valid p

taken_out-image :
    (p : Pipe) (copied : ℕ)
    → Valid p
    → copied ≤ p.used
    → image (taken_out p copied)
      ≡ takes (take copied (contents p)) (record (queue p) { bytes = drop copied (contents p) })
unfolding image
taken_out-image p copied v h =
    ap₂ (λ xs ys. takes xs (record (queue p) { bytes = ys }))
      (copy_out-window p copied 0 (omega (arith, v.head_inside, v.used_fits, v.addressable))
        ∙ ap (λ i. window p.buffer p.capacity i copied) {x = p.head + 0} {y = p.head} (omega arith)
        ∙ sym (take-window p.buffer p.capacity copied p.used p.head h))
      (ap₂ (λ (i n : ℕ). window p.buffer p.capacity (i % p.capacity) n) {x = add64 p.head copied}
          {y = p.head + copied} (omega (arith, v.head_inside, v.used_fits, v.addressable))
          (omega (arith, v.used_fits, v.addressable))
        ∙ window_mod p.buffer p.capacity (p.used - copied) (p.head + copied)
        ∙ sym (drop-window p.buffer p.capacity copied p.used p.head h))

-- A turn of a read does to the ring what the specification does to its queue.
pub read_turn-image :
    (can_block : Bool) (p : Pipe) (count : ℕ)
    → Valid p
    → image (read_turn can_block p count) ≡ read can_block (queue p) count
unfolding image read_turn read
read_turn-image can_block p count v = rw (length-contents p) (
    if_map image (not (p.used == 0)) _ _ _ _ (λ _. counted (Bool-cases (ltb count p.used)))
      (λ _.
        if_map image (p.writers == 0) _ _ _ _ (λ _. refl)
          (λ _. if_map image (not can_block) _ _ _ _ (λ _. refl) (λ _. refl))))
  where
    counted :
        (ltb count p.used ≡ true) ⊎ (ltb count p.used ≡ false)
        → image (taken_out p (if ltb count p.used then count else p.used))
          ≡ takes (take count (contents p)) (record (queue p) { bytes = drop count (contents p) })
    counted (inl less) = rw less (taken_out-image p count v (ground (arith, less)))
    counted (inr more) = rw more (
        taken_out-image p p.used v (omega arith)
        ∙ ap₂ (λ xs ys. takes xs (record (queue p) { bytes = ys }))
            (take_of_le p.used (contents p) (omega (arith, length-contents p))
              ∙ sym (take_of_le count (contents p) (ground (arith, more, length-contents p))))
            (drop_of_le p.used (contents p) (omega (arith, length-contents p))
              ∙ sym (drop_of_le count (contents p) (ground (arith, more, length-contents p)))))

put_in-image :
    (p : Pipe) (input : List ℕ) (written chunk : ℕ)
    → Valid p
    → p.used + chunk ≤ p.capacity
    → written + chunk ≤ length input
    → image (put_in p input written chunk) ≡ append (queue p) input written chunk
unfolding image
put_in-image p input written chunk v fits enough =
    let xs = take chunk (drop written input) in
    let size : length xs ≡ chunk =
      omega (arith, length-take chunk (drop written input), length-drop written input) in
    ap (λ ys. puts (written + chunk) (record (queue p) { bytes = ys }))
      (ap (window (copy_in p p.buffer 0 xs) p.capacity p.head) {x = p.used + chunk}
          {y = p.used + 0 + length xs} (omega arith)
        ∙ copy_in-window p xs p.buffer 0 v.sized v.head_inside v.addressable (omega arith)
        ∙ ap (λ (n : ℕ). window p.buffer p.capacity p.head n ++ xs) {x = p.used + 0} {y = p.used}
            (omega arith))

-- The number of bytes that a turn of a write puts in.
pub chunk_of :
    (p : Pipe) (input : List ℕ) (written : ℕ)
    → Valid p
    → (if ltb (sub64 p.capacity p.used) (length input - written)
        then sub64 p.capacity p.used
        else length input - written)
      ≡ min (p.capacity - p.used) (length input - written)
chunk_of p input written v =
    let e : sub64 p.capacity p.used ≡ p.capacity - p.used =
      omega (arith, v.used_fits, v.addressable) in
    rw e (ground arith)

-- A turn of a write, up to where it may look again, does to the ring what the specification does to its
-- queue.
pub write_turn-image :
    (can_block : Bool) (p : Pipe) (input : List ℕ) (written : ℕ)
    → Valid p
    → image (write_turn can_block p input written) ≡ write can_block (queue p) input written
unfolding image write_turn write
write_turn-image can_block p input written v =
    let room : sub64 p.capacity p.used ≡ p.capacity - p.used =
      omega (arith, v.used_fits, v.addressable) in
    rw (length-contents p, room)
      (if_map image (leb (length input) written) _ _ _ _ (λ _. refl)
        (λ more.
          if_map image (p.readers == 0) _ _ _ _ (λ _. refl)
            (λ _.
              if_map image
                (leb (length input) atomic_max && ltb (p.capacity - p.used) (length input)) _ _ _ _
                (λ _. if_map image (not can_block) _ _ _ _ (λ _. refl) (λ _. refl))
                (λ _.
                  if_map image (p.capacity - p.used == 0) _ _ _ _
                    (λ _.
                      if_map image (not (written == 0)) _ _ _ _ (λ _. refl)
                        (λ _. if_map image (not can_block) _ _ _ _ (λ _. refl) (λ _. refl)))
                    (λ _. appended (ground (arith, more)))))))
  where
    appended :
        written ≤ length input
        → image (
            put_in p input written (
              if ltb (p.capacity - p.used) (length input - written)
              then p.capacity - p.used
              else length input - written))
          ≡ append (queue p) input written (min (p.capacity - p.used) (length input - written))
    appended more =
        ap (λ n. image (put_in p input written n)) (ground arith)
        ∙ put_in-image p input written (min (p.capacity - p.used) (length input - written)) v
            (omega (arith, v.used_fits)) (omega arith)

-- So does the second look.
look_again-image : (p : Pipe) → image (look_again p) ≡ sleep_if_full (queue p)
unfolding image look_again
look_again-image p =
    rw (length-contents p)
      (if_map image (not (p.capacity == p.used)) _ _ _ _ (λ _. refl) (λ _. refl))

-- Every turn leaves a valid pipe.
taken_out-ValidAfter :
    (p : Pipe) (copied : ℕ) → Valid p → copied ≤ p.used → ValidAfter (taken_out p copied)
taken_out-ValidAfter p copied v h = record {
  sized = v.sized;
  head_inside = mod-lt (add64 p.head copied) {m = p.capacity} (omega (arith, v.head_inside));
  used_fits = omega (arith, v.used_fits, v.addressable);
  addressable = v.addressable;
}

pub read_turn-ValidAfter :
    (can_block : Bool) (p : Pipe) (count : ℕ) → Valid p → ValidAfter (read_turn can_block p count)
unfolding read_turn
read_turn-ValidAfter can_block p count v =
    if_intro ValidAfter (not (p.used == 0)) _ _
      (λ _.
        if_intro (λ n. ValidAfter (taken_out p n)) (ltb count p.used) _ _
          (λ less. taken_out-ValidAfter p count v (ground (arith, less)))
          (λ _. taken_out-ValidAfter p p.used v (omega arith)))
      (λ _.
        if_intro ValidAfter (p.writers == 0) _ _ (λ _. tt)
          (λ _. if_intro ValidAfter (not can_block) _ _ (λ _. tt) (λ _. tt)))

pub write_turn-ValidAfter :
    (can_block : Bool) (p : Pipe) (input : List ℕ) (written : ℕ)
    → Valid p
    → ValidAfter (write_turn can_block p input written)
unfolding write_turn
write_turn-ValidAfter can_block p input written v =
    if_intro ValidAfter (leb (length input) written) _ _ (λ _. tt)
      (λ _.
        if_intro ValidAfter (p.readers == 0) _ _ (λ _. tt)
          (λ _.
            if_intro ValidAfter
              (leb (length input) atomic_max && ltb (sub64 p.capacity p.used) (length input)) _ _
              (λ _. if_intro ValidAfter (not can_block) _ _ (λ _. tt) (λ _. tt))
              (λ _.
                if_intro ValidAfter (sub64 p.capacity p.used == 0) _ _
                  (λ _.
                    if_intro ValidAfter (not (written == 0)) _ _ (λ _. tt)
                      (λ _. if_intro ValidAfter (not can_block) _ _ (λ _. tt) (λ _. tt)))
                  (λ _. record {
                    sized = length-copy_in p _ p.buffer 0 ∙ v.sized;
                    head_inside = v.head_inside;
                    used_fits = let c = chunk_of p input written v in omega (arith, v.used_fits);
                    addressable = v.addressable;
                  }))))
