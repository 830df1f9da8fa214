-- ===== src/Proc/Pipe/Order.antt =====
-- The bytes of a pipe of kernel/proc/pipe.c keep their order, whatever its readers and writers do.
use northstar_os.Base.{
  ℕ, ◌+◌, ◌-◌, ◌≤◌, ◌<◌, ◌≡◌, refl, sym, ap, ◌∙◌, Bool, not, ◌&&◌, List, [], ◌++◌, append_assoc,
  append-nil, min, length, take, drop, take-append-drop, arith, ltb, leb, ◌==◌, if_intro,
}
use mathlib.Core.Path.{subst}
use northstar_os.Base.Errno.{pos, zero_result, eagain, epipe}
use northstar_os.Proc.Pipe.{
  Pipe, Turn, returns, sleeps, looks_again, turns_again, takes, puts, atomic_max, written_result,
  read_turn, write_turn, close_end,
}
use northstar_os.Proc.Pipe.Queue.{Queue, read, write}
use northstar_os.Proc.Pipe.Copying.{Valid, contents, queue}
use northstar_os.Proc.Pipe.Refine.{
  image, read_turn-image, write_turn-image, ValidAfter, read_turn-ValidAfter, write_turn-ValidAfter,
}

-- What a read that takes bytes takes from the queue.
read-takes :
    (can_block : Bool) (q after : Queue) (count : ℕ) (xs : List ℕ)
    → read can_block q count ≡ takes xs after
    → xs ++ after.bytes ≡ q.bytes
unfolding read
read-takes can_block q after count xs =
    if_intro Claim (not (length q.bytes == 0)) _ _
      (λ _ e. sym (ap bytes_of e) ∙ take-append-drop count q.bytes)
      (λ _.
        if_intro Claim (q.writers == 0) _ _
          (λ _ (e : returns zero_result ≡ takes xs after). absurd (cc))
          (λ _.
            if_intro Claim (not can_block) _ _
              (λ _ (e : returns eagain ≡ takes xs after). absurd (cc))
              (λ _ (e : sleeps ≡ takes xs after). absurd (cc))))
  where
    bytes_of : Turn Queue → List ℕ
    bytes_of (takes ys left) = ys ++ left.bytes
    bytes_of (returns r) = []
    bytes_of sleeps = []
    bytes_of looks_again = []
    bytes_of turns_again = []
    bytes_of (puts n left) = []

    Claim : Turn Queue → Type 0
    Claim t = t ≡ takes xs after → xs ++ after.bytes ≡ q.bytes

-- What a write that puts bytes in has put in.
pub record Put (bytes input after : List ℕ) (written n : ℕ) : Type 0 where
  pub more : written < n
  pub bounded : n ≤ length input
  pub appended : after ≡ bytes ++ take (n - written) (drop written input)
  pub whole : written ≡ 0 → length input ≤ atomic_max → n ≡ length input

write-Put :
    (can_block : Bool) (q after : Queue) (input : List ℕ) (written n : ℕ)
    → write can_block q input written ≡ puts n after
    → Put q.bytes input after.bytes written n
unfolding write
write-Put can_block q after input written n =
    if_intro Claim (leb (length input) written) _ _
      (λ _ (e : returns (pos written) ≡ puts n after). absurd (cc))
      (λ behind.
        if_intro Claim (q.readers == 0) _ _
          (λ _ (e : returns (written_result written epipe) ≡ puts n after). absurd (cc))
          (λ _.
            if_intro Claim
              (leb (length input) atomic_max && ltb (q.capacity - length q.bytes) (length input)) _
              _
              (λ _.
                if_intro Claim (not can_block) _ _
                  (λ _ (e : returns eagain ≡ puts n after). absurd (cc))
                  (λ _ (e : sleeps ≡ puts n after). absurd (cc)))
              (λ fits.
                if_intro Claim (q.capacity - length q.bytes == 0) _ _
                  (λ _.
                    if_intro Claim (not (written == 0)) _ _
                      (λ _ (e : returns (pos written) ≡ puts n after). absurd (cc))
                      (λ _.
                        if_intro Claim (not can_block) _ _
                          (λ _ (e : returns eagain ≡ puts n after). absurd (cc))
                          (λ _ (e : looks_again ≡ puts n after). absurd (cc))))
                  (λ room e.
                    let total : written + min (q.capacity - length q.bytes) (length input - written)
                        ≡ n =
                      ap number_of e in
                    record {
                      more = ground (arith, total, behind, room);
                      bounded = ground (arith, total, behind);
                      appended =
                          sym (ap bytes_of e)
                          ∙ ap (λ (k : ℕ). q.bytes ++ take k (drop written input))
                              (omega (arith, total));
                      whole = λ none_yet small. ground (arith, total, fits, none_yet, small);
                    }))))
  where
    bytes_of : Turn Queue → List ℕ
    bytes_of (takes ys left) = []
    bytes_of (returns r) = []
    bytes_of sleeps = []
    bytes_of looks_again = []
    bytes_of turns_again = []
    bytes_of (puts k left) = left.bytes

    number_of : Turn Queue → ℕ
    number_of (takes ys left) = 0
    number_of (returns r) = 0
    number_of sleeps = 0
    number_of looks_again = 0
    number_of turns_again = 0
    number_of (puts k left) = k

    Claim : Turn Queue → Type 0
    Claim t = t ≡ puts n after → Put q.bytes input after.bytes written n

-- A turn of a write that puts bytes in makes progress and stays within the input, appends to the pipe the
-- bytes of the input that come next, and puts all of an input of at most 512 bytes in at once.
pub write_turn-Put :
    (can_block : Bool) (p after : Pipe) (input : List ℕ) (written n : ℕ)
    → Valid p
    → write_turn can_block p input written ≡ puts n after
    → Put (contents p) input (contents after) written n
unfolding image
write_turn-Put can_block p after input written n v e =
    write-Put can_block (queue p) (queue after) input written n
      (sym (write_turn-image can_block p input written v) ∙ ap image e)

-- What the readers and writers of a pipe do to it, in whatever order: the bytes that turns of writes put
-- in, those that turns of reads take out, and the pipe in the end.
pub data Steps : Pipe → List ℕ → List ℕ → Pipe → Type 0 where
  stays : (p : Pipe) → Steps p [] [] p
  reads :
      (can_block : Bool) (count : ℕ) (p after last : Pipe) (xs ins outs : List ℕ)
      → read_turn can_block p count ≡ takes xs after
      → Steps after ins outs last
      → Steps p ins (xs ++ outs) last
  writes :
      (can_block : Bool) (input : List ℕ) (written n : ℕ) (p after last : Pipe) (ins outs : List ℕ)
      → write_turn can_block p input written ≡ puts n after
      → Steps after ins outs last
      → Steps p (take (n - written) (drop written input) ++ ins) outs last
  closes :
      (writable : Bool) (p last : Pipe) (ins outs : List ℕ)
      → Steps (close_end writable p).1 ins outs last
      → Steps p ins outs last

close_end-contents :
    (writable : Bool) (p : Pipe)
    → Valid p
    → (contents (close_end writable p).1 ≡ contents p) × Valid (close_end writable p).1
unfolding close_end
close_end-contents writable p v =
    if_intro Claim writable _ _
      (λ _. if_intro Claim (not (p.writers == 0)) _ _ (λ _. (refl, kept)) (λ _. (refl, v)))
      (λ _. if_intro Claim (not (p.readers == 0)) _ _ (λ _. (refl, kept)) (λ _. (refl, v)))
  where
    Claim : Pipe → Type 0
    Claim r = (contents r ≡ contents p) × Valid r

    kept : {readers writers : ℕ} → Valid (record p { readers = readers; writers = writers })
    kept = record {
      sized = v.sized;
      head_inside = v.head_inside;
      used_fits = v.used_fits;
      addressable = v.addressable;
    }

-- Whatever the order of its readers' and writers' turns, the bytes taken out of a pipe and those left in
-- it are, in their order, the bytes that it had and those put in: none is lost, doubled or overtaken;
-- and the pipe stays valid.
pub Steps-order :
    (p last : Pipe) (ins outs : List ℕ)
    → Valid p
    → Steps p ins outs last
    → (contents p ++ ins ≡ outs ++ contents last) × Valid last
unfolding image
Steps-order _ _ _ _ v (stays p) = (append-nil (contents p), v)
Steps-order _ _ _ _ v (reads can_block count p after last xs ins outs e s) =
    let valid : Valid after = subst ValidAfter e (read_turn-ValidAfter can_block p count v) in
    let (kept, w) = Steps-order after last ins outs valid s in
    let front : xs ++ contents after ≡ contents p =
      read-takes can_block (queue p) (queue after) count xs
        (sym (read_turn-image can_block p count v) ∙ ap image e) in
    (
      ap (λ l. l ++ ins) (sym front)
          ∙ append_assoc xs (contents after) ins
          ∙ ap (λ l. xs ++ l) kept
          ∙ sym (append_assoc xs outs (contents last)),
      w,
    )
Steps-order _ _ _ _ v (writes can_block input written n p after last ins outs e s) =
    let valid : Valid after =
      subst ValidAfter e (write_turn-ValidAfter can_block p input written v) in
    let (kept, w) = Steps-order after last ins outs valid s in
    let put = write_turn-Put can_block p after input written n v e in
    (sym (append_assoc (contents p) _ ins) ∙ ap (λ l. l ++ ins) (sym put.appended) ∙ kept, w)
Steps-order _ _ _ _ v (closes writable p last ins outs s) =
    let (same, valid) = close_end-contents writable p v in
    let (kept, w) = Steps-order (close_end writable p).1 last ins outs valid s in
    (ap (λ l. l ++ ins) (sym same) ∙ kept, w)
