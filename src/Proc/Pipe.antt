-- ===== src/Proc/Pipe.antt =====
-- kernel/proc/pipe.c: pipes. A critical section, from `pipe_lock` to `pipe_unlock`, is one function on
-- the pipe; what a call does between two of them is up to the other threads, so that its loop is a
-- sequence of turns. The counts of memory are those of a 64-bit machine.
pub mod Window
pub mod Queue
pub mod Copying
pub mod Refine
pub mod Order
mod Tests
use northstar_os.Base.{
  ℕ, zero, suc, ◌+◌, ◌-◌, ◌%◌, Bool, true, false, not, ◌&&◌, ◌||◌, List, [], ◌∷◌, length, get_or,
  set, take, drop, ltb, leb, ◌==◌, if◌then◌else◌,
}
use northstar_os.Base.Words.{add64, sub64}
use northstar_os.Base.Errno.{ℤ, pos, zero_result, ebadf, eagain, epipe}

-- `ns_pipe`, but for its runtime.
pub record Pipe : Type 0 where
  pub buffer : List ℕ
  pub capacity : ℕ
  pub head : ℕ
  pub used : ℕ
  pub readers : ℕ
  pub writers : ℕ

-- NS_PIPE_ATOMIC_MAX
abbrev pub atomic_max : ℕ
atomic_max = 512

-- What a turn of a call comes to, on pipes `P`: the call returns and leaves the pipe as it was; it
-- sleeps until it is woken, and turns again; it looks again under the lock before it sleeps; it turns again; it returns
-- with bytes taken out, and wakes the writers; or it has put bytes in, as many as the number says since
-- the call began, wakes the readers and turns again.
pub data Turn (P : Type 0) : Type 0 where
  returns : ℤ → Turn P
  sleeps : Turn P
  looks_again : Turn P
  turns_again : Turn P
  takes : List ℕ → P → Turn P
  puts : ℕ → P → Turn P

-- The copying loops of `pipe_read` and `pipe_write`, from an index on.
pub copy_out : Pipe → ℕ → ℕ → List ℕ
copy_out p index zero = []
copy_out p index (suc n) =
    get_or p.buffer (add64 p.head index % p.capacity) 0 ∷ copy_out p (index + 1) n

pub copy_in : Pipe → List ℕ → ℕ → List ℕ → List ℕ
copy_in p buffer index [] = buffer
copy_in p buffer index (x ∷ xs) =
    copy_in p (set buffer (add64 (add64 p.head p.used) index % p.capacity) x) (index + 1) xs

abbrev pub taken_out : Pipe → ℕ → Turn Pipe
taken_out p copied =
    takes (copy_out p 0 copied)
      (record p { head = add64 p.head copied % p.capacity; used = sub64 p.used copied })

-- A turn of `pipe_read`; `can_block` tells whether the runtime has both functions to block.
pub read_turn : Bool → Pipe → ℕ → Turn Pipe
read_turn can_block p count =
    if not (p.used == 0)
    then taken_out p (if ltb count p.used then count else p.used)
    else if p.writers == 0
    then returns zero_result
    else if not can_block
    then returns eagain
    else sleeps

-- `pipe_read` up to its first turn, `writable` being the endpoint's.
pub pipe_read : Bool → Bool → Bool → Pipe → ℕ → Turn Pipe
pipe_read can_block writable has_buffer p count =
    if writable || not has_buffer
    then returns ebadf
    else if count == 0
    then returns zero_result
    else read_turn can_block p count

abbrev pub written_result : ℕ → ℤ → ℤ
written_result written error = if not (written == 0) then pos written else error

abbrev pub put_in : Pipe → List ℕ → ℕ → ℕ → Turn Pipe
put_in p input written chunk = puts (written + chunk) (record p {
  buffer = copy_in p p.buffer 0 (take chunk (drop written input));
  used = p.used + chunk;
})

-- The first critical section of a turn of `pipe_write` that has `written` bytes of the input behind it.
pub write_turn : Bool → Pipe → List ℕ → ℕ → Turn Pipe
write_turn can_block p input written =
    let count = length input in
    let available = sub64 p.capacity p.used in
    if leb count written
    then returns (pos written)
    else if p.readers == 0
    then returns (written_result written epipe)
    else if leb count atomic_max && ltb available count
    then (if not can_block then returns eagain else sleeps)
    else if available == 0
    then (if not (written == 0)
        then returns (pos written)
        else if not can_block
        then returns eagain
        else looks_again)
    else put_in p input written
        (if ltb available (count - written) then available else count - written)

-- The second one, of a writer that is about to sleep.
pub look_again : Pipe → Turn Pipe
look_again p = if not (p.capacity == p.used) then turns_again else sleeps

-- `pipe_write` up to its first turn.
pub pipe_write : Bool → Bool → Bool → Pipe → List ℕ → Turn Pipe
pipe_write can_block writable has_buffer p input =
    if not writable || not has_buffer
    then returns ebadf
    else if length input == 0
    then returns zero_result
    else write_turn can_block p input 0

-- The part of `pipe_close` under the lock, and whether the pipe is then freed.
pub close_end : Bool → Pipe → Bool × Pipe
close_end writable p =
    let after =
      if writable
      then (if not (p.writers == 0) then record p { writers = p.writers - 1 } else p)
      else if not (p.readers == 0)
      then record p { readers = p.readers - 1 }
      else p in
    ((after.readers == 0) && (after.writers == 0), after)

-- The fields that `ns_pipe_create` sets, around a buffer of `capacity` bytes.
abbrev pub created : List ℕ → ℕ → Pipe
created buffer capacity = record {
  buffer = buffer;
  capacity = capacity;
  head = 0;
  used = 0;
  readers = 1;
  writers = 1;
}
