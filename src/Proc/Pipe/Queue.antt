-- ===== src/Proc/Pipe/Queue.antt =====
-- What a pipe of kernel/proc/pipe.c promises, without its ring: a queue of bytes of bounded length with
-- the numbers of its readers and writers.
use northstar_os.Base.{
  ℕ, ◌+◌, ◌-◌, Bool, not, ◌&&◌, List, ◌++◌, length, take, drop, ltb, leb, ◌==◌, if◌then◌else◌, min,
}
use northstar_os.Base.Errno.{pos, zero_result, eagain, epipe}
use northstar_os.Proc.Pipe.{
  Turn, returns, sleeps, looks_again, turns_again, takes, puts, atomic_max, written_result,
}

pub record Queue : Type 0 where
  pub bytes : List ℕ
  pub capacity : ℕ
  pub readers : ℕ
  pub writers : ℕ

-- A reader takes as many bytes as there are, in their order, and none is the end of the file only when
-- no writer is left.
unfoldable pub read : Bool → Queue → ℕ → Turn Queue
read can_block q count =
    if not (length q.bytes == 0)
    then takes (take count q.bytes) (record q { bytes = drop count q.bytes })
    else if q.writers == 0
    then returns zero_result
    else if not can_block
    then returns eagain
    else sleeps

-- A writer appends as much of its input as there is room for, and all or nothing of an input of at most
-- `atomic_max` bytes.
abbrev pub append : Queue → List ℕ → ℕ → ℕ → Turn Queue
append q input written chunk =
    puts (written + chunk) (record q { bytes = q.bytes ++ take chunk (drop written input) })

unfoldable pub write : Bool → Queue → List ℕ → ℕ → Turn Queue
write can_block q input written =
    let room = q.capacity - length q.bytes in
    if leb (length input) written
    then returns (pos written)
    else if q.readers == 0
    then returns (written_result written epipe)
    else if leb (length input) atomic_max && ltb room (length input)
    then (if not can_block then returns eagain else sleeps)
    else if room == 0
    then (if not (written == 0)
        then returns (pos written)
        else if not can_block
        then returns eagain
        else looks_again)
    else append q input written (min room (length input - written))

-- A full queue lets a writer sleep.
abbrev pub sleep_if_full : Queue → Turn Queue
sleep_if_full q = if not (q.capacity == length q.bytes) then turns_again else sleeps
