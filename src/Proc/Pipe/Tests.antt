-- ===== src/Proc/Pipe/Tests.antt =====
-- Runs of a pipe of kernel/proc/pipe.c with a ring of four bytes.
use northstar_os.Base.{◌≡◌, refl, true, false, [], ◌∷◌, ◌++◌, arith}
use northstar_os.Base.Errno.{pos, eagain}
use northstar_os.Proc.Pipe.{
  Pipe, returns, sleeps, takes, puts, copy_out, copy_in, read_turn, write_turn, pipe_read,
  close_end, created,
}
use northstar_os.Proc.Pipe.Queue.{read, write}
use northstar_os.Proc.Pipe.Copying.{Valid, contents, queue}
use northstar_os.Proc.Pipe.Refine.{image, read_turn-image, write_turn-image}
use northstar_os.Proc.Pipe.Order.{Put, write_turn-Put, stays, reads, writes, Steps-order}

-- Three bytes, of which the last has gone round.
abbrev ring : Pipe
ring = record {
  buffer = 9 ∷ 0 ∷ 7 ∷ 8 ∷ [];
  capacity = 4;
  head = 2;
  used = 3;
  readers = 1;
  writers = 1;
}

abbrev full : Pipe
full = record ring { buffer = 9 ∷ 5 ∷ 7 ∷ 8 ∷ []; used = 4 }

abbrev read_out : Pipe
read_out = record full { head = 0; used = 2 }

ring-Valid : Valid ring
ring-Valid = record {
  sized = refl;
  head_inside = omega arith;
  used_fits = omega arith;
  addressable = omega arith;
}

-- One byte fits; four do not, and a short write waits for all of them.
fits_run : write_turn true ring (5 ∷ []) 0 ≡ puts 1 full
unfolding write_turn copy_in
fits_run = refl

waits_run :
    (write_turn true ring (5 ∷ 6 ∷ []) 0 ≡ sleeps)
    × (write_turn false ring (5 ∷ 6 ∷ []) 0 ≡ returns eagain)
unfolding write_turn copy_in
waits_run = (refl, refl)

reads_run : read_turn true full 2 ≡ takes (7 ∷ 8 ∷ []) read_out
unfolding read_turn copy_out
reads_run = refl

-- An empty pipe ends when its writer has closed it.
ends_run : pipe_read true false true (close_end true (created [] 4)).1 2 ≡ returns (pos 0)
unfolding pipe_read read_turn close_end
ends_run = refl

read_example : image (read_turn true ring 2) ≡ read true (queue ring) 2
read_example = read_turn-image true ring 2 ring-Valid

write_example : image (write_turn true ring (5 ∷ []) 0) ≡ write true (queue ring) (5 ∷ []) 0
write_example = write_turn-image true ring (5 ∷ []) 0 ring-Valid

put_example : Put (contents ring) (5 ∷ []) (contents full) 0 1
put_example = write_turn-Put true ring full (5 ∷ []) 0 1 ring-Valid fits_run

order_example : (contents ring ++ (5 ∷ []) ≡ (7 ∷ 8 ∷ []) ++ contents read_out) × Valid read_out
order_example = Steps-order ring read_out (5 ∷ []) (7 ∷ 8 ∷ []) ring-Valid (
    writes true (5 ∷ []) 0 1 ring full read_out [] (7 ∷ 8 ∷ []) fits_run
      (reads true 2 full read_out read_out (7 ∷ 8 ∷ []) [] [] reads_run (stays read_out)))
