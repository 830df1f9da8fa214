-- ===== src/Proc/Elf/Tests.antt =====
-- The loader of kernel/proc/elf_loader.c on an executable of one segment.
use northstar_os.Base.{
  ℕ, zero, suc, ◌≡◌, refl, true, false, some, List, [], ◌∷◌, ◌++◌, inr, arith, replicate,
}
use northstar_os.Proc.Elf.{
  Source, Config, Image, field, plan, plan_from, plan_loop, plan_phdr, check_ehdr, check_phdr,
  first_failure, overlaps_any, finish, entry_found, source_read, decode_ehdr, decode_phdr,
}
use northstar_os.Proc.Elf.Images.{Promise, plan-Promise}
use northstar_os.Proc.Elf.Load.{Mapper, load}
use northstar_os.Proc.Elf.Load.Rollback.{Tracks, Loaded, load-Loaded}

-- A file of 128 bytes: the header, one program header, eight bytes of code at 120.
abbrev file : List ℕ
file =
    (0x7f ∷ 0x45 ∷ 0x4c ∷ 0x46 ∷ 2 ∷ 1 ∷ 1 ∷ 0 ∷ replicate 8 0)
    ++ (2 ∷ 0 ∷ 62 ∷ 0 ∷ 1 ∷ 0 ∷ 0 ∷ 0 ∷ [])
    ++ (0x78 ∷ 0x10 ∷ 0x40 ∷ 0 ∷ 0 ∷ 0 ∷ 0 ∷ 0 ∷ [])
    ++ (64 ∷ 0 ∷ 0 ∷ 0 ∷ 0 ∷ 0 ∷ 0 ∷ 0 ∷ replicate 12 0)
    ++ (64 ∷ 0 ∷ 56 ∷ 0 ∷ 1 ∷ 0 ∷ replicate 6 0)
    ++ (1 ∷ 0 ∷ 0 ∷ 0 ∷ 5 ∷ 0 ∷ 0 ∷ 0 ∷ [])
    ++ (120 ∷ 0 ∷ 0 ∷ 0 ∷ 0 ∷ 0 ∷ 0 ∷ 0 ∷ [])
    ++ (0x78 ∷ 0x10 ∷ 0x40 ∷ 0 ∷ 0 ∷ 0 ∷ 0 ∷ 0 ∷ replicate 8 0)
    ++ (8 ∷ 0 ∷ 0 ∷ 0 ∷ 0 ∷ 0 ∷ 0 ∷ 0 ∷ [])
    ++ (16 ∷ 0 ∷ 0 ∷ 0 ∷ 0 ∷ 0 ∷ 0 ∷ 0 ∷ [])
    ++ (0 ∷ 0 ∷ 0 ∷ 0 ∷ 0 ∷ 0 ∷ 0 ∷ 0 ∷ [])
    ++ replicate 8 0x90

drop : List ℕ → ℕ → List ℕ
drop xs zero = xs
drop [] (suc n) = []
drop (x ∷ xs) (suc n) = drop xs n

abbrev disk_file : Source
disk_file = record { size = 128; read = λ offset length. some (drop file offset) }

abbrev config : Config
config = record {
  user_min = 0x400000;
  user_max = 0x800000000000;
  page_size = 4096;
  dynamic_bias = 0;
  max_image_size = 0x1000000;
  max_segments = 16;
  allow_dynamic = 0;
  allow_writable_executable = 0;
}

abbrev image : Image
image = record {
  entry_point = 0x401078;
  image_start = 0x401000;
  image_end = 0x402000;
  load_bias = 0;
  segment_count = 1;
  segments =
      record {
        address = 0x401078;
        memory_size = 16;
        file_size = 8;
        file_offset = 120;
        map_address = 0x401000;
        map_size = 4096;
        flags = 13;
      }
      ∷ [];
}

planned : plan disk_file config ≡ inr image
unfolding plan plan_from plan_loop plan_phdr check_ehdr check_phdr first_failure overlaps_any finish
    entry_found source_read decode_ehdr decode_phdr field drop
planned = refl

plan-Promise_example : Promise disk_file config (plan disk_file config)
plan-Promise_example = plan-Promise disk_file config (omega arith) (omega arith) (omega arith)

-- An address space that is the list of its mapped ranges; protecting a page fails.
abbrev ledger : Mapper (List (ℕ × ℕ))
ledger = record {
  map_pages = λ s a l f. (true, (a, l) ∷ s);
  write = λ s a b. (true, s);
  zero_fill = λ s a l. (true, s);
  protect_pages = λ s a l f. (false, s);
  unmap = λ s a l. elim s [ [] ↦ [] | r ∷ rs ↦ rs ];
}

ledger-Tracks : Tracks ledger (λ s. s)
ledger-Tracks = record {
  map_ok = λ s a l f h. refl;
  map_fails = λ s a l f h. absurd (cc);
  writes = λ s a b. refl;
  zeroes = λ s a l. refl;
  protects = λ s a l f. refl;
  unmaps = λ s a l r h. rw h refl;
}

load-Loaded_example :
    Loaded disk_file ledger
      (λ s. s)
      ledger-Tracks
      ((0, 4096) ∷ [])
      (load disk_file ledger config ((0, 4096) ∷ []))
load-Loaded_example = load-Loaded disk_file ledger (λ s. s) ledger-Tracks config ((0, 4096) ∷ [])
