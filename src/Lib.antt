-- ===== src/Lib.antt =====
-- NorthstarOS: a model of its kernel's memory, storage and loading code, with what makes it correct.
--
-- The program is a kernel for x86-64. At boot its physical page allocator (kernel/mm/pmm.c) takes
-- the memory map of include/northstar/boot_info.h and hands out page frames from then on; the kernel
-- heap (kernel/mm/heap.c) hands out memory from an arena that grows by pages. Storage drivers, such as
-- that of kernel/fs/block_mem.c, stand behind a generic block device (kernel/fs/block.c); a slice
-- (kernel/fs/block_slice.c) is a device that is a range of another one's sectors. The ELF loader
-- (kernel/proc/elf_loader.c) validates an executable and maps it through callbacks. The scheduler
-- (kernel/proc/scheduler.c) runs threads in turn and wakes sleepers, pipes (kernel/proc/pipe.c) pass
-- bytes between them, and system calls take what user pointers point to by the checks of
-- kernel/proc/usercopy.c. All use the functions of kernel/core/string.c. The network uses the
-- checksum of kernel/net/net_checksum.c and the address cache of kernel/net/net_arp.c.
--
-- The files:
--   Base         names of the libraries, lists, tests, words, masks and error numbers
--   Core/String  kernel/core/string.c; Copying, Comparison: what its functions do
--   Fs/Block     kernel/fs/block.c, its state the `ns_block_device` with the driver as functions
--   Fs/Block/Requests              which requests pass its checks
--   Fs/Block/Slice                 kernel/fs/block_slice.c, whose driver calls Fs/Block again
--   Fs/Block/Slice/Confinement     what a slice can ask of its parent's driver
--   Fs/Block/Memory (and Contents) kernel/fs/block_mem.c, a driver of Fs/Block
--   Mm/Bitmap    the bitmaps of kernel/mm/pmm.c
--   Mm/Heap      the blocks and tags of kernel/mm/heap.c; Operations: `ns_kheap_alloc_aligned`,
--                `ns_kheap_free` and the other operations; Audit: `ns_kheap_check_invariants`
--   Mm/Heap/Tiling, Live, Search, Growth, Release, Validity, Pointers      lemmas on these
--   Mm/Heap/Startup, Allocation, Freeing   what the operations do
--   Mm/Heap/Realloc      `ns_kheap_realloc`; Resizing, Exchange, Replacing: proofs about it
--   Mm/Heap/Statistics   `ns_kheap_get_stats`
--   Mm/Pmm       its allocation and release, `ns_pmm_alloc_pages` and `ns_pmm_free_pages`
--   Mm/Pmm/Runs, Invariant, Search, Allocation, Completeness, Release      proofs about these
--   Mm/Pmm/Reserve (and Ranges)    `ns_pmm_reserve_range`
--   Mm/Pmm/Audit                   `ns_pmm_check_invariants` and `ns_pmm_get_stats`
--   Mm/Pmm/Boot                    `ns_boot_info_validate` and `ns_pmm_init`
--   Mm/Pmm/Boot/Initial, Exposure, Usable, Parts, Reservations, Startup    proofs about it
--   Net/Arp (and Cache)            the cache of kernel/net/net_arp.c and `net_arp_lookup`
--   Net/Checksum (and Pieces)      kernel/net/net_checksum.c
--   Proc/Elf     `ns_elf64_plan` of kernel/proc/elf_loader.c
--   Proc/Elf/Segments, Plan, Images        proofs about it
--   Proc/Elf/Load (and Rollback)   `ns_elf64_load`
--   Proc/Pipe    kernel/proc/pipe.c, by the critical sections of its calls; Queue: what it
--                implements; Window, Copying, Refine, Order: proofs about it
--   Proc/Sched   the queues of kernel/proc/scheduler.c; Steps: its ticks, waits and choices;
--                Steps/Queues, Sleepers: falling asleep and waking up
--   Proc/Usercopy        kernel/proc/usercopy.c; Ranges, Strings: what it lets through
--   The modules named Tests hold concrete runs.
--
-- Words are numbers with their wrap-around written out. A loop that the source bounds by a count is
-- recursion on the count. `find_run` runs on fuel, one round for each frame below its end and one
-- more, which is enough, as each candidate is beyond the one before. The copy loop of the ELF loader
-- has a round for each byte of the file part, and copies at least one in each. The checksum folds its
-- sum in two rounds. The loop of `ns_kheap_alloc_aligned` needs two rounds, since a search after the
-- heap has grown succeeds; those of `strlen` and `strcmp` run on fuel, a round for each byte.
--
-- Drivers, the source of an ELF file, the mapper, the page callbacks of the heap and the memory
-- callbacks of user copies are parameters. Locks are not modelled: an operation of an allocator is one
-- step, and so is a critical section of a pipe. `ns_kheap_realloc` leaves its lock before it allocates
-- anew; it is modelled where no other call comes in between.
-- The heap's audit follows links that the other operations' model leaves out. Not modelled are the virtual memory manager, the file
-- systems, the rest of the network, processes, system calls, drivers for hardware, the boot loader,
-- user programs and host tools.
pub mod Base
pub mod Core
pub mod Fs
pub mod Mm
pub mod Net
pub mod Proc
