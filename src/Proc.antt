-- ===== src/Proc.antt =====
-- kernel/proc: the ELF loader, the scheduler, pipes and user copies.
pub mod Elf
pub mod Sched
pub mod Pipe
pub mod Usercopy
