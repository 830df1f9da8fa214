-- ===== src/Mm.antt =====
-- kernel/mm: physical memory.
pub mod Bitmap
pub mod Pmm
pub mod Heap
