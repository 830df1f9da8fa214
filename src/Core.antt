-- ===== src/Core.antt =====
-- kernel/core: the C library functions.
pub mod String
