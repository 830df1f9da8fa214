-- ===== src/Fs.antt =====
-- kernel/fs: the block layer.
pub mod Block
