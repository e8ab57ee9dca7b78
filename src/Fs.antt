-- ===== src/Fs.antt =====
-- fs/: files, directories and mounts.
pub mod State
pub mod Path
pub mod Tree
pub mod Files
mod Tests
