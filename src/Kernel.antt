-- ===== src/Kernel.antt =====
-- kernel/: consoles and threads.
pub mod Tty
mod Tests
pub mod Thread
