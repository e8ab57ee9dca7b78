-- ===== src/Clib.antt =====
-- lib/: the C library of the kernel.
pub mod Strings
pub mod Numbers
pub mod Format
mod Tests
