-- ===== src/Mm.antt =====
-- mm/: physical pages and the kernel's allocator, with the page faults of arch/i386/page.c.
pub mod Page
pub mod Kmalloc
pub mod Paging
mod Tests
