-- ===== src/Cow.antt =====
-- lab6: xv6-labs-2024/lab6: cow/1. Implement copy-on-write fork/kernel. The physical page allocator
-- with reference counts (Kalloc), the page tables that it shares between processes (Paging), and
-- copy-on-write over both (Fork, Fault, Trap, Copyout).
pub mod Kalloc
pub mod Paging
pub mod Fork
pub mod Fault
pub mod Trap
pub mod Copyout
mod Sample
mod Tests
mod CopyTests
