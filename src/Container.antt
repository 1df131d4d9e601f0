-- ===== src/Container.antt =====
-- The containers of bootstrap/cell.c.
pub mod Memory
pub mod Deque
pub mod Vector
pub mod Buffer
pub mod Heap
