-- ===== src/Lifo.antt =====
-- include/density/lifo.h: the allocator of blocks in last in, first out order.
pub mod Layout
pub mod Operations
pub mod Stack
pub mod Allocation
pub mod Last
pub mod Deallocation
pub mod Reallocation
pub mod Lifetime
pub mod Buffer
pub mod Array
pub mod ArrayStorage
pub mod ArrayTrace
pub mod ArrayScope
pub mod Separate
pub mod Disjoint
mod Fixture
mod Examples
