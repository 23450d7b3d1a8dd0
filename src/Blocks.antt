-- ===== src/Blocks.antt =====
-- include/density/density_common.h: memory blocks of any alignment, from operator new and operator delete.
-- A block that operator new does not align is cut from a larger one; the address of that one stands in a
-- header of eight bytes in front of the block.
pub mod Operations
pub mod Laws
pub mod Headers
pub mod Examples
