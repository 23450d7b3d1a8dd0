-- ===== src/PageAllocator.antt =====
-- include/density/detail/page_allocator.h: pages for all threads, in slots of wait-free stacks.
pub mod Calls
pub mod Operations
pub mod CallSteps
pub mod CallLaws
pub mod CallPops
pub mod Pages
pub mod Sums
pub mod Tops
pub mod Invariant
pub mod SlotChanges
pub mod Changes
pub mod Growth
pub mod Steps
pub mod Pops
pub mod Rounds
pub mod Stealing
pub mod Unpinning
pub mod Source
pub mod Giving
pub mod Finding
pub mod Taking
pub mod Pins
pub mod Start
pub mod Default
pub mod Examples
