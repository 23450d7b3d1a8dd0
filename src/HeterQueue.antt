-- ===== src/HeterQueue.antt =====
-- include/density/heter_queue.h: the single-threaded heterogeneous queue.
pub mod Layout
pub mod State
pub mod Put
pub mod Consume
pub mod Words
pub mod Sizes
pub mod Placement
pub mod Chain
pub mod Walk
pub mod Invariant
pub mod Release
pub mod Live
pub mod Consumer
pub mod Cleaning
pub mod Commit
pub mod Extend
pub mod Grow
pub mod Paging
pub mod Zeroed
pub mod Producer
pub mod Loop
pub mod Request
pub mod Inplace
pub mod Contents
pub mod Clear
pub mod Push
pub mod Fixture
pub mod Examples
