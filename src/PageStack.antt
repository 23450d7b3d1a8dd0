-- ===== src/PageStack.antt =====
-- include/density/detail/page_stack.h and wf_page_stack.h: stacks of pages, linked by their footers.
pub mod Operations
pub mod Segment
pub mod Sequential
pub mod Popping
pub mod WaitFree
pub mod Conservation
pub mod Conserved
pub mod Population
pub mod Restoring
pub mod Cutting
mod Examples
