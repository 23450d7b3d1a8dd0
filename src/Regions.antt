-- ===== src/Regions.antt =====
-- include/density/detail/system_page_manager.h: regions of memory that are cut into pages.
pub mod Pages
pub mod Handing
pub mod Creation
mod Examples
