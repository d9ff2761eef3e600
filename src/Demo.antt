-- ===== src/Demo.antt =====
-- The demo buffer manager: damanager/src/demo_buffer_manager.cc and its header. The children hold
-- the page table entries, the page transfers, the state, and the operations by what they serve.
pub mod Pte
pub mod PageIo
pub mod State
pub mod Paging
pub mod Regions
pub mod Persist
pub mod Backing
pub mod History
pub mod Instance
pub mod Tests
