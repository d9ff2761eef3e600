-- ===== src/Manager.antt =====
-- The client manager: damanager/src/client_manager.cc, over the interface of
-- damanager/include/damanager/buffer_manager.h.
pub mod Interface
pub mod State
pub mod Ops
pub mod Faults
pub mod Addresses
pub mod Brackets
pub mod WriteBack
pub mod Tests
pub mod Mapcount
pub mod Untouched
pub mod Wrapped
