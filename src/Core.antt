-- ===== src/Core.antt =====
-- The crate `cable_core`: the store of posts, and the manager.
pub mod Map
pub mod Stream
pub mod Store
pub mod Step
pub mod Manager
