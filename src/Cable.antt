-- ===== src/Cable.antt =====
-- The crate `cable`: posts, messages and their binary encodings.
pub mod Error
pub mod Desert
pub mod Crypto
pub mod Utf8
pub mod Writer
pub mod Reader
pub mod Fields
pub mod Types
pub mod Constants
pub mod Validation
pub mod Post
pub mod Message
