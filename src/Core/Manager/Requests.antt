-- ===== src/Core/Manager/Requests.antt =====
-- How `handle` treats requests: repeats, cancellations, and the answers.
pub mod Repeats
pub mod Cancel
pub mod Exchange
pub mod Payloads
pub mod Posts
