-- ===== src/Tests.antt =====
-- The theorems applied to concrete values: a platform, a kernel and messages that meet their
-- conditions.
pub mod Layouts
pub mod Setup
pub mod Storage
pub mod Messages
pub mod Refs
pub mod Pages
pub mod Transfers
pub mod Errors
pub mod Received
pub mod Hostile
pub mod Sessions
pub mod Exchange
pub mod Owners
pub mod Refunds
