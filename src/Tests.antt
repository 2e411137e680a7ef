-- ===== src/Tests.antt =====
-- Sample data, and the theorems applied to it.
pub mod Samples
pub mod Stores
pub mod States
pub mod Effects
pub mod Dispatches
pub mod Published
pub mod Systems
pub mod Monitors
pub mod Nudges
