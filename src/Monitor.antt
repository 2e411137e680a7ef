-- ===== src/Monitor.antt =====
-- scripts/monitor_state.py: what the local monitor of running workers computes.
pub mod Processes
pub mod Chunks
pub mod Legacy
pub mod Gpu
pub mod Nudge
pub mod Tables
