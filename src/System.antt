-- ===== src/System.antt =====
-- The control plane as a whole: what its operations do to the database, and its histories.
pub mod Evolves
pub mod Actuation
pub mod Observation
pub mod Scheduling
pub mod Requests
pub mod Handlers
pub mod Restart
pub mod Histories
pub mod Lasting
