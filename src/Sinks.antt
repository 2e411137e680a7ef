-- ===== src/Sinks.antt =====
-- flotilla/sinks/: what is published of tasks.
pub mod Status
pub mod Bounded
pub mod View
pub mod Web
pub mod Queue
