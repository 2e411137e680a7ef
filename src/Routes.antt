-- ===== src/Routes.antt =====
-- flotilla/routes.py: the HTTP interface.
pub mod Create
pub mod Valid
pub mod Remove
pub mod Ping
pub mod Entries
pub mod Control
