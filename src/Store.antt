-- ===== src/Store.antt =====
-- flotilla/store.py over the tables of flotilla/db.py. The definitions stand in `Db`, `Tasks`,
-- `Workers`, `Events` and `Catalog`; the modules below them prove.
pub mod Db
pub mod Tasks
pub mod Workers
pub mod Events
pub mod Catalog
pub mod Commands
pub mod Integrity
pub mod Lifecycle
