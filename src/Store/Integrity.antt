-- ===== src/Store/Integrity.antt =====
-- The constraints that the schema of flotilla/db.py declares, as an invariant of the database:
-- primary keys, foreign keys, and the order of the event ids.
pub mod Rules
pub mod Methods
pub mod Deletes
pub mod History
use ker_sor_monitor.Prelude.{ℕ, ◌<◌, ◌≡◌, Bool, true, All, ltb}
use ker_sor_monitor.Prelude.Rows.{has, Unique}
use ker_sor_monitor.Prelude.Sort.{Sorted}
use ker_sor_monitor.Models.{Project, Task, Worker, Host, Template}
use ker_sor_monitor.Store.Db.{Db, StoredEvent, LockRow}

abbrev pub event_lt : StoredEvent → StoredEvent → Bool
event_lt a b = ltb a.id b.id

pub record IsWellFormed (db : Db) : Type 0 where
  pub projects_unique : Unique Project.id db.projects
  pub tasks_unique : Unique Task.id db.tasks
  pub workers_unique : Unique Worker.id db.workers
  pub hosts_unique : Unique Host.id db.hosts
  pub templates_unique : Unique Template.id db.templates
  pub locks_unique : Unique LockRow.id db.locks
  pub lock_worker : All (λ l. has Worker.id l.worker_id db.workers ≡ true) db.locks
  pub task_project : All (λ t. has Project.id t.project_id db.projects ≡ true) db.tasks
  pub worker_task : All (λ w. has Task.id w.task_id db.tasks ≡ true) db.workers
  pub event_task : All (λ e. has Task.id e.event.task_id db.tasks ≡ true) db.events
  pub events_ascend : Sorted event_lt db.events
  pub events_below : All (λ e. e.id < db.next_event) db.events
