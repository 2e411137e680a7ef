-- ===== src/Store/Db.antt =====
-- The database of flotilla/db.py: one list of rows for each table, in the order of insertion, and
-- the counter of the event ids (AUTOINCREMENT). A transaction of `Store._connection` is a function
-- from the database that either raises, and then has changed nothing, or returns the new database.
use ker_sor_monitor.Prelude.{
  ℕ, ◌+◌, String, Bool, true, false, not, ◌&&◌, ◌||◌, none, some, List, [], ◌∷◌, ◌++◌, ◌==◌,
  if◌then◌else◌,
}
use ker_sor_monitor.Prelude.Text.{text_le}
use ker_sor_monitor.Prelude.Rows.{has}
use ker_sor_monitor.Result.{Result, ok, err, integrity_error}
use ker_sor_monitor.Models.{Project, Task, Worker, Event, Host, Template}

pub record StoredEvent : Type 0 where
  pub id : ℕ
  pub event : Event

-- A row of `resource_lock`, which the store only ever deletes from.
pub record LockRow : Type 0 where
  pub id : String
  pub worker_id : String

pub record Db : Type 0 where
  pub projects : List Project
  pub tasks : List Task
  pub workers : List Worker
  pub locks : List LockRow
  pub events : List StoredEvent
  pub next_event : ℕ
  pub hosts : List Host
  pub templates : List Template

-- The tables that `init` creates.
abbrev pub empty : Db
empty = record {
  projects = [];
  tasks = [];
  workers = [];
  locks = [];
  events = [];
  next_event = 1;
  hosts = [];
  templates = [];
}

abbrev pub Tx {ℓ} : Type ℓ → Type ℓ
Tx A = Db → Result (A × Db)

-- The value of a transaction, or its exception, and the database that it leaves.
abbrev pub outcome {ℓ} : {A : Type ℓ} → Db → Result (A × Db) → Result A × Db
outcome db (ok (a, db')) = (ok a, db')
outcome db (err e) = (err e, db)

-- `_connection`: commit on success, roll back on an exception.
unfoldable pub connection {ℓ} : {A : Type ℓ} → Tx A → Db → Result A × Db
connection body db = outcome db (body db)

-- `a < b` on texts.
abbrev pub text_lt : String → String → Bool
text_lt a b = not (text_le b a)

-- `INSERT INTO event(task_id,type,payload,ts)`, with the foreign key on the task.
unfoldable pub insert_event : Event → Tx (Unit {0})
insert_event e db =
    if has Task.id e.task_id db.tasks
    then ok (
      tt,
      record db {
        events = db.events ++ record { id = db.next_event; event = e } ∷ [];
        next_event = db.next_event + 1;
      },
    )
    else err integrity_error

-- `INSERT INTO worker(…)`, with the primary key and the foreign key on the task.
unfoldable pub insert_worker : Worker → Tx (Unit {0})
insert_worker w db =
    if has Worker.id w.id db.workers || not (has Task.id w.task_id db.tasks)
    then err integrity_error
    else ok (tt, record db { workers = db.workers ++ w ∷ [] })

abbrev pub is_open : Worker → Bool
is_open w = elim w.ended_at [ none ↦ true | some _ ↦ false ]

-- `UPDATE worker SET ended_at=now WHERE id=wid AND ended_at IS NULL`
abbrev pub is_open_as : String → Worker → Bool
is_open_as wid w = w.id == wid && is_open w

abbrev pub end_at : String → Worker → Worker
end_at now w = record w { ended_at = some now }
