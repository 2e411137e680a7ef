-- ===== src/Store/Commands.antt =====
-- The writing methods of `Store` as commands, each in a transaction of its own, and histories of
-- them, as several threads and processes may run them: SQLite serialises the transactions.
use ker_sor_monitor.Prelude.{ℕ, String, Option, List, [], ◌∷◌}
use ker_sor_monitor.State.{State}
use ker_sor_monitor.Models.{Project, Task, Worker, Event, Host, Template}
use ker_sor_monitor.Store.Db.{Db, connection}
use ker_sor_monitor.Store.Tasks
use ker_sor_monitor.Store.Workers
use ker_sor_monitor.Store.Events
use ker_sor_monitor.Store.Catalog

pub data Command : Type 0 where
  create_project : Project → Command
  create_tasks : List Task → Command
  set_task_state : String → String → State → Option (List State) → Command
  claim_queued_tasks : String → ℕ → Command
  mark_stale_dispatching_lost : String → String → Command
  activate_worker : String → String → Worker → String → Command
  finish_worker : String → String → Option String → State → Option Event → Command
  delete_task : String → Command
  set_workspace : String → String → String → Command
  create_worker : Worker → Command
  end_worker : String → String → Command
  set_worker_session_uuid : String → String → Command
  append_event : ℕ → Event → Command
  create_host : Host → Command
  delete_host : String → Command
  create_template : Template → Command
  delete_template : String → Command

-- The database after a command, whether it returned or raised.
unfoldable pub execute : Command → Db → Db
execute (create_project p) db = (Catalog.create_project p db).1
execute (create_tasks ts) db = (connection (Tasks.create_tasks ts) db).1
execute (set_task_state now tid new expected) db =
    (connection (Tasks.set_task_state now tid new expected) db).1
execute (claim_queued_tasks now n) db = (Tasks.claim_queued_tasks now n db).1
execute (mark_stale_dispatching_lost now cutoff) db =
    (connection (Tasks.mark_stale_dispatching_lost now cutoff) db).1
execute (activate_worker now tid w ws) db = (connection (Tasks.activate_worker now tid w ws) db).1
execute (finish_worker now tid wid to e) db =
    (connection (Tasks.finish_worker now tid wid to e) db).1
execute (delete_task tid) db = Tasks.delete_task tid db
execute (set_workspace now tid path) db = Tasks.set_workspace now tid path db
execute (create_worker w) db = (connection (Workers.create_worker w) db).1
execute (end_worker now wid) db = Workers.end_worker now wid db
execute (set_worker_session_uuid wid uuid) db = Workers.set_worker_session_uuid wid uuid db
execute (append_event limit e) db = (connection (Events.append_event limit e) db).1
execute (create_host h) db = (connection (Catalog.create_host h) db).1
execute (delete_host hid) db = Catalog.delete_host hid db
execute (create_template t) db = Catalog.create_template t db
execute (delete_template tid) db = Catalog.delete_template tid db

unfoldable pub history : List Command → Db → Db
history [] db = db
history (c ∷ cs) db = history cs (execute c db)
