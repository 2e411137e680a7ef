-- ===== src/Store/Integrity/History.antt =====
-- The keys of the schema of flotilla/db.py over sequences of store calls.
use ker_sor_monitor.Prelude.{List, [], ◌∷◌}
use ker_sor_monitor.Result.{Result, ok, err}
use ker_sor_monitor.Store.Db.{Db, Tx, empty, connection, outcome}
use ker_sor_monitor.Prelude.Rows.{Unique}
use ker_sor_monitor.Prelude.Sort.{Sorted}
use ker_sor_monitor.Store.Tasks
use ker_sor_monitor.Store.Workers
use ker_sor_monitor.Store.Events
use ker_sor_monitor.Store.Catalog
use ker_sor_monitor.Store.Commands.{Command, execute, history}
use ker_sor_monitor.Store.Integrity.{IsWellFormed}
use ker_sor_monitor.Store.Integrity.Rules.{Kept, insert_worker-Kept}
use ker_sor_monitor.Store.Integrity.Methods.{
  create_tasks-Kept, set_task_state-Kept, claim-IsWellFormed, mark_stale-Kept, activate_worker-Kept,
  finish_worker-Kept, set_workspace-IsWellFormed, end_worker-IsWellFormed, set_uuid-IsWellFormed,
}
use ker_sor_monitor.Store.Integrity.Deletes.{
  append_event-Kept, delete_task-IsWellFormed, create_project-IsWellFormed, create_host-Kept,
  delete_host-IsWellFormed, create_template-IsWellFormed, delete_template-IsWellFormed,
}

settled {ℓ} :
    {A : Type ℓ} (m : Tx A) (db : Db)
    → IsWellFormed db
    → Kept (m db)
    → IsWellFormed (connection m db).1
unfolding connection
settled {A} m db h k = go (m db) k
  where
    go : (r : Result (A × Db)) → Kept r → IsWellFormed (outcome db r).1
    go (ok (a, db')) k' = k'
    go (err e) k' = h

-- Every call of a writing method of `Store`, whatever its arguments, whether it returns or raises,
-- keeps the primary keys unique, the foreign keys resolved and the event ids ascending.
pub execute-IsWellFormed : (c : Command) (db : Db) → IsWellFormed db → IsWellFormed (execute c db)
unfolding execute
execute-IsWellFormed (Command.create_project p) db h = create_project-IsWellFormed p db h
execute-IsWellFormed (Command.create_tasks ts) db h =
    settled (Tasks.create_tasks ts) db h (create_tasks-Kept ts db h)
execute-IsWellFormed (Command.set_task_state now tid new expected) db h =
    settled (Tasks.set_task_state now tid new expected) db h
      (set_task_state-Kept now tid new expected db h)
execute-IsWellFormed (Command.claim_queued_tasks now n) db h = claim-IsWellFormed now n db h
execute-IsWellFormed (Command.mark_stale_dispatching_lost now cutoff) db h =
    settled (Tasks.mark_stale_dispatching_lost now cutoff) db h (mark_stale-Kept now cutoff db h)
execute-IsWellFormed (Command.activate_worker now tid w ws) db h =
    settled (Tasks.activate_worker now tid w ws) db h (activate_worker-Kept now tid w ws db h)
execute-IsWellFormed (Command.finish_worker now tid wid to e) db h =
    settled (Tasks.finish_worker now tid wid to e) db h (finish_worker-Kept now tid wid to e db h)
execute-IsWellFormed (Command.delete_task tid) db h = delete_task-IsWellFormed tid db h
execute-IsWellFormed (Command.set_workspace now tid path) db h =
    set_workspace-IsWellFormed now tid path db h
execute-IsWellFormed (Command.create_worker w) db h =
    settled (Workers.create_worker w) db h
      (unfold Workers.create_worker in insert_worker-Kept w db h)
execute-IsWellFormed (Command.end_worker now wid) db h = end_worker-IsWellFormed now wid db h
execute-IsWellFormed (Command.set_worker_session_uuid wid uuid) db h =
    set_uuid-IsWellFormed wid uuid db h
execute-IsWellFormed (Command.append_event limit e) db h =
    settled (Events.append_event limit e) db h (append_event-Kept limit e db h)
execute-IsWellFormed (Command.create_host g) db h =
    settled (Catalog.create_host g) db h (create_host-Kept g db h)
execute-IsWellFormed (Command.delete_host hid) db h = delete_host-IsWellFormed hid db h
execute-IsWellFormed (Command.create_template t) db h = create_template-IsWellFormed t db h
execute-IsWellFormed (Command.delete_template tid) db h = delete_template-IsWellFormed tid db h

pub empty-IsWellFormed : IsWellFormed empty
unfolding Unique Sorted
empty-IsWellFormed = record {
  projects_unique = tt;
  tasks_unique = tt;
  workers_unique = tt;
  hosts_unique = tt;
  templates_unique = tt;
  locks_unique = tt;
  lock_worker = tt;
  task_project = tt;
  worker_task = tt;
  event_task = tt;
  events_ascend = tt;
  events_below = tt;
}

history_from-IsWellFormed :
    (cs : List Command) (db : Db) → IsWellFormed db → IsWellFormed (history cs db)
unfolding history
history_from-IsWellFormed [] db h = h
history_from-IsWellFormed (c ∷ cs) db h =
    history_from-IsWellFormed cs (execute c db) (execute-IsWellFormed c db h)

-- Every database that store calls reach from the fresh one is well-formed.
pub history-IsWellFormed : (cs : List Command) → IsWellFormed (history cs empty)
history-IsWellFormed cs = history_from-IsWellFormed cs empty empty-IsWellFormed
