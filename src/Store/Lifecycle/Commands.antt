-- ===== src/Store/Lifecycle/Commands.antt =====
-- The states of tasks under the store calls as commands.
use ker_sor_monitor.Prelude.{ℕ, String, ◌≡◌, refl, sym, some, List, ◌==◌, arith, inl, inr, ◌⊎◌}
use mathlib.Core.Path.{subst}
use ker_sor_monitor.Prelude.Rows.{has, find, find-delete}
use ker_sor_monitor.Result.{Result, ok, err}
use ker_sor_monitor.Models.{Task, Worker, Event, Host}
use ker_sor_monitor.Store.Db.{Db, insert_event, insert_worker}
use ker_sor_monitor.Store.Tasks
use ker_sor_monitor.Store.Workers
use ker_sor_monitor.Store.Events
use ker_sor_monitor.Store.Catalog
use ker_sor_monitor.Store.Tasks.{at_state, restate, expects, start_at, id_le, is_stale, in_state}
use ker_sor_monitor.Store.Commands.{Command, execute}
use ker_sor_monitor.Store.Lifecycle.{
  Tracks, Follows, Lasts, Lasts-refl, Lasts-update, Lasts-Follows,
}
use ker_sor_monitor.Store.Lifecycle.Lost.{TasksAre, insert_event-TasksAre}
use ker_sor_monitor.Store.Lifecycle.Methods.{
  Tracks-connection, Tracks-if, create_tasks-Tracks, set_row_state-Tracks, claim-Lasts,
  mark_stale-Tracks, TasksAre-then, activate_row-Tracks, finish_row-Tracks, insert_worker-TasksAre,
}

delete_task-Follows : (tid : String) (db : Db) → Follows db.tasks (Tasks.delete_task tid db).tasks
unfolding Tasks.delete_task
delete_task-Follows tid db k t u ft fu =
    inl (ground (arith, find-delete Task.id tid k db.tasks, ft, fu))

append_event-Tracks :
    (limit : ℕ) (e : Event) (db : Db) → Tracks db.tasks (Events.append_event limit e db)
unfolding Events.append_event
append_event-Tracks limit e db =
    TasksAre-then db.tasks (insert_event e db) _ (insert_event-TasksAre e db) (λ _ db'.
      Tracks-if db'.tasks (e.type == "status") _ _ (Lasts-refl db'.tasks) (Lasts-refl db'.tasks))

create_worker-Tracks : (w : Worker) (db : Db) → Tracks db.tasks (insert_worker w db)
create_worker-Tracks w db = go (insert_worker w db) (insert_worker-TasksAre w db)
  where
    go : (r : Result (Unit {0} × Db)) → TasksAre db.tasks r → Tracks db.tasks r
    go (ok (a, db')) e = subst (Lasts db.tasks) (sym e) (Lasts-refl db.tasks)
    go (err x) e = tt

create_host-Tracks : (h : Host) (db : Db) → Tracks db.tasks (Catalog.create_host h db)
unfolding Catalog.create_host
create_host-Tracks h db =
    Tracks-if db.tasks (has Host.id h.id db.hosts) _ _ tt (Lasts-refl db.tasks)

same_tasks : (xs ys : List Task) → ys ≡ xs → Lasts xs ys
same_tasks xs ys e = subst (Lasts xs) (sym e) (Lasts-refl xs)

-- The calls that delete no task.
abbrev pub Keeps : Command → Type 0
Keeps (Command.delete_task tid) = ⊥
Keeps _ = Unit {0}

-- Every other call of a writing method keeps every task.
pub execute-Lasts : (c : Command) (db : Db) → Keeps c → Lasts db.tasks (execute c db).tasks
unfolding execute
execute-Lasts (Command.create_project p) db kept =
    same_tasks db.tasks _ (unfold Catalog.create_project in ground arith)
execute-Lasts (Command.create_tasks ts) db kept =
    Tracks-connection (Tasks.create_tasks ts) db (create_tasks-Tracks ts db)
execute-Lasts (Command.set_task_state now tid new expected) db kept =
    Tracks-connection (Tasks.set_task_state now tid new expected) db (
      unfold Tasks.set_task_state in
      set_row_state-Tracks now tid new expected (find Task.id tid db.tasks) db)
execute-Lasts (Command.claim_queued_tasks now n) db kept = claim-Lasts now n db
execute-Lasts (Command.mark_stale_dispatching_lost now cutoff) db kept =
    Tracks-connection (Tasks.mark_stale_dispatching_lost now cutoff) db
      (mark_stale-Tracks now cutoff db)
execute-Lasts (Command.activate_worker now tid w ws) db kept =
    Tracks-connection (Tasks.activate_worker now tid w ws) db (
      unfold Tasks.activate_worker in
      activate_row-Tracks now tid w ws (find Task.id tid db.tasks) db)
execute-Lasts (Command.finish_worker now tid wid to e) db kept =
    Tracks-connection (Tasks.finish_worker now tid wid to e) db (
      unfold Tasks.finish_worker in
      finish_row-Tracks now tid wid to e (find Task.id tid db.tasks) db)
execute-Lasts (Command.delete_task tid) db kept = absurd kept
execute-Lasts (Command.set_workspace now tid path) db kept =
    unfold Tasks.set_workspace in
    Lasts-update (λ t. t.id == tid) (λ t. record t { workspace_path = some path; updated_at = now })
      db.tasks (λ t. refl) (λ t _. inl refl)
execute-Lasts (Command.create_worker w) db kept =
    Tracks-connection (Workers.create_worker w) db
      (unfold Workers.create_worker in create_worker-Tracks w db)
execute-Lasts (Command.end_worker now wid) db kept =
    unfold Workers.end_worker in Lasts-refl db.tasks
execute-Lasts (Command.set_worker_session_uuid wid uuid) db kept =
    unfold Workers.set_worker_session_uuid in Lasts-refl db.tasks
execute-Lasts (Command.append_event limit e) db kept =
    Tracks-connection (Events.append_event limit e) db (append_event-Tracks limit e db)
execute-Lasts (Command.create_host h) db kept =
    Tracks-connection (Catalog.create_host h) db (create_host-Tracks h db)
execute-Lasts (Command.delete_host hid) db kept = unfold Catalog.delete_host in Lasts-refl db.tasks
execute-Lasts (Command.create_template t) db kept =
    same_tasks db.tasks _ (unfold Catalog.create_template in ground arith)
execute-Lasts (Command.delete_template tid) db kept =
    unfold Catalog.delete_template in Lasts-refl db.tasks

deletion_or_not : (c : Command) → Keeps c ⊎ ((tid : String) × (c ≡ Command.delete_task tid))
deletion_or_not (Command.delete_task tid) = inr (tid, refl)
deletion_or_not _ = inl tt

-- Whatever method of `Store` is called, whether it returns or raises, a task that stands in the
-- table before and after has kept its state or has made one move of the transition table.
pub execute-Follows : (c : Command) (db : Db) → Follows db.tasks (execute c db).tasks
execute-Follows c db = elim (deletion_or_not c) [
  | inl kept ↦ Lasts-Follows db.tasks _ (execute-Lasts c db kept)
  | inr (tid, e) ↦
      subst (λ x. Follows db.tasks (execute x db).tasks) (sym e)
        (unfold execute in delete_task-Follows tid db)
]
