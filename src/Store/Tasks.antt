-- ===== src/Store/Tasks.antt =====
-- The task methods of flotilla/store.py. `now` is what `_now()` returns in the call.
pub mod Claim
pub mod Queue
pub mod Activate
use ker_sor_monitor.Prelude.{
  ℕ, zero, suc, ◌+◌, ◌-◌, String, Bool, true, false, not, ◌&&◌, ◌||◌, Option, none, some, List, [],
  ◌∷◌, ◌++◌, ◌==◌, if◌then◌else◌, ltb, leb, nat_beq, map, count_if, filter_if, any_of, take,
  is_some,
}
use ker_sor_monitor.Prelude.Text.{text_le}
use ker_sor_monitor.Prelude.Rows.{has, find, update, delete, Unique}
use ker_sor_monitor.Prelude.Sort.{order_by}
use ker_sor_monitor.Result.{Result, ok, err, ◌>>=◌, integrity_error, runtime_error}
use ker_sor_monitor.State.{
  State, queued, dispatching, running, lost, done, failed, cancelled, is, tag, move,
}
use ker_sor_monitor.Models.{Project, Task, Worker, Event}
use ker_sor_monitor.Json.{str}
use ker_sor_monitor.Store.Db.{
  Db, StoredEvent, LockRow, Tx, insert_event, insert_worker, is_open, is_open_as, end_at, text_lt,
}

-- One row of `INSERT INTO task(…)`, with the primary key and the foreign key on the project.
unfoldable pub insert_task : Task → Tx (Unit {0})
insert_task t db =
    if has Task.id t.id db.tasks || not (has Project.id t.project_id db.projects)
    then err integrity_error
    else ok (tt, record db { tasks = db.tasks ++ t ∷ [] })

unfoldable pub create_tasks : List Task → Tx (Unit {0})
create_tasks [] db = ok (tt, db)
create_tasks (t ∷ ts) db = insert_task t db >>= λ r. create_tasks ts r.1

unfoldable pub create_task : Task → Tx (Unit {0})
unfolding create_tasks
create_task t = create_tasks (t ∷ [])

unfoldable pub get_task : Db → String → Option Task
get_task db tid = find Task.id tid db.tasks

abbrev pub id_le : Task → Task → Bool
id_le t u = text_le t.id u.id

unfoldable pub list_tasks : Db → String → List Task
list_tasks db pid = order_by id_le (filter_if (λ t. t.project_id == pid) db.tasks)

unfoldable pub all_tasks : Db → List Task
all_tasks db = order_by id_le db.tasks

unfoldable pub existing_task_ids : Db → List String → List String
existing_task_ids db ids = map Task.id (filter_if (λ t. any_of (λ i. t.id == i) ids) db.tasks)

-- `ORDER BY updated_at, id`
abbrev pub queue_le : Task → Task → Bool
queue_le t u =
    if text_lt t.updated_at u.updated_at
    then true
    else if text_lt u.updated_at t.updated_at
    then false
    else text_le t.id u.id

abbrev pub in_state : State → Task → Bool
in_state s t = is s t.state

unfoldable pub queued_tasks : Db → List Task
queued_tasks db = order_by queue_le (filter_if (in_state queued) db.tasks)

-- `SET state=s, updated_at=now`
abbrev pub restate : State → String → Task → Task
restate s now t = record t { state = s; updated_at = now }

-- `WHERE id=tid AND state=s`
abbrev pub at_state : String → State → Task → Bool
at_state tid s t = t.id == tid && is s t.state

-- `current in expected`, where None expects nothing.
abbrev pub expects : Option (List State) → State → Bool
expects none s = true
expects (some ss) s = any_of (λ e. is e s) ss

-- After the row has been found.
unfoldable pub set_row_state : String → String → State → Option (List State) → Option Task → Tx Bool
set_row_state now tid new expected none db = ok (false, db)
set_row_state now tid new expected (some row) db =
    if expects expected row.state
    then (move row.state new >>= λ _. ok (
      nat_beq (count_if (at_state tid row.state) db.tasks) 1,
      record db { tasks = update (at_state tid row.state) (restate new now) db.tasks },
    ))
    else ok (false, db)

unfoldable pub set_task_state : String → String → State → Option (List State) → Tx Bool
unfolding set_row_state
set_task_state now tid new expected db =
    set_row_state now tid new expected (find Task.id tid db.tasks) db

unfoldable pub release_task_claim : String → String → State → Tx Bool
unfolding set_task_state
release_task_claim now tid target = set_task_state now tid target (some (dispatching ∷ []))

-- One round of the loop of `claim_queued_tasks`.
unfoldable pub claim_row : String → Task → List Task × List Task → List Task × List Task
claim_row now row (tasks, claimed) = (
  update (at_state row.id queued) (restate dispatching now) tasks,
  if nat_beq (count_if (at_state row.id queued) tasks) 1
      then claimed ++ restate dispatching now row ∷ []
      else claimed,
)

unfoldable pub claim_rows : String → List Task → List Task × List Task → List Task × List Task
unfolding claim_row
claim_rows now [] acc = acc
claim_rows now (row ∷ rows) acc = claim_rows now rows (claim_row now row acc)

-- Workers and claims that take capacity.
unfoldable pub in_use : Db → ℕ
in_use db = count_if is_open db.workers + count_if (in_state dispatching) db.tasks

-- `capacity <= 0` is `max_active ≤ active + dispatching`.
unfoldable pub claim_queued_tasks : String → ℕ → Db → List Task × Db
unfolding in_use queued_tasks claim_rows
claim_queued_tasks now max_active db =
    if leb max_active (in_use db)
    then ([], db)
    else let (tasks, claimed) =
        claim_rows now (take (max_active - in_use db) (queued_tasks db)) (db.tasks, []) in
      (claimed, record db { tasks = tasks })

abbrev pub is_stale : String → Task → Bool
is_stale cutoff t = is dispatching t.state && text_lt t.updated_at cutoff

abbrev pub lost_event : String → String → Event
lost_event now tid = record {
  task_id = tid;
  type = "dispatch_lost";
  payload = ("reason", str "dispatch lease expired") ∷ [];
  ts = now;
}

unfoldable pub lose_row : String → String → Tx (Unit {0})
unfolding insert_event
lose_row now tid db =
    insert_event (lost_event now tid)
      (record db { tasks = update (at_state tid dispatching) (restate lost now) db.tasks })

unfoldable pub lose_rows : String → List Task → Tx (Unit {0})
unfolding lose_row
lose_rows now [] db = ok (tt, db)
lose_rows now (t ∷ ts) db = lose_row now t.id db >>= λ r. lose_rows now ts r.1

-- `cutoff` is the text of the time `older_than_seconds` ago.
unfoldable pub mark_stale_dispatching_lost : String → String → Tx (List String)
unfolding lose_rows
mark_stale_dispatching_lost now cutoff db =
    let rows = order_by id_le (filter_if (is_stale cutoff) db.tasks) in
    lose_rows now rows db >>= λ r. ok (map Task.id rows, r.1)

abbrev pub start_at : String → String → Task → Task
start_at now workspace t = record t {
  state = running;
  workspace_path = some workspace;
  updated_at = now;
}

unfoldable pub activate_row : String → String → Worker → String → Option Task → Tx Bool
unfolding insert_worker
activate_row now tid worker workspace none db = ok (false, db)
activate_row now tid worker workspace (some row) db =
    if is dispatching row.state
    then (move row.state running >>= λ _. insert_worker worker db >>= λ r.
        if nat_beq (count_if (at_state tid dispatching) r.1.tasks) 1
        then ok (
          true,
          record r.1 {
            tasks = update (at_state tid dispatching) (start_at now workspace) r.1.tasks;
          },
        )
        else err runtime_error)
    else ok (false, db)

unfoldable pub activate_worker : String → String → Worker → String → Tx Bool
unfolding activate_row
activate_worker now tid worker workspace db =
    activate_row now tid worker workspace (find Task.id tid db.tasks) db

-- `if worker_id:`, so an empty id ends nothing.
unfoldable pub end_worker_row : String → Option String → Db → Db
end_worker_row now none db = db
end_worker_row now (some wid) db =
    if wid == ""
    then db
    else record db { workers = update (is_open_as wid) (end_at now) db.workers }

unfoldable pub append_optional : Option Event → Tx (Unit {0})
unfolding insert_event
append_optional none db = ok (tt, db)
append_optional (some e) db = insert_event e db

unfoldable pub finish_row :
    String → String → Option String → State → Option Event → Option Task → Tx Bool
unfolding end_worker_row append_optional
finish_row now tid wid terminal event none db = ok (false, db)
finish_row now tid wid terminal event (some row) db = move row.state terminal >>= λ _.
    append_optional event (
      end_worker_row now wid
        (record db { tasks = update (at_state tid row.state) (restate terminal now) db.tasks }))
    >>= λ r. ok (true, r.1)

unfoldable pub finish_worker : String → String → Option String → State → Option Event → Tx Bool
unfolding finish_row
finish_worker now tid wid terminal event db =
    finish_row now tid wid terminal event (find Task.id tid db.tasks) db

unfoldable pub delete_task : String → Db → Db
delete_task tid db = record db {
  locks =
      delete (λ l. any_of (λ w. w.id == l.worker_id) (filter_if (λ w. w.task_id == tid) db.workers))
        db.locks;
  events = delete (λ e. e.event.task_id == tid) db.events;
  workers = delete (λ w. w.task_id == tid) db.workers;
  tasks = delete (λ t. t.id == tid) db.tasks;
}

unfoldable pub set_workspace : String → String → String → Db → Db
set_workspace now tid path db = record db {
  tasks =
      update (λ t. t.id == tid) (λ t. record t { workspace_path = some path; updated_at = now })
        db.tasks;
}

-- `WHERE project_id=?` of the second query of `task_counts`.
abbrev pub in_project : Option String → Task → Bool
in_project none t = true
in_project (some pid) t = t.project_id == pid

-- `counts.get(state, 0)` of the dict that `task_counts` returns.
unfoldable pub task_counts : Db → Option String → State → ℕ
task_counts db pid s = count_if (λ t. in_project pid t && is s t.state) db.tasks
