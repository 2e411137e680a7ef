-- ===== src/Store/Integrity/Methods.antt =====
-- The methods of `Store` that write rows of tasks, workers and events, under the constraints.
use ker_sor_monitor.Prelude.{
  ℕ, ◌-◌, String, refl, Option, none, some, List, [], ◌∷◌, ◌==◌, leb, nat_beq, count_if, take,
  Bool-cases, inl, inr, map, filter_if,
}
use ker_sor_monitor.Prelude.Rows.{find, update}
use ker_sor_monitor.Prelude.Sort.{order_by}
use ker_sor_monitor.Result.{Result, ok, err, ◌>>=◌}
use ker_sor_monitor.State.{State, queued, dispatching, running, lost, is, move}
use ker_sor_monitor.Models.{Task, Worker, Event}
use ker_sor_monitor.Store.Db.{Db, insert_worker, is_open_as, end_at}
use ker_sor_monitor.Store.Tasks.{
  create_tasks, insert_task, set_task_state, set_row_state, expects, at_state, restate, id_le,
  is_stale, claim_row, claim_rows, claim_queued_tasks, in_use, queued_tasks, lose_row, lose_rows,
  lost_event, mark_stale_dispatching_lost, activate_worker, activate_row, start_at, finish_worker,
  finish_row, end_worker_row, append_optional, set_workspace,
}
use ker_sor_monitor.Store.Workers.{end_worker, set_worker_session_uuid}
use ker_sor_monitor.Store.Integrity.{IsWellFormed}
use ker_sor_monitor.Store.Integrity.Rules.{
  Kept, Kept-bind, Kept-if, tasks-IsWellFormed, workers-IsWellFormed, insert_event-Kept,
  insert_worker-Kept, insert_task-Kept,
}

-- A check that changes nothing, such as `task_state.transition`.
Kept-check {ℓ κ} :
    {A : Type ℓ} {B : Type κ} (m : Result A) (f : A → Result (B × Db))
    → ((a : A) → Kept (f a))
    → Kept (m >>= f)
Kept-check (ok a) f k = k a
Kept-check (err e) f k = tt

restate-IsWellFormed :
    (db : Db) (now tid : String) (from to : State)
    → IsWellFormed db
    → IsWellFormed (record db { tasks = update (at_state tid from) (restate to now) db.tasks })
restate-IsWellFormed db now tid from to h =
    tasks-IsWellFormed db (at_state tid from) (restate to now) (λ t. refl) (λ t. refl) h

pub create_tasks-Kept : (ts : List Task) (db : Db) → IsWellFormed db → Kept (create_tasks ts db)
unfolding create_tasks
create_tasks-Kept [] db h = h
create_tasks-Kept (t ∷ ts) db h =
    Kept-bind (insert_task t db) (λ r. create_tasks ts r.1) (insert_task-Kept t db h)
      (λ _ db' h'. create_tasks-Kept ts db' h')

set_row_state-Kept :
    (now tid : String) (new : State) (expected : Option (List State)) (row : Option Task) (db : Db)
    → IsWellFormed db
    → Kept (set_row_state now tid new expected row db)
unfolding set_row_state
set_row_state-Kept now tid new expected none db h = h
set_row_state-Kept now tid new expected (some row) db h =
    Kept-if (expects expected row.state) _ _
      (λ _.
        Kept-check (move row.state new) _ (λ _. restate-IsWellFormed db now tid row.state new h))
      (λ _. h)

pub set_task_state-Kept :
    (now tid : String) (new : State) (expected : Option (List State)) (db : Db)
    → IsWellFormed db
    → Kept (set_task_state now tid new expected db)
unfolding set_task_state
set_task_state-Kept now tid new expected db h =
    set_row_state-Kept now tid new expected (find Task.id tid db.tasks) db h

claim_rows-IsWellFormed :
    (now : String) (rows ts cl : List Task) (db : Db)
    → IsWellFormed (record db { tasks = ts })
    → IsWellFormed (record db { tasks = (claim_rows now rows (ts, cl)).0 })
unfolding claim_rows
claim_rows-IsWellFormed now [] ts cl db h = h
claim_rows-IsWellFormed now (row ∷ rows) ts cl db h =
    claim_rows-IsWellFormed now rows (claim_row now row (ts, cl)).0 (claim_row now row (ts, cl)).1
      db
      (unfold claim_row in
        restate-IsWellFormed (record db { tasks = ts }) now row.id queued dispatching h)

pub claim-IsWellFormed :
    (now : String) (n : ℕ) (db : Db)
    → IsWellFormed db
    → IsWellFormed (claim_queued_tasks now n db).1
unfolding claim_queued_tasks
claim-IsWellFormed now n db h = elim (Bool-cases (leb n (in_use db))) [
  | inl e ↦ rw e h
  | inr e ↦
      rw e (claim_rows-IsWellFormed now (take (n - in_use db) (queued_tasks db)) db.tasks [] db h)
]

lose_rows-Kept :
    (now : String) (ts : List Task) (db : Db) → IsWellFormed db → Kept (lose_rows now ts db)
unfolding lose_rows
lose_rows-Kept now [] db h = h
lose_rows-Kept now (t ∷ ts) db h =
    Kept-bind (lose_row now t.id db) (λ r. lose_rows now ts r.1)
      (unfold lose_row in
        insert_event-Kept (lost_event now t.id)
          (record db { tasks = update (at_state t.id dispatching) (restate lost now) db.tasks })
          (restate-IsWellFormed db now t.id dispatching lost h))
      (λ _ db' h'. lose_rows-Kept now ts db' h')

pub mark_stale-Kept :
    (now cutoff : String) (db : Db)
    → IsWellFormed db
    → Kept (mark_stale_dispatching_lost now cutoff db)
unfolding mark_stale_dispatching_lost
mark_stale-Kept now cutoff db h =
    let rows = order_by id_le (filter_if (is_stale cutoff) db.tasks) in
    Kept-bind (lose_rows now rows db) (λ (r : Unit {0} × Db). ok (map Task.id rows, r.1))
      (lose_rows-Kept now rows db h) (λ _ db' h'. h')

activate_row-Kept :
    (now tid : String) (w : Worker) (ws : String) (row : Option Task) (db : Db)
    → IsWellFormed db
    → Kept (activate_row now tid w ws row db)
unfolding activate_row
activate_row-Kept now tid w ws none db h = h
activate_row-Kept now tid w ws (some row) db h =
    Kept-if (is dispatching row.state) _ _
      (λ _. Kept-check (move row.state running) _ (λ _.
        Kept-bind (insert_worker w db) _ (insert_worker-Kept w db h) (λ _ db' h'.
          Kept-if (nat_beq (count_if (at_state tid dispatching) db'.tasks) 1) _ _
            (λ _.
              tasks-IsWellFormed db' (at_state tid dispatching) (start_at now ws) (λ t. refl)
                (λ t. refl) h')
            (λ _. tt))))
      (λ _. h)

pub activate_worker-Kept :
    (now tid : String) (w : Worker) (ws : String) (db : Db)
    → IsWellFormed db
    → Kept (activate_worker now tid w ws db)
unfolding activate_worker
activate_worker-Kept now tid w ws db h =
    activate_row-Kept now tid w ws (find Task.id tid db.tasks) db h

pub end_worker-IsWellFormed :
    (now wid : String) (db : Db) → IsWellFormed db → IsWellFormed (end_worker now wid db)
unfolding end_worker
end_worker-IsWellFormed now wid db h =
    workers-IsWellFormed db (is_open_as wid) (end_at now) (λ w. refl) (λ w. refl) h

end_worker_row-IsWellFormed :
    (now : String) (wid : Option String) (db : Db)
    → IsWellFormed db
    → IsWellFormed (end_worker_row now wid db)
unfolding end_worker_row
end_worker_row-IsWellFormed now none db h = h
end_worker_row-IsWellFormed now (some wid) db h = elim (Bool-cases (wid == "")) [
  | inl e ↦ rw e h
  | inr e ↦ rw e (workers-IsWellFormed db (is_open_as wid) (end_at now) (λ w. refl) (λ w. refl) h)
]

append_optional-Kept : (e : Option Event) (db : Db) → IsWellFormed db → Kept (append_optional e db)
unfolding append_optional
append_optional-Kept none db h = h
append_optional-Kept (some e) db h = insert_event-Kept e db h

finish_row-Kept :
    (now tid : String) (wid : Option String) (to : State) (e : Option Event) (row : Option Task)
    (db : Db)
    → IsWellFormed db
    → Kept (finish_row now tid wid to e row db)
unfolding finish_row
finish_row-Kept now tid wid to e none db h = h
finish_row-Kept now tid wid to e (some row) db h = Kept-check (move row.state to) _ (λ _.
    Kept-bind (append_optional e _) _
      (append_optional-Kept e _
        (end_worker_row-IsWellFormed now wid _ (restate-IsWellFormed db now tid row.state to h)))
      (λ _ db' h'. h'))

pub finish_worker-Kept :
    (now tid : String) (wid : Option String) (to : State) (e : Option Event) (db : Db)
    → IsWellFormed db
    → Kept (finish_worker now tid wid to e db)
unfolding finish_worker
finish_worker-Kept now tid wid to e db h =
    finish_row-Kept now tid wid to e (find Task.id tid db.tasks) db h

pub set_workspace-IsWellFormed :
    (now tid path : String) (db : Db)
    → IsWellFormed db
    → IsWellFormed (set_workspace now tid path db)
unfolding set_workspace
set_workspace-IsWellFormed now tid path db h =
    tasks-IsWellFormed db (λ t. t.id == tid)
      (λ t. record t { workspace_path = some path; updated_at = now }) (λ t. refl) (λ t. refl) h

pub set_uuid-IsWellFormed :
    (wid uuid : String) (db : Db)
    → IsWellFormed db
    → IsWellFormed (set_worker_session_uuid wid uuid db)
unfolding set_worker_session_uuid
set_uuid-IsWellFormed wid uuid db h =
    workers-IsWellFormed db (λ w. w.id == wid) (λ w. record w { session_uuid = some uuid })
      (λ w. refl) (λ w. refl) h
