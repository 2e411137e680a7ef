-- ===== src/Actuator/Finish.antt =====
-- What `finish_worker` of flotilla/store.py leaves of a task and its worker.
use ker_sor_monitor.Prelude.{
  String, ◌≡◌, refl, sym, ap, ◌∙◌, inl, inr, Bool, true, false, Option, none, some, List, arith,
  ◌==◌, eq_iff, Bool-cases,
}
use ker_sor_monitor.Prelude.Rows.{has, find, update, map_option, find-update, find-key}
use ker_sor_monitor.Result.{Result, ok, err, ◌>>=◌}
use ker_sor_monitor.State.{State, move}
use ker_sor_monitor.Models.{Task, Worker, Event}
use ker_sor_monitor.Store.Db.{Db, insert_event, is_open, is_open_as, end_at}
use ker_sor_monitor.Store.Tasks.{
  finish_worker, finish_row, end_worker_row, append_optional, at_state, restate,
}

-- The tasks and the workers are as before.
abbrev pub SameRows {ℓ} : {A : Type ℓ} → Db → Result (A × Db) → Type 0
SameRows db (ok (a, db')) = (db'.tasks ≡ db.tasks) × (db'.workers ≡ db.workers)
SameRows db (err e) = Unit

pub insert_event-SameRows : (e : Event) (db : Db) → SameRows db (insert_event e db)
unfolding insert_event
insert_event-SameRows e db = elim (Bool-cases (has Task.id e.task_id db.tasks)) [
  | inl there ↦ rw there (refl, refl)
  | inr absent ↦ rw absent tt
]

append_optional-SameRows : (e : Option Event) (db : Db) → SameRows db (append_optional e db)
unfolding append_optional
append_optional-SameRows none db = (refl, refl)
append_optional-SameRows (some e) db = insert_event-SameRows e db

-- The task is in the state, and the worker's row, if one was named, is closed.
abbrev pub IsClosed : String → Option String → State → Db → Type 0
IsClosed tid wid s db =
    (map_option Task.state (find Task.id tid db.tasks) ≡ some s)
    × ((v : String) (x : Worker)
        → wid ≡ some v
        → (v == "") ≡ false
        → find Worker.id v db.workers ≡ some x
        → is_open x ≡ false)

abbrev pub Finished : String → Option String → State → Result (Bool × Db) → Type 0
Finished tid wid s (ok (true, db)) = IsClosed tid wid s db
Finished tid wid s (ok (false, db)) = Unit
Finished tid wid s (err e) = Unit

closed_update :
    (now v : String) (ws : List Worker) (x : Worker)
    → find Worker.id v (update (is_open_as v) (end_at now) ws) ≡ some x
    → is_open x ≡ false
closed_update now v ws x f = ground (
  arith,
  f,
  find-update Worker.id (is_open_as v) (end_at now) (λ y. refl) v ws,
  eq_iff x.id v,
  find-key Worker.id v (update (is_open_as v) (end_at now) ws) x,
)

ended_row :
    (now : String) (wid : Option String) (db : Db) (v : String) (x : Worker)
    → wid ≡ some v
    → (v == "") ≡ false
    → find Worker.id v (end_worker_row now wid db).workers ≡ some x
    → is_open x ≡ false
ended_row now wid db v x e n f = closed_update now v db.workers x (rw (← named) (rw e at f))
  where
    named : (end_worker_row now (some v) db).workers ≡ update (is_open_as v) (end_at now) db.workers
    named = unfold end_worker_row in rw n refl

end_worker_row-tasks :
    (now : String) (wid : Option String) (db : Db) → (end_worker_row now wid db).tasks ≡ db.tasks
unfolding end_worker_row
end_worker_row-tasks now none db = refl
end_worker_row-tasks now (some v) db = ground arith

restated :
    (now tid : String) (row : Task) (s : State) (ts : List Task)
    → find Task.id tid ts ≡ some row
    → map_option Task.state (find Task.id tid (update (at_state tid row.state) (restate s now) ts))
      ≡ some s
restated now tid row s ts f = ground (
  arith,
  f,
  find-update Task.id (at_state tid row.state) (restate s now) (λ y. refl) tid ts,
  eq_iff row.id tid,
  find-key Task.id tid ts row,
)

finish_row-Finished :
    (now tid : String) (wid : Option String) (s : State) (e : Option Event) (row : Option Task)
    (db : Db)
    → find Task.id tid db.tasks ≡ row
    → Finished tid wid s (finish_row now tid wid s e row db)
unfolding finish_row
finish_row-Finished now tid wid s e none db f = tt
finish_row-Finished now tid wid s e (some row) db f =
    let moved : Db = record db {
      tasks = update (at_state tid row.state) (restate s now) db.tasks;
    } in
    check (move row.state s) _ (λ _.
      append (end_worker_row now wid moved) (append_optional e (end_worker_row now wid moved))
        (append_optional-SameRows e (end_worker_row now wid moved))
        (ap (λ ts. map_option Task.state (find Task.id tid ts)) (end_worker_row-tasks now wid moved)
          ∙ restated now tid row s db.tasks f)
        (λ v x named given found. ended_row now wid moved v x named given found))
  where
    append :
        (ended : Db) (r : Result (Unit {0} × Db))
        → SameRows ended r
        → map_option Task.state (find Task.id tid ended.tasks) ≡ some s
        → ((v : String) (x : Worker)
            → wid ≡ some v
            → (v == "") ≡ false
            → find Worker.id v ended.workers ≡ some x
            → is_open x ≡ false)
        → Finished tid wid s (r >>= λ (y : Unit {0} × Db). ok (true, y.1))
    append ended (ok (a, db')) same at_s closed = (
      ap (λ ts. map_option Task.state (find Task.id tid ts)) same.0 ∙ at_s,
      λ v x named given found. closed v x named given (sym (ap (find Worker.id v) same.1) ∙ found),
    )
    append ended (err x) same at_s closed = tt

    check :
        (m : Result State) (f : State → Result (Bool × Db))
        → ((t : State) → Finished tid wid s (f t))
        → Finished tid wid s (m >>= f)
    check (ok t) f k = k t
    check (err x) f k = tt

pub finish_worker-Finished :
    (now tid : String) (wid : Option String) (s : State) (e : Option Event) (db : Db)
    → Finished tid wid s (finish_worker now tid wid s e db)
unfolding finish_worker
finish_worker-Finished now tid wid s e db =
    finish_row-Finished now tid wid s e (find Task.id tid db.tasks) db refl
