-- ===== src/Store/Lifecycle/Methods.antt =====
-- The states of tasks under each method of flotilla/store.py that writes them.
use ker_sor_monitor.Prelude.{
  ℕ, String, ◌≡◌, refl, sym, Bool, true, false, not, ◌||◌, Option, none, some, List, [], ◌∷◌, arith,
  if◌then◌else◌, inl, inr, Bool-cases, nat_beq, count_if, map, filter_if,
}
use mathlib.Core.Path.{subst}
use ker_sor_monitor.Prelude.Rows.{has, find, update, find-append, has-find}
use ker_sor_monitor.Prelude.Sort.{order_by}
use ker_sor_monitor.Result.{Result, ok, err, ◌>>=◌}
use ker_sor_monitor.State.{State, dispatching, running, allowed, move, is}
use ker_sor_monitor.Models.{Project, Task, Worker, Event}
use ker_sor_monitor.Store.Db.{Db, Tx, connection, outcome, insert_worker}
use ker_sor_monitor.Store.Tasks
use ker_sor_monitor.Store.Tasks.{at_state, restate, expects, start_at, id_le, is_stale, in_state}
use ker_sor_monitor.Store.Tasks.Claim.{claim_effect, claimed_as, claim_candidates}
use ker_sor_monitor.Store.Lifecycle.{
  Along, Tracks, Lasts, Lasts-refl, Lasts-map, Lasts-update, is-eq, move-Along,
}
use ker_sor_monitor.Store.Lifecycle.Lost.{
  TasksAre, insert_event-TasksAre, Marks, lose_rows-Marks, lost_as,
}

-- A transaction, whether it returns or raises.
pub Tracks-connection {ℓ} :
    {A : Type ℓ} (m : Tx A) (db : Db)
    → Tracks db.tasks (m db)
    → Lasts db.tasks (connection m db).1.tasks
unfolding connection
Tracks-connection {A} m db h = go (m db) h
  where
    go : (r : Result (A × Db)) → Tracks db.tasks r → Lasts db.tasks (outcome db r).1.tasks
    go (ok (a, db')) w = w
    go (err e) w = Lasts-refl db.tasks

pub Tracks-if {ℓ} :
    {A : Type ℓ} (ts : List Task) (b : Bool) (m n : Result (A × Db))
    → Tracks ts m
    → Tracks ts n
    → Tracks ts (if b then m else n)
Tracks-if ts true m n hm hn = hm
Tracks-if ts false m n hm hn = hn

-- After `task_state.transition` has accepted the move.
Tracks-move {ℓ} :
    {A : Type ℓ} (ts : List Task) (a b : State) (f : State → Result (A × Db))
    → (Along a b → (s : State) → Tracks ts (f s))
    → Tracks ts (move a b >>= f)
Tracks-move ts a b f k = go (move a b) refl
  where
    go : (r : Result State) → move a b ≡ r → Tracks ts (r >>= f)
    go (ok s) e = k (move-Along a b s e) s
    go (err x) e = tt

-- `UPDATE task SET state=to … WHERE id=tid AND state=from`
Lasts-restate :
    (now tid : String) (from to : State) (ts : List Task)
    → Along from to
    → Lasts ts (update (at_state tid from) (restate to now) ts)
Lasts-restate now tid from to ts along =
    Lasts-update (at_state tid from) (restate to now) ts (λ t. refl)
      (λ t p.
        let same : from ≡ t.state = is-eq from t.state (ground (arith, p)) in rw (← same) along)

-- Rows are only added.
abbrev Extends {ℓ} : {A : Type ℓ} → List Task → Result (A × Db) → Type 0
Extends ts (ok (a, db)) =
    (k : String) (t : Task) → find Task.id k ts ≡ some t → find Task.id k db.tasks ≡ some t
Extends ts (err e) = Unit

insert_task-Extends : (t : Task) (db : Db) → Extends db.tasks (Tasks.insert_task t db)
unfolding Tasks.insert_task
insert_task-Extends t db =
    elim (Bool-cases (has Task.id t.id db.tasks || not (has Project.id t.project_id db.projects))) [
      | inl e ↦ rw e tt
      | inr e ↦ rw e (λ k u f.
          ground (arith, f, find-append Task.id k db.tasks (t ∷ []), has-find Task.id k db.tasks))
    ]

Extends-then :
    (ts us : List Task) (m : Result (Unit {0} × Db))
    → Extends ts m
    → ((db : Db) → Extends db.tasks (Tasks.create_tasks us db))
    → Extends ts (m >>= λ r. Tasks.create_tasks us r.1)
Extends-then ts us (err e) h later = tt
Extends-then ts us (ok (a, db)) h later = go (Tasks.create_tasks us db) (later db)
  where
    go : (r : Result (Unit {0} × Db)) → Extends db.tasks r → Extends ts r
    go (ok (b, db')) w = λ k t f. w k t (h k t f)
    go (err e) w = tt

create_tasks-Extends : (ts : List Task) (db : Db) → Extends db.tasks (Tasks.create_tasks ts db)
unfolding Tasks.create_tasks
create_tasks-Extends [] db = λ k t f. f
create_tasks-Extends (t ∷ ts) db =
    Extends-then db.tasks ts (Tasks.insert_task t db) (insert_task-Extends t db)
      (λ db'. create_tasks-Extends ts db')

pub create_tasks-Tracks : (ts : List Task) (db : Db) → Tracks db.tasks (Tasks.create_tasks ts db)
create_tasks-Tracks ts db = go (Tasks.create_tasks ts db) (create_tasks-Extends ts db)
  where
    go : (r : Result (Unit {0} × Db)) → Extends db.tasks r → Tracks db.tasks r
    go (ok (b, db')) w = λ k t ft. (t, w k t ft, inl refl)
    go (err e) w = tt

pub set_row_state-Tracks :
    (now tid : String) (new : State) (expected : Option (List State)) (row : Option Task) (db : Db)
    → Tracks db.tasks (Tasks.set_row_state now tid new expected row db)
unfolding Tasks.set_row_state
set_row_state-Tracks now tid new expected none db = Lasts-refl db.tasks
set_row_state-Tracks now tid new expected (some row) db =
    Tracks-if db.tasks (expects expected row.state) _ _
      (Tracks-move db.tasks row.state new _
        (λ along _. Lasts-restate now tid row.state new db.tasks along))
      (Lasts-refl db.tasks)

pub claim-Lasts :
    (now : String) (n : ℕ) (db : Db) → Lasts db.tasks (Tasks.claim_queued_tasks now n db).1.tasks
claim-Lasts now n db =
    Lasts-map (claimed_as now (claim_candidates n db)) db.tasks _ (λ k. (claim_effect now k n db).0)
      (λ t. unfold allowed in ground arith)

pub mark_stale-Tracks :
    (now cutoff : String) (db : Db)
    → Tracks db.tasks (Tasks.mark_stale_dispatching_lost now cutoff db)
unfolding Tasks.mark_stale_dispatching_lost
mark_stale-Tracks now cutoff db =
    let rows = order_by id_le (filter_if (is_stale cutoff) db.tasks) in
    go rows (Tasks.lose_rows now rows db) (lose_rows-Marks now rows db)
  where
    go :
        (rows : List Task) (r : Result (Unit {0} × Db))
        → Marks now rows db.tasks r
        → Tracks db.tasks (r >>= λ (x : Unit {0} × Db). ok (map Task.id rows, x.1))
    go rows (ok (a, db')) w =
        Lasts-map (lost_as now rows) db.tasks db'.tasks w (λ t. unfold allowed in ground arith)
    go rows (err e) w = tt

pub insert_worker-TasksAre : (w : Worker) (db : Db) → TasksAre db.tasks (insert_worker w db)
unfolding insert_worker
insert_worker-TasksAre w db =
    elim (Bool-cases (has Worker.id w.id db.workers || not (has Task.id w.task_id db.tasks))) [
      | inl e ↦ rw e tt
      | inr e ↦ rw e refl
    ]

-- Steps that leave the tasks alone, and then one that is tracked.
pub TasksAre-then {ℓ κ} :
    {A : Type ℓ} {B : Type κ} (ts : List Task) (m : Result (A × Db)) (f : A × Db → Result (B × Db))
    → TasksAre ts m
    → ((a : A) (db : Db) → Tracks db.tasks (f (a, db)))
    → Tracks ts (m >>= f)
TasksAre-then ts (ok (a, db)) f h k = subst (λ xs. Tracks xs (f (a, db))) h (k a db)
TasksAre-then ts (err e) f h k = tt

pub activate_row-Tracks :
    (now tid : String) (w : Worker) (ws : String) (row : Option Task) (db : Db)
    → Tracks db.tasks (Tasks.activate_row now tid w ws row db)
unfolding Tasks.activate_row
activate_row-Tracks now tid w ws none db = Lasts-refl db.tasks
activate_row-Tracks now tid w ws (some row) db =
    Tracks-if db.tasks (is dispatching row.state) _ _
      (Tracks-move db.tasks row.state running _ (λ _ _.
        TasksAre-then db.tasks (insert_worker w db) _ (insert_worker-TasksAre w db) (λ _ db'.
          Tracks-if db'.tasks (nat_beq (count_if (at_state tid dispatching) db'.tasks) 1) _ _
            (Lasts-update (at_state tid dispatching) (start_at now ws) db'.tasks (λ t. refl)
              (λ t p. unfold allowed in ground (arith, p)))
            tt)))
      (Lasts-refl db.tasks)

append_optional-TasksAre :
    (e : Option Event) (db : Db) → TasksAre db.tasks (Tasks.append_optional e db)
unfolding Tasks.append_optional
append_optional-TasksAre none db = refl
append_optional-TasksAre (some e) db = insert_event-TasksAre e db

end_worker_row-tasks :
    (now : String) (wid : Option String) (db : Db)
    → (Tasks.end_worker_row now wid db).tasks ≡ db.tasks
unfolding Tasks.end_worker_row
end_worker_row-tasks now wid db = ground arith

pub finish_row-Tracks :
    (now tid : String) (wid : Option String) (to : State) (e : Option Event) (row : Option Task)
    (db : Db)
    → Tracks db.tasks (Tasks.finish_row now tid wid to e row db)
unfolding Tasks.finish_row
finish_row-Tracks now tid wid to e none db = Lasts-refl db.tasks
finish_row-Tracks now tid wid to e (some row) db = Tracks-move db.tasks row.state to _ (λ along _.
    let ended =
      Tasks.end_worker_row now wid
        (record db { tasks = update (at_state tid row.state) (restate to now) db.tasks }) in
    go ended.tasks (Tasks.append_optional e ended) (append_optional-TasksAre e ended) (
      subst (Lasts db.tasks) (sym (end_worker_row-tasks now wid _))
        (Lasts-restate now tid row.state to db.tasks along)))
  where
    go :
        (us : List Task) (r : Result (Unit {0} × Db))
        → TasksAre us r
        → Lasts db.tasks us
        → Tracks db.tasks (r >>= λ (x : Unit {0} × Db). ok (true, x.1))
    go us (ok (a, db')) w f = subst (Lasts db.tasks) (sym w) f
    go us (err x) w f = tt
