-- ===== src/Store/Lifecycle/Lost.antt =====
-- `mark_stale_dispatching_lost` of flotilla/store.py: its loop in one pass.
use ker_sor_monitor.Prelude.{
  String, ◌≡◌, refl, ap, ◌∙◌, ◌&&◌, Option, none, some, List, [], ◌∷◌, arith, eq_iff, if◌then◌else◌,
  inl, inr, Bool-cases,
}
use ker_sor_monitor.Prelude.Rows.{has, find, update, map_option, changed, find-update}
use ker_sor_monitor.Result.{Result, ok, err, ◌>>=◌}
use ker_sor_monitor.State.{dispatching, lost}
use ker_sor_monitor.Models.{Task, Event}
use ker_sor_monitor.Store.Db.{Db, insert_event}
use ker_sor_monitor.Store.Tasks.{restate, at_state, in_state, lose_row, lose_rows, lost_event}

-- The tasks after a transaction.
abbrev pub TasksAre {ℓ} : {A : Type ℓ} → List Task → Result (A × Db) → Type 0
TasksAre ts (ok (a, db)) = db.tasks ≡ ts
TasksAre ts (err e) = Unit

pub insert_event-TasksAre : (e : Event) (db : Db) → TasksAre db.tasks (insert_event e db)
unfolding insert_event
insert_event-TasksAre e db = elim (Bool-cases (has Task.id e.task_id db.tasks)) [
  | inl there ↦ rw there refl
  | inr absent ↦ rw absent tt
]

abbrev pub lost_as : String → List Task → Task → Task
lost_as now rows t =
    if has Task.id t.id rows && in_state dispatching t then restate lost now t else t

lost_as-cons :
    (now : String) (row : Task) (rows : List Task) (t : Task)
    → lost_as now rows (changed (at_state row.id dispatching) (restate lost now) t)
      ≡ lost_as now (row ∷ rows) t
unfolding has
lost_as-cons now row rows t = ground (arith, eq_iff t.id row.id, eq_iff row.id t.id)

-- Every task is what one pass over the rows makes of it.
abbrev pub Marks {ℓ} : {A : Type ℓ} → String → List Task → List Task → Result (A × Db) → Type 0
Marks now rows ts (ok (a, db)) =
    (k : String) → find Task.id k db.tasks ≡ map_option (lost_as now rows) (find Task.id k ts)
Marks now rows ts (err e) = Unit

Marks-then :
    (now : String) (row : Task) (rows ts : List Task) (m : Result (Unit {0} × Db))
    → TasksAre (update (at_state row.id dispatching) (restate lost now) ts) m
    → ((db : Db) → Marks now rows db.tasks (lose_rows now rows db))
    → Marks now (row ∷ rows) ts (m >>= λ r. lose_rows now rows r.1)
Marks-then now row rows ts (err e) h later = tt
Marks-then now row rows ts (ok (a, db)) h later = fused (lose_rows now rows db) (later db)
  where
    cons :
        (o : Option Task)
        → map_option
            (lost_as now rows)
            (map_option (changed (at_state row.id dispatching) (restate lost now)) o)
          ≡ map_option (lost_as now (row ∷ rows)) o
    cons none = refl
    cons (some t) = ap some (lost_as-cons now row rows t)

    fused : (r : Result (Unit {0} × Db)) → Marks now rows db.tasks r → Marks now (row ∷ rows) ts r
    fused (err e) w = tt
    fused (ok (b, db')) w = λ k.
        w k
        ∙ ap (map_option (lost_as now rows)) (
            ap (find Task.id k) h
            ∙ find-update Task.id (at_state row.id dispatching) (restate lost now) (λ x. refl) k ts)
        ∙ cons (find Task.id k ts)

pub lose_rows-Marks :
    (now : String) (rows : List Task) (db : Db) → Marks now rows db.tasks (lose_rows now rows db)
unfolding lose_rows has
lose_rows-Marks now [] db = λ k. ground arith
lose_rows-Marks now (row ∷ rows) db =
    Marks-then now row rows db.tasks (lose_row now row.id db)
      (unfold lose_row in
        insert_event-TasksAre (lost_event now row.id)
          (record db { tasks = update (at_state row.id dispatching) (restate lost now) db.tasks }))
      (λ db'. lose_rows-Marks now rows db')
