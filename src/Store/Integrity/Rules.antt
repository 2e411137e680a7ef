-- ===== src/Store/Integrity/Rules.antt =====
-- The statements on one table, under the constraints.
use ker_sor_monitor.Prelude.{
  ◌+◌, ◌<◌, ◌≡◌, refl, ◌∙◌, Bool, true, false, not, ◌||◌, [], ◌∷◌, arith, if◌then◌else◌, All-map,
  All-append, lt→ltb,
}
use ker_sor_monitor.Prelude.Rows.{
  has, update, has-update, Unique-update, has-append, Unique-append, All-update,
}
use ker_sor_monitor.Prelude.Sort.{Sorted-append}
use ker_sor_monitor.Result.{Result, ok, err, ◌>>=◌}
use ker_sor_monitor.Models.{Project, Task, Worker, Event}
use ker_sor_monitor.Store.Db.{Db, insert_event, insert_worker}
use ker_sor_monitor.Store.Tasks.{insert_task}
use ker_sor_monitor.Store.Integrity.{IsWellFormed, event_lt}

-- A transaction that returns leaves a well-formed database; one that raises has changed nothing.
abbrev pub Kept {ℓ} : {A : Type ℓ} → Result (A × Db) → Type 0
Kept (ok (a, db)) = IsWellFormed db
Kept (err e) = Unit

pub Kept-bind {ℓ κ} :
    {A : Type ℓ} {B : Type κ} (m : Result (A × Db)) (f : A × Db → Result (B × Db))
    → Kept m
    → ((a : A) (db : Db) → IsWellFormed db → Kept (f (a, db)))
    → Kept (m >>= f)
Kept-bind (ok (a, db)) f h k = k a db h
Kept-bind (err e) f h k = tt

pub Kept-if {ℓ} :
    {A : Type ℓ} (b : Bool) (m n : Result (A × Db))
    → (b ≡ true → Kept m)
    → (b ≡ false → Kept n)
    → Kept (if b then m else n)
Kept-if true m n hm hn = hm refl
Kept-if false m n hm hn = hn refl

-- UPDATE of tasks that keeps ids and projects.
pub tasks-IsWellFormed :
    (db : Db) (p : Task → Bool) (f : Task → Task)
    → ((t : Task) → (f t).id ≡ t.id)
    → ((t : Task) → (f t).project_id ≡ t.project_id)
    → IsWellFormed db
    → IsWellFormed (record db { tasks = update p f db.tasks })
tasks-IsWellFormed db p f same_id same_project h = record {
  projects_unique = h.projects_unique;
  tasks_unique = Unique-update Task.id p f same_id db.tasks h.tasks_unique;
  workers_unique = h.workers_unique;
  hosts_unique = h.hosts_unique;
  templates_unique = h.templates_unique;
  locks_unique = h.locks_unique;
  lock_worker = h.lock_worker;
  task_project =
      All-update (λ t. has Project.id t.project_id db.projects ≡ true) p f
        (λ t e. rw same_project e) db.tasks h.task_project;
  worker_task =
      All-map (λ w e. has-update Task.id p f same_id w.task_id db.tasks ∙ e) db.workers
        h.worker_task;
  event_task =
      All-map (λ e x. has-update Task.id p f same_id e.event.task_id db.tasks ∙ x) db.events
        h.event_task;
  events_ascend = h.events_ascend;
  events_below = h.events_below;
}

-- UPDATE of workers that keeps ids and tasks.
pub workers-IsWellFormed :
    (db : Db) (p : Worker → Bool) (f : Worker → Worker)
    → ((w : Worker) → (f w).id ≡ w.id)
    → ((w : Worker) → (f w).task_id ≡ w.task_id)
    → IsWellFormed db
    → IsWellFormed (record db { workers = update p f db.workers })
workers-IsWellFormed db p f same_id same_task h = record {
  projects_unique = h.projects_unique;
  tasks_unique = h.tasks_unique;
  workers_unique = Unique-update Worker.id p f same_id db.workers h.workers_unique;
  hosts_unique = h.hosts_unique;
  templates_unique = h.templates_unique;
  locks_unique = h.locks_unique;
  lock_worker =
      All-map (λ l e. has-update Worker.id p f same_id l.worker_id db.workers ∙ e) db.locks
        h.lock_worker;
  task_project = h.task_project;
  worker_task =
      All-update (λ w. has Task.id w.task_id db.tasks ≡ true) p f (λ w e. rw same_task e) db.workers
        h.worker_task;
  event_task = h.event_task;
  events_ascend = h.events_ascend;
  events_below = h.events_below;
}

-- INSERT of an event.
pub insert_event-Kept : (e : Event) (db : Db) → IsWellFormed db → Kept (insert_event e db)
unfolding insert_event
insert_event-Kept e db h =
    Kept-if (has Task.id e.task_id db.tasks) _ _
      (λ there. record {
        projects_unique = h.projects_unique;
        tasks_unique = h.tasks_unique;
        workers_unique = h.workers_unique;
        hosts_unique = h.hosts_unique;
        templates_unique = h.templates_unique;
        locks_unique = h.locks_unique;
        lock_worker = h.lock_worker;
        task_project = h.task_project;
        worker_task = h.worker_task;
        event_task =
            All-append (λ x. has Task.id x.event.task_id db.tasks ≡ true) db.events
              (record { id = db.next_event; event = e } ∷ []) h.event_task (there, tt);
        events_ascend =
            Sorted-append event_lt db.events (record { id = db.next_event; event = e })
              h.events_ascend
              (All-map (λ x below. lt→ltb x.id db.next_event below) db.events h.events_below);
        events_below =
            All-append (λ x. x.id < db.next_event + 1) db.events
              (record { id = db.next_event; event = e } ∷ [])
              (All-map (λ x below. omega arith) db.events h.events_below) (omega arith, tt);
      })
      (λ absent. tt)

-- INSERT of a worker.
pub insert_worker-Kept : (w : Worker) (db : Db) → IsWellFormed db → Kept (insert_worker w db)
unfolding insert_worker
insert_worker-Kept w db h =
    Kept-if (has Worker.id w.id db.workers || not (has Task.id w.task_id db.tasks)) _ _ (λ _. tt)
      (λ fresh. record {
        projects_unique = h.projects_unique;
        tasks_unique = h.tasks_unique;
        workers_unique =
            Unique-append Worker.id db.workers w h.workers_unique (ground (arith, fresh));
        hosts_unique = h.hosts_unique;
        templates_unique = h.templates_unique;
        locks_unique = h.locks_unique;
        lock_worker =
            All-map (λ l e. ground (arith, e, has-append Worker.id l.worker_id db.workers (w ∷ [])))
              db.locks h.lock_worker;
        task_project = h.task_project;
        worker_task =
            All-append (λ x. has Task.id x.task_id db.tasks ≡ true) db.workers (w ∷ [])
              h.worker_task (ground (arith, fresh), tt);
        event_task = h.event_task;
        events_ascend = h.events_ascend;
        events_below = h.events_below;
      })

-- INSERT of a task.
pub insert_task-Kept : (t : Task) (db : Db) → IsWellFormed db → Kept (insert_task t db)
unfolding insert_task
insert_task-Kept t db h =
    Kept-if (has Task.id t.id db.tasks || not (has Project.id t.project_id db.projects)) _ _
      (λ _. tt)
      (λ fresh. record {
        projects_unique = h.projects_unique;
        tasks_unique = Unique-append Task.id db.tasks t h.tasks_unique (ground (arith, fresh));
        workers_unique = h.workers_unique;
        hosts_unique = h.hosts_unique;
        templates_unique = h.templates_unique;
        locks_unique = h.locks_unique;
        lock_worker = h.lock_worker;
        task_project =
            All-append (λ x. has Project.id x.project_id db.projects ≡ true) db.tasks (t ∷ [])
              h.task_project (ground (arith, fresh), tt);
        worker_task =
            All-map (λ w e. ground (arith, e, has-append Task.id w.task_id db.tasks (t ∷ [])))
              db.workers h.worker_task;
        event_task =
            All-map (λ x e. ground (arith, e, has-append Task.id x.event.task_id db.tasks (t ∷ [])))
              db.events h.event_task;
        events_ascend = h.events_ascend;
        events_below = h.events_below;
      })
