-- ===== src/Store/Integrity/Deletes.antt =====
-- The methods of `Store` that delete rows, and those of projects, hosts and templates, under the
-- constraints.
use ker_sor_monitor.Prelude.{
  ℕ, String, refl, Bool, not, ◌&&◌, List, [], ◌∷◌, ◌++◌, ◌==◌, arith, eq_iff, All-map, Bool-cases,
  ◌≡◌, true, false, any_of, filter_if, inl, inr,
}
use ker_sor_monitor.Prelude.Rows.{
  has, update, delete, Unique, Unique-update, has-append, Unique-append, Unique-delete, All-delete,
  has-delete_key,
}
use ker_sor_monitor.Prelude.Sort.{Sorted-delete}
use ker_sor_monitor.Models.{Project, Task, Worker, Event, Host, Template}
use ker_sor_monitor.Store.Db.{Db, StoredEvent, LockRow, insert_event}
use ker_sor_monitor.Store.Tasks.{delete_task}
use ker_sor_monitor.Store.Events.{append_event, prune}
use ker_sor_monitor.Store.Catalog.{
  create_project, create_host, delete_host, create_template, delete_template, overwrite,
}
use ker_sor_monitor.Store.Integrity.{IsWellFormed, event_lt}
use ker_sor_monitor.Store.Integrity.Rules.{Kept, Kept-bind, Kept-if, insert_event-Kept}

-- Events may always be deleted.
events-IsWellFormed :
    (db : Db) (p : StoredEvent → Bool)
    → IsWellFormed db
    → IsWellFormed (record db { events = delete p db.events })
events-IsWellFormed db p h = record {
  projects_unique = h.projects_unique;
  tasks_unique = h.tasks_unique;
  workers_unique = h.workers_unique;
  hosts_unique = h.hosts_unique;
  templates_unique = h.templates_unique;
  locks_unique = h.locks_unique;
  lock_worker = h.lock_worker;
  task_project = h.task_project;
  worker_task = h.worker_task;
  event_task = All-delete _ p (λ _ _ e. e) db.events h.event_task;
  events_ascend = Sorted-delete event_lt p db.events h.events_ascend;
  events_below = All-delete _ p (λ _ _ e. e) db.events h.events_below;
}

pub append_event-Kept :
    (limit : ℕ) (e : Event) (db : Db) → IsWellFormed db → Kept (append_event limit e db)
unfolding append_event
append_event-Kept limit e db h =
    Kept-bind (insert_event e db) _ (insert_event-Kept e db h) (λ _ db' h'.
      Kept-if (e.type == "status") _ _ (λ _. unfold prune in events-IsWellFormed db' _ h')
        (λ _. h'))

-- A worker that is not among the deleted rows stays.
has-delete_others :
    (p : Worker → Bool) (k : String) (ws : List Worker)
    → any_of (λ w. w.id == k) (filter_if p ws) ≡ false
    → has Worker.id k ws ≡ true
    → has Worker.id k (delete p ws) ≡ true
unfolding has delete
has-delete_others p k [] other h = h
has-delete_others p k (w ∷ ws) other h = ground (arith, has-delete_others p k ws)

-- The lock of a worker of the task.
abbrev is_lock_of : String → Db → LockRow → Bool
is_lock_of tid db l =
    any_of (λ w. w.id == l.worker_id) (filter_if (λ w. w.task_id == tid) db.workers)

-- Deleting a task takes its workers, their locks and its events along, so no reference is left behind.
pub delete_task-IsWellFormed :
    (tid : String) (db : Db) → IsWellFormed db → IsWellFormed (delete_task tid db)
unfolding delete_task
delete_task-IsWellFormed tid db h = record {
  projects_unique = h.projects_unique;
  tasks_unique = Unique-delete Task.id (λ t. t.id == tid) db.tasks h.tasks_unique;
  workers_unique = Unique-delete Worker.id (λ w. w.task_id == tid) db.workers h.workers_unique;
  hosts_unique = h.hosts_unique;
  templates_unique = h.templates_unique;
  locks_unique = Unique-delete LockRow.id (is_lock_of tid db) db.locks h.locks_unique;
  lock_worker =
      All-delete _ (is_lock_of tid db)
        (λ l other e. has-delete_others (λ w. w.task_id == tid) l.worker_id db.workers other e)
        db.locks h.lock_worker;
  task_project = All-delete _ (λ t. t.id == tid) (λ _ _ e. e) db.tasks h.task_project;
  worker_task =
      All-delete _ (λ w. w.task_id == tid)
        (λ w other e. ground (
          arith,
          has-delete_key Task.id tid w.task_id db.tasks,
          other,
          e,
          eq_iff tid w.task_id,
          eq_iff w.task_id tid,
        ))
        db.workers h.worker_task;
  event_task =
      All-delete _ (λ x. x.event.task_id == tid)
        (λ x other e. ground (
          arith,
          has-delete_key Task.id tid x.event.task_id db.tasks,
          other,
          e,
          eq_iff tid x.event.task_id,
          eq_iff x.event.task_id tid,
        ))
        db.events h.event_task;
  events_ascend = Sorted-delete event_lt (λ x. x.event.task_id == tid) db.events h.events_ascend;
  events_below = All-delete _ (λ x. x.event.task_id == tid) (λ _ _ e. e) db.events h.events_below;
}

-- Projects are only added, so the references to them stay.
pub create_project-IsWellFormed :
    (p : Project) (db : Db) → IsWellFormed db → IsWellFormed (create_project p db).1
unfolding create_project
create_project-IsWellFormed p db h = elim (Bool-cases (has Project.id p.id db.projects)) [
  | inl e ↦ rw e h
  | inr e ↦ rw e (record {
    projects_unique = Unique-append Project.id db.projects p h.projects_unique e;
    tasks_unique = h.tasks_unique;
    workers_unique = h.workers_unique;
    hosts_unique = h.hosts_unique;
    templates_unique = h.templates_unique;
    locks_unique = h.locks_unique;
    lock_worker = h.lock_worker;
    task_project =
        All-map (λ t x. ground (arith, x, has-append Project.id t.project_id db.projects (p ∷ [])))
          db.tasks h.task_project;
    worker_task = h.worker_task;
    event_task = h.event_task;
    events_ascend = h.events_ascend;
    events_below = h.events_below;
  })
]

catalog-IsWellFormed :
    (db : Db) (hosts : List Host) (templates : List Template)
    → Unique Host.id hosts
    → Unique Template.id templates
    → IsWellFormed db
    → IsWellFormed (record db { hosts = hosts; templates = templates })
catalog-IsWellFormed db hosts templates uh ut h = record {
  projects_unique = h.projects_unique;
  tasks_unique = h.tasks_unique;
  workers_unique = h.workers_unique;
  hosts_unique = uh;
  templates_unique = ut;
  locks_unique = h.locks_unique;
  lock_worker = h.lock_worker;
  task_project = h.task_project;
  worker_task = h.worker_task;
  event_task = h.event_task;
  events_ascend = h.events_ascend;
  events_below = h.events_below;
}

pub create_host-Kept : (g : Host) (db : Db) → IsWellFormed db → Kept (create_host g db)
unfolding create_host
create_host-Kept g db h =
    Kept-if (has Host.id g.id db.hosts) _ _ (λ _. tt)
      (λ fresh.
        catalog-IsWellFormed db (db.hosts ++ g ∷ []) db.templates
          (Unique-append Host.id db.hosts g h.hosts_unique fresh) h.templates_unique h)

pub delete_host-IsWellFormed :
    (hid : String) (db : Db) → IsWellFormed db → IsWellFormed (delete_host hid db)
unfolding delete_host
delete_host-IsWellFormed hid db h =
    catalog-IsWellFormed db (delete (λ g. g.id == hid) db.hosts) db.templates
      (Unique-delete Host.id (λ g. g.id == hid) db.hosts h.hosts_unique) h.templates_unique h

pub create_template-IsWellFormed :
    (t : Template) (db : Db) → IsWellFormed db → IsWellFormed (create_template t db)
unfolding create_template
create_template-IsWellFormed t db h = elim (Bool-cases (has Template.id t.id db.templates)) [
  | inl e ↦ rw e (
      catalog-IsWellFormed db db.hosts (update (λ old. old.id == t.id) (overwrite t) db.templates)
        h.hosts_unique
        (Unique-update Template.id (λ old. old.id == t.id) (overwrite t) (λ x. refl) db.templates
          h.templates_unique)
        h)
  | inr e ↦ rw e (
      catalog-IsWellFormed db db.hosts (db.templates ++ t ∷ []) h.hosts_unique
        (Unique-append Template.id db.templates t h.templates_unique e) h)
]

pub delete_template-IsWellFormed :
    (tid : String) (db : Db) → IsWellFormed db → IsWellFormed (delete_template tid db)
unfolding delete_template
delete_template-IsWellFormed tid db h =
    catalog-IsWellFormed db db.hosts (delete (λ t. t.id == tid && not t.builtin) db.templates)
      h.hosts_unique
      (Unique-delete Template.id (λ t. t.id == tid && not t.builtin) db.templates
        h.templates_unique)
      h
