-- ===== src/Actuator/Retire.antt =====
-- What a retirement of flotilla/actuator.py leaves behind.
use ker_sor_monitor.Prelude.{
  max, String, ◌≡◌, refl, sym, ap, ◌∙◌, inl, inr, Bool, true, false, ◌&&◌, Option, none, some, [],
  ◌∷◌, ◌==◌, eq_refl, if◌then◌else◌, Bool-cases, any_of,
}
use mathlib.Core.Path.{subst}
use ker_sor_monitor.Prelude.Rows.{has, find, map_option, has-delete_key}
use ker_sor_monitor.Result.{Result, ok, err, ◌>>=◌}
use ker_sor_monitor.State.{State, stuck, is, is_terminal}
use ker_sor_monitor.Models.{Task, Worker, Event}
use ker_sor_monitor.Runtime.{WorkerHandle}
use ker_sor_monitor.Store.Db.{Db, connection, outcome, insert_event}
use ker_sor_monitor.Store.Tasks.{finish_worker, get_task}
use ker_sor_monitor.Store.Events.{append_event, prune}
use ker_sor_monitor.World.{World, Outside, Registered, unregister, running_handle}
use ker_sor_monitor.Actuator.{
  retire, retire_body, retire_task, commit, decide, wind_up, release_lease, record_event,
  after_finish, event, free_lock, free_kind, finally, get_given, has_ended,
}
use ker_sor_monitor.Actuator.Finish.{
  IsClosed, SameRows, Finished, finish_worker-Finished, insert_event-SameRows,
}
use ker_sor_monitor.Json.{Dict, Value, get, str, truthy}
use ker_sor_monitor.Resource.{Kind, release_id, get_kind}

-- Recording an event touches neither the tasks nor the workers.
record_event-SameRows :
    (out : Outside) (e : Event) (w : World)
    → ((record_event out e w).db.tasks ≡ w.db.tasks)
      × ((record_event out e w).db.workers ≡ w.db.workers)
unfolding record_event connection append_event
record_event-SameRows out e w = go (insert_event e w.db) (insert_event-SameRows e w.db)
  where
    go :
        (r : Result (Unit {0} × Db))
        → SameRows w.db r
        → let db' : Db =
            (outcome {0} {A = Unit {0}} w.db (
              r >>= λ (x : Unit {0} × Db).
              if e.type == "status"
              then ok (tt, record x.1 { events = prune (max 1 out.retention) e.task_id x.1.events })
              else ok (tt, x.1))).1 in
          (db'.tasks ≡ w.db.tasks) × (db'.workers ≡ w.db.workers)
    go (ok (a, db)) same = elim (Bool-cases (e.type == "status")) [
      | inl x ↦ rw x same
      | inr x ↦ rw x same
    ]
    go (err x) same = (refl, refl)

free_kind-SameRows :
    (out : Outside) (tid rid : String) (w : World) (k : Value)
    → ((free_kind out tid rid w k).db.tasks ≡ w.db.tasks)
      × ((free_kind out tid rid w k).db.workers ≡ w.db.workers)
free_kind-SameRows out tid rid w k = elim (Bool-cases (truthy k)) [
  | inl t ↦ rw t (go (get_kind k))
  | inr f ↦ rw f (refl, refl)
]
  where
    go :
        (r : Result Kind)
        → let w' : World = elim r [
          | ok k' ↦ record w { resources = release_id k' rid w.resources }
          | err e ↦
              record_event out
                (event out tid "resource_release_failed"
                  (("resource_id", str rid) ∷ ("error", str (out.message e)) ∷ []))
                w
        ] in
          (w'.db.tasks ≡ w.db.tasks) × (w'.db.workers ≡ w.db.workers)
    go (ok k') = (refl, refl)
    go (err e) = record_event-SameRows out _ w

release_lease-SameRows :
    (out : Outside) (tid : String) (req : Dict) (worker : Option Worker) (w : World)
    → let w' = release_lease out tid req worker w in
      (w'.db.tasks ≡ w.db.tasks) × (w'.db.workers ≡ w.db.workers)
unfolding release_lease
release_lease-SameRows out tid req none w = (refl, refl)
release_lease-SameRows out tid req (some v) w = go v.resource_lock_id
  where
    go :
        (l : Option String)
        → let w' = free_lock out tid req w l in
          (w'.db.tasks ≡ w.db.tasks) × (w'.db.workers ≡ w.db.workers)
    go none = (refl, refl)
    go (some rid) = elim (Bool-cases (rid == "")) [
      | inl e ↦ rw e (refl, refl)
      | inr e ↦ rw e (free_kind-SameRows out tid rid w (get "kind" req))
    ]

-- The task is in the state, its worker's row is closed, and no handle is registered for it.
abbrev pub IsRetired : String → Option String → State → World → Type 0
IsRetired tid wid s w = IsClosed tid wid s w.db × (has Registered.task_id tid w.handles ≡ false)

abbrev Retired : String → Option String → Result (Option State) × World → Type 0
Retired tid wid (ok (some s), w) = IsRetired tid wid s w
Retired tid wid (ok none, w) = Unit
Retired tid wid (err e, w) = Unit

IsClosed-SameRows :
    (tid : String) (wid : Option String) (s : State) (db db' : Db)
    → db'.tasks ≡ db.tasks
    → db'.workers ≡ db.workers
    → IsClosed tid wid s db
    → IsClosed tid wid s db'
IsClosed-SameRows tid wid s db db' same_tasks same_workers (at_s, closed) = (
  ap (λ ts. map_option Task.state (find Task.id tid ts)) same_tasks ∙ at_s,
  λ v x named given found.
      closed v x named given (sym (ap (find Worker.id v) same_workers) ∙ found),
)

wind_up-Retired :
    (out : Outside) (tid : String) (task : Task) (wid : Option String) (worker : Option Worker)
    (s : State) (w : World)
    → IsClosed tid wid s w.db
    → Retired tid wid (wind_up out tid task worker (some s) w)
unfolding wind_up unregister
wind_up-Retired out tid task wid worker s w closed =
    let released = release_lease out tid task.resource_req worker w in
    let same = release_lease-SameRows out tid task.resource_req worker w in
    (
      IsClosed-SameRows tid wid s w.db released.db same.0 same.1 closed,
      has-delete_key Registered.task_id tid tid released.handles ∙ (rw (eq_refl tid) refl),
    )

after_finish-Retired :
    (out : Outside) (tid : String) (task : Task) (wid : Option String) (worker : Option Worker)
    (s : State) (w : World) (r : Result (Bool × Db))
    → Finished tid wid s r
    → Retired tid wid (after_finish out tid task worker s w (outcome w.db r))
after_finish-Retired out tid task wid worker s w (err e) h = tt
after_finish-Retired out tid task wid worker s w (ok (false, db)) h = tt
after_finish-Retired out tid task wid worker s w (ok (true, db)) h =
    wind_up-Retired out tid task wid worker s (record w { db = db }) h

commit-Retired :
    (out : Outside) (tid : String) (task : Task) (wid : Option String) (worker : Option Worker)
    (final : Option State × Option Event) (w : World)
    → Retired tid wid (commit out tid task wid worker final w)
unfolding commit
commit-Retired out tid task wid worker (none, e) w = unfold wind_up in tt
commit-Retired out tid task wid worker (some s, e) w =
    unfold connection in
    after_finish-Retired out tid task wid worker s w (finish_worker out.now tid wid s e w.db)
      (finish_worker-Finished out.now tid wid s e w.db)

retire_task-Retired :
    (out : Outside) (wid : Option String) (terminal : Option State) (stops : Bool)
    (handle : Option WorkerHandle) (worker : Option Worker) (tid : String) (task : Option Task)
    (w : World)
    → Retired tid wid (retire_task out wid terminal stops handle worker tid task w)
unfolding retire_task
retire_task-Retired out wid terminal stops handle worker tid none w = tt
retire_task-Retired out wid terminal stops handle worker tid (some task) w =
    elim (Bool-cases (is_terminal task.state && has_ended worker)) [
      | inl e ↦ rw e tt
      | inr e ↦ rw e (commit-Retired out tid task wid worker (decide out task handle terminal) _)
    ]

retire_body-Retired :
    (out : Outside) (tid : String) (wid : Option String) (t : State) (stops : Bool) (w : World)
    → Retired tid wid (retire_body out tid wid (some t) stops w)
unfolding retire_body
retire_body-Retired out tid wid t stops w =
    retire_task-Retired out wid (some t) stops (map_option Registered.handle (running_handle w tid))
      (get_given w.db wid) tid (get_task w.db tid) w

finally-Retired :
    (tid : String) (wid : Option String) (r : Result (Option State) × World)
    → Retired tid wid r
    → Retired tid wid (finally tid r)
finally-Retired tid wid (ok (some s), w) h = h
finally-Retired tid wid (ok none, w) h = tt
finally-Retired tid wid (err e, w) h = tt

retire-Retired :
    (out : Outside) (tid : String) (wid : Option String) (t : State) (stops : Bool) (w : World)
    → is stuck t ≡ false
    → Retired tid wid (retire out tid wid (some t) stops w)
unfolding retire
retire-Retired out tid wid t stops w n = elim (Bool-cases (any_of (λ x. x == tid) w.retiring)) [
  | inl e ↦ rw (n, e) tt
  | inr e ↦
      rw (n, e)
        (finally-Retired tid wid
          (retire_body out tid wid (some t) stops (record w { retiring = tid ∷ w.retiring }))
          (retire_body-Retired out tid wid t stops (record w { retiring = tid ∷ w.retiring })))
]

-- When `retire` returns a state for any request but STUCK, the task is in exactly that state in the
-- database, the row of the worker it was called for is closed, and the process has no handle left
-- for the task; whatever the adapter, the evaluator and the other threads did meanwhile.
pub retire_completes :
    (out : Outside) (tid : String) (wid : Option String) (t s : State) (stops : Bool) (w w' : World)
    → is stuck t ≡ false
    → retire out tid wid (some t) stops w ≡ (ok (some s), w')
    → IsRetired tid wid s w'
retire_completes out tid wid t s stops w w' n h =
    subst (Retired tid wid) h (retire-Retired out tid wid t stops w n)
