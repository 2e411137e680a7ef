-- ===== src/Scheduler/Dispatch.antt =====
-- The second half of `tick` of flotilla/scheduler.py: a worker that has started is activated, and a
-- failure is compensated.
use ker_sor_monitor.Prelude.{
  ℕ, ◌+◌, String, Bool, true, false, Option, none, some, List, [], ◌∷◌, if◌then◌else◌,
}
use ker_sor_monitor.Prelude.Text.{join}
use ker_sor_monitor.Result.{
  Error, Result, ok, err, ◌>>=◌, runtime_error, value_error, is_key_or_value_error,
}
use ker_sor_monitor.State.{State, queued, failed, lost, name}
use ker_sor_monitor.Json.{null, bool, str, get}
use ker_sor_monitor.Models.{Task, Worker}
use ker_sor_monitor.Runtime.{WorkerHandle, Native, process, fields}
use ker_sor_monitor.Resource.{Kind, Lock, get_kind, release_id}
use ker_sor_monitor.Store.Db.{Db, connection}
use ker_sor_monitor.Store.Tasks.{release_task_claim, activate_worker}
use ker_sor_monitor.World.{World, Outside, register, unregister}
use ker_sor_monitor.Actuator.{event, record_event, with_others}
use ker_sor_monitor.Observer.Record.{observe_and_record}
use ker_sor_monitor.Scheduler.Resolve.{Launch, Prepared}

abbrev failure : Outside → Task → String → Bool → Option State → World → World
failure out task reason retryable now w =
    record_event out
      (event out task.id "dispatch_failed" (
        ("reason", str reason)
        ∷ ("retryable", bool retryable)
        ∷ ("state", elim now [ none ↦ null | some s ↦ str (name s) ])
        ∷ []))
      w

abbrev pub failed_claim : Outside → Task → String → Bool → State → World → Result Bool × Db → World
failed_claim out task reason retryable target w (ok true, db) =
    failure out task reason retryable (some target) (record w { db = db })
failed_claim out task reason retryable target w (ok false, db) =
    failure out task reason retryable none (record w { db = db })
failed_claim out task reason retryable target w (err e, db) =
    failure out task (join reason (join "; state compensation failed: " (out.message e))) retryable
      none (record w { db = db })

-- `_finish_failed_claim`
unfoldable pub finish_failed_claim : Outside → Task → String → Bool → World → World
finish_failed_claim out task reason retryable w =
    let target = if retryable then queued else failed in
    failed_claim out task reason retryable target w
      (connection (release_task_claim out.now task.id target) w.db)

abbrev pub free_by : Lock → World → Result Kind → World
free_by lock w (ok kind) = record w { resources = release_id kind lock.resource_id w.resources }
free_by lock w (err e) = w

-- `_release_lock`
unfoldable pub release_lock : Task → Option Lock → World → World
release_lock task none w = w
release_lock task (some lock) w = free_by lock w (get_kind (get "kind" task.resource_req))

-- A field of the tmux runtime's dict; `models.Worker` refuses what is no text.
abbrev pub text_field : String → Native → Result (Option String)
text_field key (process p) = ok none
text_field key (fields d) = elim (get key d) [
  | null ↦ ok none
  | str s ↦ ok (some s)
  | _ ↦ err value_error
]

abbrev pid_of : Native → Option ℕ
pid_of (process p) = some p
pid_of (fields d) = none

abbrev resource_of : Option Lock → Option String
resource_of none = none
resource_of (some lock) = some lock.resource_id

-- The row of the worker.
abbrev pub worker_row : Outside → Prepared → WorkerHandle → Option String → Option String → Worker
worker_row out p handle pane uuid = record {
  id = p.worker_id;
  task_id = p.task.id;
  status = "running";
  session_handle = pane;
  session_uuid = uuid;
  pane_id = pane;
  pid = pid_of handle.handle;
  resource_lock_id = resource_of p.lock;
  started_at = out.now;
  ended_at = none;
  extra = [];
}

unfoldable pub new_worker : Outside → Prepared → WorkerHandle → Result Worker
new_worker out p handle = text_field "pane" handle.handle >>= λ pane.
    text_field "session_uuid" handle.handle >>= λ uuid. ok (worker_row out p handle pane uuid)

-- The end of the `except` clause: the claim is lost if the worker could not be stopped.
abbrev pub settle : Outside → Prepared → Error → Result (Unit {0}) → World → World
settle out p e (ok _) w =
    finish_failed_claim out p.task (out.message e) (if is_key_or_value_error e then false else true)
      w
settle out p e (err stop_error) w =
    record_event out
      (event out p.task.id "dispatch_lost" (
        ("reason", str (join (out.message e) (join "; cleanup failed: " (out.message stop_error))))
        ∷ []))
      (record w { db = (connection (release_task_claim out.now p.task.id lost) w.db).1 })

-- What stopping the started worker answers; without a worker there is nothing to stop.
abbrev pub cleanup : Outside → Option WorkerHandle → Result (Unit {0})
cleanup out none = ok tt
cleanup out (some handle) = out.stop handle

-- The `except` clause.
unfoldable pub compensate : Outside → Prepared → Error → Option WorkerHandle → Bool → World → World
unfolding release_lock
compensate out p e handle registered w =
    settle out p e (cleanup out handle)
      (release_lock p.task p.lock (if registered then unregister p.task.id w else w))

-- After `activate_worker`. The first observation may fail without consequence.
unfoldable pub activated :
    Outside → Prepared → WorkerHandle → World → Result Bool × Db → Bool × World
unfolding compensate
activated out p handle w (ok true, db) = (
  true,
  (observe_and_record out p.worker_id handle (
      record_event out (event out p.task.id "dispatched" (("worker_id", str p.worker_id) ∷ []))
        (record w { db = db }))).1,
)
activated out p handle w (ok false, db) =
    (false, compensate out p runtime_error (some handle) true (record w { db = db }))
activated out p handle w (err e, db) =
    (false, compensate out p e (some handle) true (record w { db = db }))

abbrev pub activate : Outside → Prepared → WorkerHandle → World → Worker → Bool × World
activate out p handle w worker =
    activated out p handle w
      (connection (activate_worker out.now p.task.id worker handle.workspace) w.db)

abbrev pub enrol : Outside → Prepared → WorkerHandle → World → Result Worker → Bool × World
enrol out p handle w (err e) = (false, compensate out p e (some handle) false w)
enrol out p handle w (ok worker) =
    activate out p handle (register p.task.id p.worker_id handle w) worker

abbrev pub on_started : Outside → Prepared → World → Result WorkerHandle → Bool × World
on_started out p w (err e) = (false, compensate out p e none false w)
on_started out p w (ok handle) = enrol out p handle w (new_worker out p handle)

-- One completed start. Others may have committed since the claim.
unfoldable pub dispatch_one : Outside → Launch → Prepared → World → Bool × World
unfolding activated new_worker
dispatch_one out l p w =
    on_started out p (with_others out w) (l.start p.rt p.task p.ws_path p.ssh_host p.lock)

unfoldable pub dispatch_all : Outside → Launch → List Prepared → World → ℕ × World
unfolding dispatch_one
dispatch_all out l [] w = (0, w)
dispatch_all out l (p ∷ ps) w =
    let (started, next) = dispatch_one out l p w in
    let (n, final) = dispatch_all out l ps next in (if started then n + 1 else n, final)
