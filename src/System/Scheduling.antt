-- ===== src/System/Scheduling.antt =====
-- What flotilla/scheduler.py does to the database.
use ker_sor_monitor.Prelude.{
  String, ap, Bool, true, false, Option, none, some, List, [], ◌∷◌, if◌then◌else◌, sym,
}
use ker_sor_monitor.Result.{Error, Result, ok, err, is_key_or_value_error, runtime_error}
use ker_sor_monitor.State.{State, queued, failed, lost, dispatching}
use ker_sor_monitor.Json.{str, get}
use ker_sor_monitor.Models.{Task, Worker}
use ker_sor_monitor.Runtime.{WorkerHandle}
use ker_sor_monitor.Resource.{Kind, Lock, get_kind}
use ker_sor_monitor.Store.Db.{Db, connection}
use ker_sor_monitor.Store.Tasks.{release_task_claim, activate_worker, claim_queued_tasks}
use ker_sor_monitor.Store.Commands.{Command, execute}
use ker_sor_monitor.World.{World, Outside, register, unregister}
use ker_sor_monitor.Actuator.{event, record_event, with_others}
use ker_sor_monitor.Observer.Record.{observe_and_record}
use ker_sor_monitor.Scheduler.{prepare, prepare_all, prepared, given_up, gave_back, tick}
use ker_sor_monitor.Scheduler.Acquire.{IsUntouched, resolve_dispatch-IsUntouched}
use ker_sor_monitor.Scheduler.Dispatch.{
  failed_claim, finish_failed_claim, free_by, release_lock, settle, cleanup, compensate, activated,
  enrol, on_started, new_worker, dispatch_one, dispatch_all,
}
use ker_sor_monitor.Scheduler.Resolve.{Launch, Prepared, resolve_dispatch}
use ker_sor_monitor.System.Evolves.{stays, Evolves-command}
use ker_sor_monitor.System.Actuation.{
  Steps, Steps-refl, Steps-trans, record_event-Steps, with_others-Steps,
}
use ker_sor_monitor.System.Observation.{observe-Steps}

module _ (out : Outside) where
  failed_claim-Steps :
      (t : Task) (reason : String) (retryable : Bool) (target : State) (w v : World)
      (r : Result Bool × Db)
      → Steps out w (record v { db = r.1 })
      → Steps out w (failed_claim out t reason retryable target v r)
  failed_claim-Steps t reason retryable target w v (ok true, db) h =
      Steps-trans out w (record v { db = db })
        (failed_claim out t reason retryable target v (ok true, db)) h
        (record_event-Steps out _ (record v { db = db }))
  failed_claim-Steps t reason retryable target w v (ok false, db) h =
      Steps-trans out w (record v { db = db })
        (failed_claim out t reason retryable target v (ok false, db)) h
        (record_event-Steps out _ (record v { db = db }))
  failed_claim-Steps t reason retryable target w v (err e, db) h =
      Steps-trans out w (record v { db = db })
        (failed_claim out t reason retryable target v (err e, db)) h
        (record_event-Steps out _ (record v { db = db }))

  release-Steps :
      (tid : String) (target : State) (w : World)
      → Steps out w (record w { db = (connection (release_task_claim out.now tid target) w.db).1 })
  unfolding execute release_task_claim
  release-Steps tid target w =
      Evolves-command out.others
        (Command.set_task_state out.now tid target (some (dispatching ∷ []))) tt w.db

  finish_failed_claim-Steps :
      (t : Task) (reason : String) (retryable : Bool) (w : World)
      → Steps out w (finish_failed_claim out t reason retryable w)
  unfolding finish_failed_claim
  finish_failed_claim-Steps t reason retryable w =
      let target = if retryable then queued else failed in
      failed_claim-Steps t reason retryable target w w
        (connection (release_task_claim out.now t.id target) w.db) (release-Steps t.id target w)

  free_by-Steps : (lock : Lock) (w : World) (k : Result Kind) → Steps out w (free_by lock w k)
  free_by-Steps lock w (ok kind) = Steps-refl out w
  free_by-Steps lock w (err e) = Steps-refl out w

  release_lock-Steps : (t : Task) (o : Option Lock) (w : World) → Steps out w (release_lock t o w)
  unfolding release_lock
  release_lock-Steps t none w = Steps-refl out w
  release_lock-Steps t (some lock) w = free_by-Steps lock w (get_kind (get "kind" t.resource_req))

  settle-Steps :
      (p : Prepared) (e : Error) (r : Result (Unit {0})) (w : World)
      → Steps out w (settle out p e r w)
  settle-Steps p e (ok _) w =
      finish_failed_claim-Steps p.task (out.message e)
        (if is_key_or_value_error e then false else true) w
  settle-Steps p e (err stop_error) w =
      let v = record w { db = (connection (release_task_claim out.now p.task.id lost) w.db).1 } in
      Steps-trans out w v (settle out p e (err stop_error) w) (release-Steps p.task.id lost w)
        (record_event-Steps out _ v)

  unregistered-Steps :
      (tid : String) (b : Bool) (w : World) → Steps out w (if b then unregister tid w else w)
  unfolding unregister
  unregistered-Steps tid true w = Steps-refl out w
  unregistered-Steps tid false w = Steps-refl out w

  compensate-Steps :
      (p : Prepared) (e : Error) (h : Option WorkerHandle) (b : Bool) (w : World)
      → Steps out w (compensate out p e h b w)
  unfolding compensate
  compensate-Steps p e h b w =
      let left = (if b then unregister p.task.id w else w) in
      let freed = release_lock p.task p.lock left in
      Steps-trans out w freed (settle out p e (cleanup out h) freed)
        (Steps-trans out w left freed (unregistered-Steps p.task.id b w)
          (release_lock-Steps p.task p.lock left))
        (settle-Steps p e (cleanup out h) freed)

  activated-Steps :
      (p : Prepared) (h : WorkerHandle) (w v : World) (r : Result Bool × Db)
      → Steps out w (record v { db = r.1 })
      → Steps out w (activated out p h v r).1
  unfolding activated
  activated-Steps p h w v (ok true, db) s =
      let e = event out p.task.id "dispatched" (("worker_id", str p.worker_id) ∷ []) in
      let now = record v { db = db } in
      let told = record_event out e now in
      Steps-trans out w told (observe_and_record out p.worker_id h told).1
        (Steps-trans out w now told s (record_event-Steps out e now))
        (observe-Steps out p.worker_id h told)
  activated-Steps p h w v (ok false, db) s =
      let now = record v { db = db } in
      Steps-trans out w now (compensate out p runtime_error (some h) true now) s
        (compensate-Steps p runtime_error (some h) true now)
  activated-Steps p h w v (err e, db) s =
      let now = record v { db = db } in
      Steps-trans out w now (compensate out p e (some h) true now) s
        (compensate-Steps p e (some h) true now)

  enrol-Steps :
      (p : Prepared) (h : WorkerHandle) (w : World) (r : Result Worker)
      → Steps out w (enrol out p h w r).1
  unfolding execute register
  enrol-Steps p h w (err e) = compensate-Steps p e (some h) false w
  enrol-Steps p h w (ok worker) =
      let v = register p.task.id p.worker_id h w in
      activated-Steps p h w v
        (connection (activate_worker out.now p.task.id worker h.workspace) v.db)
        (Evolves-command out.others (Command.activate_worker out.now p.task.id worker h.workspace)
          tt w.db)

  on_started-Steps :
      (p : Prepared) (w : World) (r : Result WorkerHandle) → Steps out w (on_started out p w r).1
  on_started-Steps p w (err e) = compensate-Steps p e none false w
  on_started-Steps p w (ok h) = enrol-Steps p h w (new_worker out p h)

  dispatch_one-Steps :
      (l : Launch) (p : Prepared) (w : World) → Steps out w (dispatch_one out l p w).1
  unfolding dispatch_one
  dispatch_one-Steps l p w =
      let now = with_others out w in
      let r = l.start p.rt p.task p.ws_path p.ssh_host p.lock in
      Steps-trans out w now (on_started out p now r).1 (with_others-Steps out w)
        (on_started-Steps p now r)

  dispatch_all-Steps :
      (l : Launch) (ps : List Prepared) (w : World) → Steps out w (dispatch_all out l ps w).1
  unfolding dispatch_all
  dispatch_all-Steps l [] w = Steps-refl out w
  dispatch_all-Steps l (p ∷ ps) w =
      let next = (dispatch_one out l p w).1 in
      Steps-trans out w next (dispatch_all out l ps next).1 (dispatch_one-Steps l p w)
        (dispatch_all-Steps l ps next)

  given_up-Steps : (t : Task) (e : Error) (w : World) → Steps out w (given_up out t e w).1
  given_up-Steps t e w = finish_failed_claim-Steps t (out.message e) _ w

  gave_back-Steps :
      (t : Task) (w v : World) (r : Result Bool × Db)
      → Steps out w (record v { db = r.1 })
      → Steps out w (gave_back out t v r).1
  gave_back-Steps t w v (ok _, db) h = h
  gave_back-Steps t w v (err e, db) h =
      let now = record v { db = db } in
      Steps-trans out w now (given_up out t e now).1 h (given_up-Steps t e now)

  prepared-Steps :
      (t : Task) (w : World) (r : Result (Option Prepared) × World)
      → IsUntouched w r
      → Steps out w (prepared out t r).1
  prepared-Steps t w (ok (some p), v) h = stays (sym h.0)
  prepared-Steps t w (ok none, v) h =
      Steps-trans out w v (prepared out t (ok none, v)).1 (stays (ap World.db (sym h))) (
        gave_back-Steps t v v (connection (release_task_claim out.now t.id queued) v.db)
          (release-Steps t.id queued v))
  prepared-Steps t w (err e, v) h =
      Steps-trans out w v (prepared out t (err e, v)).1 (stays (ap World.db (sym h)))
        (given_up-Steps t e v)

  prepare-Steps : (l : Launch) (t : Task) (w : World) → Steps out w (prepare out l t w).1
  unfolding prepare
  prepare-Steps l t w =
      prepared-Steps t w (resolve_dispatch l t w) (resolve_dispatch-IsUntouched l t w)

  prepare_all-Steps :
      (l : Launch) (ts : List Task) (w : World) → Steps out w (prepare_all out l ts w).1
  unfolding prepare_all
  prepare_all-Steps l [] w = Steps-refl out w
  prepare_all-Steps l (t ∷ ts) w =
      let next = (prepare out l t w).1 in
      Steps-trans out w next (prepare_all out l ts next).1 (prepare-Steps l t w)
        (prepare_all-Steps l ts next)

  pub tick-Steps :
      (l : Launch) (completion : List Prepared → List Prepared) (w : World)
      → Steps out w (tick out l completion w).1
  unfolding tick execute
  tick-Steps l completion w =
      let (claimed, db) = claim_queued_tasks out.now l.max_workers w.db in
      let now = record w { db = db } in
      let (ps, ready) = prepare_all out l claimed now in
      Steps-trans out w ready (dispatch_all out l (completion ps) ready).1
        (Steps-trans out w now ready
          (Evolves-command out.others (Command.claim_queued_tasks out.now l.max_workers) tt w.db)
          (prepare_all-Steps l claimed now))
        (dispatch_all-Steps l (completion ps) ready)
