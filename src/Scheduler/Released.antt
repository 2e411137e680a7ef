-- ===== src/Scheduler/Released.antt =====
-- What a failed start leaves: the compensation of flotilla/scheduler.py.
use ker_sor_monitor.Prelude.{
  String, ◌≡◌, refl, ap, ◌∙◌, Bool, true, false, Option, none, some, arith, eq_refl, ◌⊎◌, inl, inr,
  if◌then◌else◌,
}
use mathlib.Core.Path.{subst}
use ker_sor_monitor.Prelude.Rows.{has, has-delete_key}
use ker_sor_monitor.Result.{Error, Result, ok, err, is_key_or_value_error, runtime_error}
use ker_sor_monitor.State.{State, queued, failed}
use ker_sor_monitor.Json.{get}
use ker_sor_monitor.Models.{Task, Worker}
use ker_sor_monitor.Runtime.{WorkerHandle}
use ker_sor_monitor.Resource.{
  Resources, Held, Kind, Lock, gpu, get_kind, release_id, gpu_release_id,
}
use ker_sor_monitor.Store.Db.{Db, connection}
use ker_sor_monitor.Store.Tasks.{release_task_claim, activate_worker}
use ker_sor_monitor.World.{World, Outside, Registered, register, unregister}
use ker_sor_monitor.Actuator.{record_event, with_others}
use ker_sor_monitor.Scheduler.Resolve.{Launch, Prepared}
use ker_sor_monitor.Scheduler.Dispatch.{
  finish_failed_claim, failed_claim, release_lock, free_by, settle, cleanup, compensate, activated,
  enrol, on_started, new_worker, dispatch_one,
}

abbrev SameHolds : World → World → Type 0
SameHolds w w' = (w'.handles ≡ w.handles) × (w'.resources ≡ w.resources)

failed_claim-SameHolds :
    (out : Outside) (task : Task) (reason : String) (retryable : Bool) (target : State) (w : World)
    (r : Result Bool × Db)
    → SameHolds w (failed_claim out task reason retryable target w r)
unfolding record_event
failed_claim-SameHolds out task reason retryable target w (ok true, db) = (refl, refl)
failed_claim-SameHolds out task reason retryable target w (ok false, db) = (refl, refl)
failed_claim-SameHolds out task reason retryable target w (err e, db) = (refl, refl)

finish_failed_claim-SameHolds :
    (out : Outside) (task : Task) (reason : String) (retryable : Bool) (w : World)
    → SameHolds w (finish_failed_claim out task reason retryable w)
unfolding finish_failed_claim
finish_failed_claim-SameHolds out task reason retryable w =
    let target = if retryable then queued else failed in
    failed_claim-SameHolds out task reason retryable target w
      (connection (release_task_claim out.now task.id target) w.db)

settle-SameHolds :
    (out : Outside) (p : Prepared) (e : Error) (r : Result (Unit {0})) (w : World)
    → SameHolds w (settle out p e r w)
unfolding record_event
settle-SameHolds out p e (ok _) w =
    finish_failed_claim-SameHolds out p.task (out.message e)
      (if is_key_or_value_error e then false else true) w
settle-SameHolds out p e (err x) w = (refl, refl)

-- The process has no handle for the task, and a GPU that was locked for it is free again.
abbrev pub IsReleased : Prepared → World → Type 0
IsReleased p w =
    (has Registered.task_id p.task.id w.handles ≡ false)
    × ((lock : Lock)
        → p.lock ≡ some lock
        → get_kind (get "kind" p.task.resource_req) ≡ ok gpu
        → has Held.uuid lock.resource_id w.resources.held ≡ false)

IsReleased-SameHolds :
    (p : Prepared) (w w' : World) → SameHolds w w' → IsReleased p w → IsReleased p w'
IsReleased-SameHolds p w w' (h, r) (none_left, free) = (
  ap (has Registered.task_id p.task.id) h ∙ none_left,
  λ lock l k. ap (λ (x : Resources). has Held.uuid lock.resource_id x.held) r ∙ free lock l k,
)

freed :
    (p : Prepared) (w : World)
    → has Registered.task_id p.task.id w.handles ≡ false
    → IsReleased p (release_lock p.task p.lock w)
unfolding release_lock release_id gpu_release_id
freed p w h = by p.lock refl
  where
    handles : (o : Option Lock) → (release_lock p.task o w).handles ≡ w.handles
    handles none = refl
    handles (some lock) = through (get_kind (get "kind" p.task.resource_req))
      where
        through : (k : Result Kind) → (free_by lock w k).handles ≡ w.handles
        through (ok k) = refl
        through (err e) = refl

    by : (o : Option Lock) → p.lock ≡ o → IsReleased p (release_lock p.task o w)
    by none e = (h, λ lock l k. cc)
    by (some x) e = (
      ap (has Registered.task_id p.task.id) (handles (some x)) ∙ h,
      λ lock l k. rw k (
          ground (
            arith,
            l,
            e,
            has-delete_key Held.uuid x.resource_id lock.resource_id w.resources.held,
            eq_refl x.resource_id,
          )),
    )

compensate-IsReleased :
    (out : Outside) (p : Prepared) (e : Error) (handle : Option WorkerHandle) (registered : Bool)
    (w : World)
    → (registered ≡ true) ⊎ (has Registered.task_id p.task.id w.handles ≡ false)
    → IsReleased p (compensate out p e handle registered w)
unfolding compensate unregister
compensate-IsReleased out p e handle registered w h =
    let gone = if registered then unregister p.task.id w else w in
    IsReleased-SameHolds p (release_lock p.task p.lock gone)
      (settle out p e (cleanup out handle) (release_lock p.task p.lock gone))
      (settle-SameHolds out p e (cleanup out handle) (release_lock p.task p.lock gone))
      (freed p gone (left registered h))
  where
    left :
        (b : Bool)
        → (b ≡ true) ⊎ (has Registered.task_id p.task.id w.handles ≡ false)
        → has Registered.task_id p.task.id (if b then unregister p.task.id w else w).handles ≡ false
    left true h =
        has-delete_key Registered.task_id p.task.id p.task.id w.handles
        ∙ (rw (eq_refl p.task.id) refl)
    left false h = ground arith

abbrev Failed : Prepared → Bool × World → Type 0
Failed p (true, w) = Unit
Failed p (false, w) = IsReleased p w

activated-Failed :
    (out : Outside) (p : Prepared) (handle : WorkerHandle) (w : World) (r : Result Bool × Db)
    → Failed p (activated out p handle w r)
unfolding activated
activated-Failed out p handle w (ok true, db) = tt
activated-Failed out p handle w (ok false, db) =
    compensate-IsReleased out p runtime_error (some handle) true (record w { db = db }) (inl refl)
activated-Failed out p handle w (err e, db) =
    compensate-IsReleased out p e (some handle) true (record w { db = db }) (inl refl)

on_started-Failed :
    (out : Outside) (p : Prepared) (w : World) (r : Result WorkerHandle)
    → has Registered.task_id p.task.id w.handles ≡ false
    → Failed p (on_started out p w r)
on_started-Failed out p w (err e) h = compensate-IsReleased out p e none false w (inr h)
on_started-Failed out p w (ok handle) h = by (new_worker out p handle)
  where
    by : (r : Result Worker) → Failed p (enrol out p handle w r)
    by (err e) = compensate-IsReleased out p e (some handle) false w (inr h)
    by (ok worker) = activated-Failed out p handle (register p.task.id p.worker_id handle w) (
        connection (activate_worker out.now p.task.id worker handle.workspace)
          (register p.task.id p.worker_id handle w).db)

-- A dispatch that fails, wherever it fails, leaves no handle for the task, and the GPU that was
-- locked for it can be locked again.
pub failed_dispatch_releases :
    (out : Outside) (l : Launch) (p : Prepared) (w w' : World)
    → has Registered.task_id p.task.id w.handles ≡ false
    → dispatch_one out l p w ≡ (false, w')
    → IsReleased p w'
unfolding dispatch_one
failed_dispatch_releases out l p w w' h e = subst (Failed p) e (
    on_started-Failed out p (with_others out w) (l.start p.rt p.task p.ws_path p.ssh_host p.lock) h)
