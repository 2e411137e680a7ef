-- ===== src/Scheduler/Launched.antt =====
-- What a successful start of flotilla/scheduler.py leaves.
use ker_sor_monitor.Prelude.{
  ℕ, String, ◌≡◌, refl, ap, ◌∙◌, Bool, true, false, Option, none, some, List, [], ◌∷◌, ◌++◌, arith,
  eq_refl, ◌==◌, inl, inr, Bool-cases,
}
use mathlib.Core.Path.{subst}
use ker_sor_monitor.Prelude.Rows.{has, find, has-append, has-update, map_option, update}
use ker_sor_monitor.Result.{Result, ok, err, ◌>>=◌}
use ker_sor_monitor.State.{running}
use ker_sor_monitor.Json.{Dict, assign, str, bool}
use ker_sor_monitor.Models.{Task, Worker, Event}
use ker_sor_monitor.Runtime.{WorkerHandle, Adapter, get_adapter}
use ker_sor_monitor.Store.Db.{Db, connection, outcome, insert_event}
use ker_sor_monitor.Store.Events.{append_event}
use ker_sor_monitor.Store.Tasks.{activate_worker}
use ker_sor_monitor.Store.Tasks.Activate.{Activated, activate_worker-Activated}
use ker_sor_monitor.Store.Workers.{set_worker_session_uuid, get_worker}
use ker_sor_monitor.World.{World, Outside, Seen, Registered, register}
use ker_sor_monitor.Actuator.{record_event, with_others, event}
use ker_sor_monitor.Actuator.Finish.{SameRows}
use ker_sor_monitor.Observer.Record.{
  observe_and_record, observe_by, recorded, stored_or_raised, with_session, found_uuid, save_uuid,
  lacks_uuid, mines, status_event, is_remote, reading, with_found,
}
use ker_sor_monitor.Scheduler.Resolve.{Launch, Prepared}
use ker_sor_monitor.Scheduler.Dispatch.{
  activated, enrol, on_started, new_worker, worker_row, text_field, dispatch_one,
}
use ker_sor_monitor.Sinks.Status.{normalize_status_record}

-- The tasks, the ids of the workers and the handles are as before.
abbrev IsSteady : World → World → Type 0
IsSteady w w' =
    (w'.db.tasks ≡ w.db.tasks)
    × ((k : String) → has Worker.id k w'.db.workers ≡ has Worker.id k w.db.workers)
    × (w'.handles ≡ w.handles)

IsSteady-trans : (a b c : World) → IsSteady a b → IsSteady b c → IsSteady a c
IsSteady-trans a b c (t, k, h) (t', k', h') = (t' ∙ t, λ i. k' i ∙ k i, h' ∙ h)

append_event-SameRows : (limit : ℕ) (e : Event) (db : Db) → SameRows db (append_event limit e db)
unfolding append_event insert_event
append_event-SameRows limit e db = elim (Bool-cases (has Task.id e.task_id db.tasks)) [
  | inr n ↦ rw n tt
  | inl there ↦ elim (Bool-cases (e.type == "status")) [
    | inl s ↦ rw (there, s) (refl, refl)
    | inr s ↦ rw (there, s) (refl, refl)
  ]
]

outcome-rows :
    (db : Db) (r : Result (Unit {0} × Db))
    → SameRows db r
    → ((outcome db r).1.tasks ≡ db.tasks) × ((outcome db r).1.workers ≡ db.workers)
outcome-rows db (ok (a, db')) h = h
outcome-rows db (err e) h = (refl, refl)

append_event-IsSteady :
    (limit : ℕ) (e : Event) (w : World)
    → IsSteady w (record w { db = (connection (append_event limit e) w.db).1 })
unfolding connection
append_event-IsSteady limit e w =
    let (t, k) =
      outcome-rows w.db (append_event limit e w.db) (append_event-SameRows limit e w.db) in
    (t, λ i. ap (has Worker.id i) k, refl)

with_session-IsSteady :
    (wid : String) (remote : Bool) (rt : Adapter) (seen : Seen) (rec : Dict) (w : World)
    → IsSteady w (with_session wid remote rt seen rec w).1
unfolding with_session set_worker_session_uuid
with_session-IsSteady wid remote rt seen rec w = elim (Bool-cases (mines rt)) [
  | inr n ↦ rw n (refl, λ i. refl, refl)
  | inl m ↦ rw m (by (found_uuid remote (get_worker w.db wid) seen.mined))
]
  where
    saved : (uuid : String) → IsSteady w (save_uuid wid (get_worker w.db wid) uuid w)
    saved uuid = elim (Bool-cases (lacks_uuid (get_worker w.db wid))) [
      | inr n ↦ rw n (refl, λ i. refl, refl)
      | inl y ↦ rw y (
        refl,
        λ i.
            has-update Worker.id (λ x. x.id == wid) (λ x. record x { session_uuid = some uuid })
              (λ x. refl) i w.db.workers,
        refl,
      )
    ]

    by : (o : Option String) → IsSteady w (with_found wid remote seen rec w o).1
    by none = (refl, λ i. refl, refl)
    by (some uuid) = saved uuid

stored-IsSteady :
    (rec : Dict) (v w : World) (r : Result (Unit {0}) × Db)
    → IsSteady v (record w { db = r.1 })
    → IsSteady v (stored_or_raised rec w r).1
stored-IsSteady rec v w (ok _, db) h = h
stored-IsSteady rec v w (err e, db) h = h

observe-IsSteady :
    (out : Outside) (wid : String) (handle : WorkerHandle) (w : World)
    → IsSteady w (observe_and_record out wid handle w).1
unfolding observe_and_record
observe-IsSteady out wid handle w = by (get_adapter handle.backend)
  where
    kept :
        (exited : Bool) (r : Dict × World)
        → IsSteady w r.1
        → IsSteady w (recorded out handle.task_id exited r).1
    kept exited (rec, v) h =
        let final = normalize_status_record out.float_of (assign "exited" (bool exited) rec) in
        let e = status_event out handle.task_id final in
        stored-IsSteady final w v (connection (append_event out.retention e) v.db) (
          IsSteady-trans w v (record v { db = (connection (append_event out.retention e) v.db).1 })
            h (append_event-IsSteady out.retention e v))

    by : (r : Result Adapter) → IsSteady w (observe_by out wid handle w r).1
    by (err e) = (refl, λ i. refl, refl)
    by (ok rt) =
        let seen = out.see handle in
        let remote = is_remote handle.handle in
        let (rec, exited) = reading seen remote in
        kept exited (with_session wid remote rt seen rec w)
          (with_session-IsSteady wid remote rt seen rec w)

has-replaced :
    (tid wid : String) (h : WorkerHandle) (rs : List Registered)
    → has Registered.task_id tid rs ≡ true
    → has Registered.task_id tid (
        update
          (λ r. r.task_id == tid)
          (λ _. record { task_id = tid; worker_id = wid; handle = h })
          rs)
      ≡ true
unfolding has update
has-replaced tid wid h [] e = e
has-replaced tid wid h (r ∷ rs) e = ground (arith, has-replaced tid wid h rs, eq_refl tid, e)

has-register :
    (tid wid : String) (h : WorkerHandle) (w : World)
    → has Registered.task_id tid (register tid wid h w).handles ≡ true
unfolding register has
has-register tid wid h w = elim (Bool-cases (has Registered.task_id tid w.handles)) [
  | inl e ↦ rw e (has-replaced tid wid h w.handles e)
  | inr e ↦ rw e (
      has-append Registered.task_id tid w.handles
        (record { task_id = tid; worker_id = wid; handle = h } ∷ [])
      ∙ (rw (e, eq_refl tid) refl))
]

-- The task runs, the row of its worker is there, and the process has its handle.
abbrev pub IsLaunched : Prepared → World → Type 0
IsLaunched p w =
    (map_option Task.state (find Task.id p.task.id w.db.tasks) ≡ some running)
    × (has Worker.id p.worker_id w.db.workers ≡ true)
    × (has Registered.task_id p.task.id w.handles ≡ true)

IsLaunched-IsSteady :
    (p : Prepared) (w w' : World) → IsSteady w w' → IsLaunched p w → IsLaunched p w'
IsLaunched-IsSteady p w w' (t, k, h) (run, row, reg) = (
  ap (λ ts. map_option Task.state (find Task.id p.task.id ts)) t ∙ run,
  k p.worker_id ∙ row,
  ap (has Registered.task_id p.task.id) h ∙ reg,
)

abbrev Started : Prepared → Bool × World → Type 0
Started p (true, w) = IsLaunched p w
Started p (false, w) = Unit

activated-Started :
    (out : Outside) (p : Prepared) (handle : WorkerHandle) (w : World) (worker : Worker)
    (r : Result (Bool × Db))
    → worker.id ≡ p.worker_id
    → has Registered.task_id p.task.id w.handles ≡ true
    → Activated p.task.id worker handle.workspace w.db r
    → Started p (activated out p handle w (outcome w.db r))
unfolding activated record_event event
activated-Started out p handle w worker (err e) same reg a = tt
activated-Started out p handle w worker (ok (false, db)) same reg a = tt
activated-Started out p handle w worker (ok (true, db)) same reg a =
    let now = record w { db = db } in
    let told =
      record_event out (event out p.task.id "dispatched" (("worker_id", str p.worker_id) ∷ []))
        now in
    IsLaunched-IsSteady p told (observe_and_record out p.worker_id handle told).1
      (observe-IsSteady out p.worker_id handle told)
      (IsLaunched-IsSteady p now told
        (append_event-IsSteady out.retention
          (event out p.task.id "dispatched" (("worker_id", str p.worker_id) ∷ [])) now)
        (a.state, ap (has Worker.id p.worker_id) a.workers ∙ there, reg))
  where
    there : has Worker.id p.worker_id (w.db.workers ++ worker ∷ []) ≡ true
    there =
        has-append Worker.id p.worker_id w.db.workers (worker ∷ [])
        ∙ (unfold has in ground (arith, same, eq_refl p.worker_id))

on_started-Started :
    (out : Outside) (p : Prepared) (w : World) (r : Result WorkerHandle)
    → Started p (on_started out p w r)
unfolding new_worker
on_started-Started out p w (err e) = tt
on_started-Started out p w (ok handle) =
    by (text_field "pane" handle.handle) (text_field "session_uuid" handle.handle)
  where
    by :
        (a b : Result (Option String))
        → Started p (
            enrol out p handle w
              (a >>= λ pane. b >>= λ uuid. ok (worker_row out p handle pane uuid)))
    by (err e) b = tt
    by (ok pane) (err e) = tt
    by (ok pane) (ok uuid) =
        let at = register p.task.id p.worker_id handle w in
        let row = worker_row out p handle pane uuid in
        unfold connection in
        activated-Started out p handle at row
          (activate_worker out.now p.task.id row handle.workspace at.db) refl
          (has-register p.task.id p.worker_id handle w)
          (activate_worker-Activated out.now p.task.id handle.workspace row at.db refl)

-- A dispatch that counts as started has its task RUNNING, the row of its worker in the database and
-- its handle registered, so that the patrol will read it.
pub dispatch_launches :
    (out : Outside) (l : Launch) (p : Prepared) (w w' : World)
    → dispatch_one out l p w ≡ (true, w')
    → IsLaunched p w'
unfolding dispatch_one
dispatch_launches out l p w w' e =
    subst (Started p) e (
      on_started-Started out p (with_others out w)
        (l.start p.rt p.task p.ws_path p.ssh_host p.lock))
