-- ===== src/System/Observation.antt =====
-- What flotilla/observer.py does to the database.
use ker_sor_monitor.Prelude.{
  String, Bool, true, Option, none, some, List, [], ◌∷◌, Bool-cases, inl, inr,
}
use ker_sor_monitor.Result.{Result, ok, err}
use ker_sor_monitor.State.{State, name}
use ker_sor_monitor.Json.{Dict, assign, bool, str}
use ker_sor_monitor.Runtime.{WorkerHandle, Adapter, get_adapter}
use ker_sor_monitor.Store.Db.{Db, connection}
use ker_sor_monitor.Store.Commands.{Command, execute}
use ker_sor_monitor.Store.Workers.{get_worker}
use ker_sor_monitor.Store.Events
use ker_sor_monitor.World.{World, Outside, Seen, Registered, handles_snapshot}
use ker_sor_monitor.Actuator.{retire, event, record_event}
use ker_sor_monitor.Sinks.Status.{normalize_status_record}
use ker_sor_monitor.Observer.Record.{
  observe_and_record, observe_by, recorded, stored_or_raised, with_session, with_found, found_uuid,
  save_uuid, lacks_uuid, mines, status_event, reading, is_remote,
}
use ker_sor_monitor.Observer.Patrol.{
  terminal_of, announced, settled, concluded, observe_one, observe_each, observe_running,
}
use ker_sor_monitor.System.Evolves.{Evolves-command}
use ker_sor_monitor.System.Actuation.{
  Steps, Steps-refl, Steps-trans, record_event-Steps, retire-Steps,
}

module _ (out : Outside) where
  save_uuid-Steps :
      (wid : String) (uuid : String) (w : World)
      → Steps out w (save_uuid wid (get_worker w.db wid) uuid w)
  unfolding execute
  save_uuid-Steps wid uuid w = elim (Bool-cases (lacks_uuid (get_worker w.db wid))) [
    | inl e ↦ rw e (Evolves-command out.others (Command.set_worker_session_uuid wid uuid) tt w.db)
    | inr e ↦ rw e (Steps-refl out w)
  ]

  with_found-Steps :
      (wid : String) (remote : Bool) (seen : Seen) (rec : Dict) (w : World) (o : Option String)
      → Steps out w (with_found wid remote seen rec w o).1
  with_found-Steps wid remote seen rec w none = Steps-refl out w
  with_found-Steps wid remote seen rec w (some uuid) = save_uuid-Steps wid uuid w

  with_session-Steps :
      (wid : String) (remote : Bool) (rt : Adapter) (seen : Seen) (rec : Dict) (w : World)
      → Steps out w (with_session wid remote rt seen rec w).1
  unfolding with_session
  with_session-Steps wid remote rt seen rec w = elim (Bool-cases (mines rt)) [
    | inl e ↦ rw e (
        with_found-Steps wid remote seen rec w (found_uuid remote (get_worker w.db wid) seen.mined))
    | inr e ↦ rw e (Steps-refl out w)
  ]

  stored-Steps :
      (rec : Dict) (w v : World) (r : Result (Unit {0}) × Db)
      → Steps out w (record v { db = r.1 })
      → Steps out w (stored_or_raised rec v r).1
  stored-Steps rec w v (ok _, db) h = h
  stored-Steps rec w v (err e, db) h = h

  recorded-Steps :
      (tid : String) (exited : Bool) (w : World) (r : Dict × World)
      → Steps out w r.1
      → Steps out w (recorded out tid exited r).1
  unfolding execute
  recorded-Steps tid exited w (rec, v) h =
      let final = normalize_status_record out.float_of (assign "exited" (bool exited) rec) in
      let e = status_event out tid final in
      stored-Steps final w v (connection (Events.append_event out.retention e) v.db) (
        Steps-trans out w v
          (record v { db = (connection (Events.append_event out.retention e) v.db).1 }) h
          (Evolves-command out.others (Command.append_event out.retention e) tt v.db))

  observe_by-Steps :
      (wid : String) (handle : WorkerHandle) (w : World) (r : Result Adapter)
      → Steps out w (observe_by out wid handle w r).1
  observe_by-Steps wid handle w (err e) = Steps-refl out w
  observe_by-Steps wid handle w (ok rt) =
      let seen = out.see handle in
      let remote = is_remote handle.handle in
      let (rec, exited) = reading seen remote in
      recorded-Steps handle.task_id exited w (with_session wid remote rt seen rec w)
        (with_session-Steps wid remote rt seen rec w)

  pub observe-Steps :
      (wid : String) (handle : WorkerHandle) (w : World)
      → Steps out w (observe_and_record out wid handle w).1
  unfolding observe_and_record
  observe-Steps wid handle w = observe_by-Steps wid handle w (get_adapter handle.backend)

  announced-Steps :
      (tid : String) (w : World) (r : Result (Option State) × World)
      → Steps out w r.1
      → Steps out w (announced out tid r)
  announced-Steps tid w (ok (some s), v) h =
      let e = event out tid "terminal" (("state", str (name s)) ∷ []) in
      Steps-trans out w v (record_event out e v) h (record_event-Steps out e v)
  announced-Steps tid w (ok none, v) h = h
  announced-Steps tid w (err e, v) h = h

  concluded-Steps :
      (r : Registered) (w : World) (o : Result Dict × World)
      → Steps out w o.1
      → Steps out w (concluded out r o).1
  concluded-Steps r w (err e, v) h = h
  concluded-Steps r w (ok rec, v) h = by (terminal_of rec)
    where
      by : (o : Option State) → Steps out w (settled out r v o).1
      by none = h
      by (some s) =
          announced-Steps r.task_id w (retire out r.task_id (some r.worker_id) (some s) true v) (
            Steps-trans out w v (retire out r.task_id (some r.worker_id) (some s) true v).1 h
              (retire-Steps out r.task_id (some r.worker_id) (some s) true v))

  observe_one-Steps : (r : Registered) (w : World) → Steps out w (observe_one out r w).1
  unfolding observe_one
  observe_one-Steps r w =
      concluded-Steps r w (observe_and_record out r.worker_id r.handle w)
        (observe-Steps r.worker_id r.handle w)

  observe_each-Steps : (rs : List Registered) (w : World) → Steps out w (observe_each out rs w).1
  unfolding observe_each
  observe_each-Steps [] w = Steps-refl out w
  observe_each-Steps (r ∷ rs) w =
      let next = (observe_one out r w).1 in
      Steps-trans out w next (observe_each out rs next).1 (observe_one-Steps r w)
        (observe_each-Steps rs next)

  pub observe_running-Steps : (w : World) → Steps out w (observe_running out w).1
  unfolding observe_running
  observe_running-Steps w = observe_each-Steps (handles_snapshot w) w
