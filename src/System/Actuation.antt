-- ===== src/System/Actuation.antt =====
-- What flotilla/actuator.py does to the database.
use ker_sor_monitor.Prelude.{
  String, refl, Bool, true, false, Option, none, some, [], ◌∷◌, Bool-cases, inl, inr, ◌==◌, ◌&&◌,
  any_of,
}
use ker_sor_monitor.Result.{Result, ok, err, ◌>>=◌}
use ker_sor_monitor.State.{running, paused, stuck, is, State, is_terminal}
use ker_sor_monitor.Models.{Task, Event, Worker}
use ker_sor_monitor.Runtime.{WorkerHandle, get_adapter}
use ker_sor_monitor.Resource.{Kind, get_kind}
use ker_sor_monitor.Store.Db.{Db, connection}
use ker_sor_monitor.Store.Commands.{Command, execute}
use ker_sor_monitor.World.{World, Outside, unregister, Registered, running_handle}
use ker_sor_monitor.Actuator
use ker_sor_monitor.Actuator.{
  record_event, retire, retire_stuck, retire_body, retire_task, stop_worker, release_lease, wind_up,
  commit, decide, ignored, stall, free_kind, free_lock, after_finish, close_row, finally,
  with_others, has_ended, get_given, stop_failed,
}
use ker_sor_monitor.System.Evolves.{Evolves, stays, Evolves-trans, Evolves-command, Evolves-others}
use ker_sor_monitor.Json.{Dict, truthy, get}
use ker_sor_monitor.Store.Tasks
use ker_sor_monitor.Store.Tasks.{get_task}
use ker_sor_monitor.Prelude.Rows.{map_option}

module _ (out : Outside) where
  -- The database of a world evolves into that of another.
  abbrev pub Steps : World → World → Type 0
  Steps w w' = Evolves out.others w.db w'.db

  pub Steps-refl : (w : World) → Steps w w
  Steps-refl w = stays refl

  pub Steps-trans : (u v w : World) → Steps u v → Steps v w → Steps u w
  Steps-trans u v w = Evolves-trans out.others u.db v.db w.db

  pub with_others-Steps : (w : World) → Steps w (with_others out w)
  with_others-Steps w = Evolves-others out.others w.db

  pub record_event-Steps : (e : Event) (w : World) → Steps w (record_event out e w)
  unfolding record_event execute
  record_event-Steps e w = Evolves-command out.others (Command.append_event out.retention e) tt w.db

  ignored-Steps :
      (w v : World) (r : Result Bool × Db)
      → Steps w (record v { db = r.1 })
      → Steps w (ignored r v).1
  ignored-Steps w v (ok b, db) h = h
  ignored-Steps w v (err e, db) h = h

  stall-Steps : (tid : String) (w : World) (o : Option Task) → Steps w (stall out tid w o).1
  unfolding execute
  stall-Steps tid w none = Steps-refl w
  stall-Steps tid w (some task) = elim (Bool-cases (is stuck task.state)) [
    | inl e ↦ rw e (Steps-refl w)
    | inr e ↦ rw e (
        ignored-Steps w w _ (
          Evolves-command out.others
            (Command.set_task_state out.now tid stuck (some (running ∷ paused ∷ stuck ∷ []))) tt
            w.db))
  ]

  stop_failed-Steps :
      (tid : String) (w : World) (r : Result (Unit {0})) → Steps w (stop_failed out tid w r)
  stop_failed-Steps tid w (ok _) = Steps-refl w
  stop_failed-Steps tid w (err e) = record_event-Steps _ w

  stop_worker-Steps :
      (tid : String) (stops : Bool) (h : Option WorkerHandle) (w : World)
      → Steps w (stop_worker out tid stops h w)
  unfolding stop_worker
  stop_worker-Steps tid false h w = Steps-refl w
  stop_worker-Steps tid true none w = Steps-refl w
  stop_worker-Steps tid true (some h) w =
      stop_failed-Steps tid w (get_adapter h.backend >>= λ _. out.stop h)

  freed-Steps :
      (tid rid : String) (w : World) (k : Result Kind) → Steps w (Actuator.freed out tid rid w k)
  freed-Steps tid rid w (ok k) = Steps-refl w
  freed-Steps tid rid w (err e) = record_event-Steps _ w

  free_lock-Steps :
      (tid : String) (req : Dict) (w : World) (o : Option String)
      → Steps w (free_lock out tid req w o)
  free_lock-Steps tid req w none = Steps-refl w
  free_lock-Steps tid req w (some rid) = elim (Bool-cases (rid == "")) [
    | inl e ↦ rw e (Steps-refl w)
    | inr e ↦ elim (Bool-cases (truthy (get "kind" req))) [
      | inl k ↦ rw (e, k) (freed-Steps tid rid w (get_kind (get "kind" req)))
      | inr k ↦ rw (e, k) (Steps-refl w)
    ]
  ]

  release_lease-Steps :
      (tid : String) (req : Dict) (o : Option Worker) (w : World)
      → Steps w (release_lease out tid req o w)
  unfolding release_lease
  release_lease-Steps tid req none w = Steps-refl w
  release_lease-Steps tid req (some worker) w = free_lock-Steps tid req w worker.resource_lock_id

  wind_up-Steps :
      (tid : String) (task : Task) (worker : Option Worker) (final : Option State) (w : World)
      → Steps w (wind_up out tid task worker final w).1
  unfolding wind_up unregister
  wind_up-Steps tid task worker final w = release_lease-Steps tid task.resource_req worker w

  after_finish-Steps :
      (tid : String) (task : Task) (worker : Option Worker) (s : State) (w v : World)
      (r : Result Bool × Db)
      → Steps w (record v { db = r.1 })
      → Steps w (after_finish out tid task worker s v r).1
  after_finish-Steps tid task worker s w v (err e, db) h = h
  after_finish-Steps tid task worker s w v (ok false, db) h = h
  after_finish-Steps tid task worker s w v (ok true, db) h =
      Steps-trans w (record v { db = db })
        (wind_up out tid task worker (some s) (record v { db = db })).1 h
        (wind_up-Steps tid task worker (some s) (record v { db = db }))

  close_row-Steps : (o : Option String) (w : World) → Steps w (close_row out o w)
  unfolding execute
  close_row-Steps none w = Steps-refl w
  close_row-Steps (some wid) w = elim (Bool-cases (wid == "")) [
    | inl e ↦ rw e (Steps-refl w)
    | inr e ↦ rw e (Evolves-command out.others (Command.end_worker out.now wid) tt w.db)
  ]

  commit-Steps :
      (tid : String) (task : Task) (wid : Option String) (worker : Option Worker)
      (d : Option State × Option Event) (w : World)
      → Steps w (commit out tid task wid worker d w).1
  unfolding commit execute
  commit-Steps tid task wid worker (none, e) w =
      Steps-trans w (close_row out wid w) (wind_up out tid task worker none (close_row out wid w)).1
        (close_row-Steps wid w) (wind_up-Steps tid task worker none (close_row out wid w))
  commit-Steps tid task wid worker (some s, e) w =
      after_finish-Steps tid task worker s w w
        (connection (Tasks.finish_worker out.now tid wid s e) w.db)
        (Evolves-command out.others (Command.finish_worker out.now tid wid s e) tt w.db)

  retire_task-Steps :
      (wid : Option String) (terminal : Option State) (stops : Bool) (h : Option WorkerHandle)
      (worker : Option Worker) (tid : String) (o : Option Task) (w : World)
      → Steps w (retire_task out wid terminal stops h worker tid o w).1
  unfolding retire_task unregister
  retire_task-Steps wid terminal stops h worker tid none w = Steps-refl w
  retire_task-Steps wid terminal stops h worker tid (some task) w =
      elim (Bool-cases (is_terminal task.state && has_ended worker)) [
        | inl e ↦ rw e (Steps-refl w)
        | inr e ↦ rw e (
            let stopped = stop_worker out tid stops h w in
            let now = with_others out stopped in
            Steps-trans w now (commit out tid task wid worker (decide out task h terminal) now).1
              (Steps-trans w stopped now (stop_worker-Steps tid stops h w)
                (with_others-Steps stopped))
              (commit-Steps tid task wid worker (decide out task h terminal) now))
      ]

  finally-Steps :
      (tid : String) (w : World) (r : Result (Option State) × World)
      → Steps w r.1
      → Steps w (finally tid r).1
  finally-Steps tid w (r, v) h = h

  -- Retirement acts on the database by store calls only.
  pub retire-Steps :
      (tid : String) (wid : Option String) (terminal : Option State) (stops : Bool) (w : World)
      → Steps w (retire out tid wid terminal stops w).1
  unfolding retire retire_stuck retire_body
  retire-Steps tid wid terminal stops w =
      elim (Bool-cases (elim terminal [ none ↦ false | some s ↦ is stuck s ])) [
        | inl e ↦ rw e (stall-Steps tid w (get_task w.db tid))
        | inr e ↦ elim (Bool-cases (any_of (λ t. t == tid) w.retiring)) [
          | inl busy ↦ rw (e, busy) (Steps-refl w)
          | inr free ↦
              let entered = record w { retiring = tid ∷ w.retiring } in
              rw (e, free)
                (finally-Steps tid w (retire_body out tid wid terminal stops entered) (
                  retire_task-Steps wid terminal stops
                    (map_option Registered.handle (running_handle entered tid))
                    (get_given entered.db wid) tid (get_task entered.db tid) entered))
        ]
      ]
