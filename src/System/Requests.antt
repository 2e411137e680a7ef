-- ===== src/System/Requests.antt =====
-- What a user's requests, worker reports and the restart do to the database.
use ker_sor_monitor.Prelude.{
  String, Bool, true, false, Option, none, some, [], ◌∷◌, ◌==◌, Bool-cases, inl, inr, if◌then◌else◌,
  or_else,
}
use ker_sor_monitor.Result.{Result, ok, err}
use ker_sor_monitor.State.{State, running, paused, stuck, cancelled, is}
use ker_sor_monitor.Json.{Dict, lookup, str}
use ker_sor_monitor.Models.{Task}
use ker_sor_monitor.Runtime.{WorkerHandle, Adapter, get_adapter}
use ker_sor_monitor.Store.Tasks.{get_task}
use ker_sor_monitor.Store.Commands.{Command, execute}
use ker_sor_monitor.World.{World, Outside, Registered, running_handle}
use ker_sor_monitor.Actuator.{retire, with_others}
use ker_sor_monitor.Actuator.Steer.{
  Reply, refused, set_state, wake, woken, nudge, stop, after_retire, controlled, pause_or_resume,
  act_by, act_on, actuate, pasted, stopped, switched, switch,
}
use ker_sor_monitor.System.Evolves.{Evolves-command}
use ker_sor_monitor.System.Actuation.{
  Steps, Steps-refl, Steps-trans, with_others-Steps, retire-Steps,
}

module _ (out : Outside) where
  set_state-Steps :
      (tid : String) (new expected : State) (w : World)
      → Steps out w (set_state out tid new expected w).1
  unfolding execute
  set_state-Steps tid new expected w =
      Evolves-command out.others (Command.set_task_state out.now tid new (some (expected ∷ []))) tt
        w.db

  woken-Steps : (w : World) (r : Result Bool × World) → Steps out w r.1 → Steps out w (woken r).1
  woken-Steps w (ok b, v) h = h
  woken-Steps w (err e, v) h = h

  wake-Steps : (tid : String) (o : Option Task) (w : World) → Steps out w (wake out tid o w).1
  wake-Steps tid none w = Steps-refl out w
  wake-Steps tid (some t) w = elim (Bool-cases (is stuck t.state)) [
    | inl e ↦
        let now = with_others out w in
        rw e (
          woken-Steps w (set_state out tid running stuck now) (
            Steps-trans out w now (set_state out tid running stuck now).1 (with_others-Steps out w)
              (set_state-Steps tid running stuck now)))
    | inr e ↦ rw e (Steps-refl out w)
  ]

  pasted-Steps :
      (tid : String) (w : World) (r : Result (Unit {0})) → Steps out w (pasted out tid w r).1
  pasted-Steps tid w (ok _) =
      let now = with_others out w in
      Steps-trans out w now (wake out tid (get_task now.db tid) now).1 (with_others-Steps out w)
        (wake-Steps tid (get_task now.db tid) now)
  pasted-Steps tid w (err e) = Steps-refl out w

  after_retire-Steps :
      (tid : String) (wid : Option String) (w : World) (r : Result (Option State) × World)
      → Steps out w r.1
      → Steps out w (after_retire tid wid r).1
  after_retire-Steps tid wid w (ok s, v) h = h
  after_retire-Steps tid wid w (err e, v) h = h

  stopped-Steps :
      (tid : String) (wid : Option String) (w : World) (r : Result (Unit {0}))
      → Steps out w (stopped out tid wid w r).1
  stopped-Steps tid wid w (ok _) =
      let now = with_others out w in
      after_retire-Steps tid wid w (retire out tid wid (some cancelled) false now) (
        Steps-trans out w now (retire out tid wid (some cancelled) false now).1
          (with_others-Steps out w) (retire-Steps out tid wid (some cancelled) false now))
  stopped-Steps tid wid w (err e) = Steps-refl out w

  controlled-Steps :
      (action : String) (w : World) (r : Result Bool × World)
      → Steps out w r.1
      → Steps out w (controlled action r).1
  controlled-Steps action w (ok true, v) h = h
  controlled-Steps action w (ok false, v) h = h
  controlled-Steps action w (err e, v) h = h

  later-Steps :
      (tid : String) (new expected : State) (w : World)
      → Steps out w (set_state out tid new expected (with_others out w)).1
  later-Steps tid new expected w =
      let now = with_others out w in
      Steps-trans out w now (set_state out tid new expected now).1 (with_others-Steps out w)
        (set_state-Steps tid new expected now)

  switched-Steps :
      (tid action : String) (w : World) (r : Result (Unit {0}))
      → Steps out w (switched out tid action w r).1
  switched-Steps tid action w (err e) = Steps-refl out w
  switched-Steps tid action w (ok _) = elim (Bool-cases (action == "pause")) [
    | inl e ↦ rw e (
        controlled-Steps action w (set_state out tid paused running (with_others out w))
          (later-Steps tid paused running w))
    | inr e ↦ rw e (
        controlled-Steps action w (set_state out tid running paused (with_others out w))
          (later-Steps tid running paused w))
  ]

  switch-Steps :
      (tid : String) (h : WorkerHandle) (action : String) (w : World)
      (o : Option (WorkerHandle → Result (Unit {0})))
      → Steps out w (switch out tid h action w o).1
  switch-Steps tid h action w none = Steps-refl out w
  switch-Steps tid h action w (some method) = switched-Steps tid action w (method h)

  either-Steps :
      (b : Bool) (w : World) (x y : Result Reply × World)
      → Steps out w x.1
      → Steps out w y.1
      → Steps out w (if b then x else y).1
  either-Steps true w x y h k = h
  either-Steps false w x y h k = k

  act_by-Steps :
      (tid action : String) (payload : Dict) (r : Registered) (w : World) (a : Result Adapter)
      → Steps out w (act_by out tid action payload r w a).1
  unfolding nudge stop pause_or_resume
  act_by-Steps tid action payload r w (err e) = Steps-refl out w
  act_by-Steps tid action payload r w (ok rt) =
      either-Steps (action == "nudge") w (pasted out tid w pasting) _ (pasted-Steps tid w pasting) (
        either-Steps (action == "stop") w (stopped out tid (some r.worker_id) w (out.stop r.handle))
          _ (stopped-Steps tid (some r.worker_id) w (out.stop r.handle))
          (either-Steps (action == "pause") w switching _
            (switch-Steps tid r.handle action w (out.control rt action))
            (either-Steps (action == "resume") w switching (ok refused, w)
              (switch-Steps tid r.handle action w (out.control rt action)) (Steps-refl out w))))
    where
      pasting : Result (Unit {0})
      pasting = out.paste r.handle (or_else (lookup "text" payload) (str ""))

      switching : Result Reply × World
      switching = switch out tid r.handle action w (out.control rt action)

  act_on-Steps :
      (tid action : String) (payload : Dict) (w : World) (o : Option Registered)
      → Steps out w (act_on out tid action payload w o).1
  act_on-Steps tid action payload w none = Steps-refl out w
  act_on-Steps tid action payload w (some r) =
      act_by-Steps tid action payload r w (get_adapter r.handle.backend)

  pub actuate-Steps :
      (tid action : String) (payload : Dict) (w : World)
      → Steps out w (actuate out tid action payload w).1
  unfolding actuate
  actuate-Steps tid action payload w = act_on-Steps tid action payload w (running_handle w tid)
