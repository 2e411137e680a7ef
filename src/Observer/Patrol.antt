-- ===== src/Observer/Patrol.antt =====
-- `observe_running` of flotilla/observer.py: every registered worker is read, and retired where its
-- report ends the task.
use ker_sor_monitor.Prelude.{
  ℕ, ◌+◌, String, Bool, true, false, Option, none, some, List, [], ◌∷◌, if◌then◌else◌,
}
use ker_sor_monitor.Result.{Result, ok, err}
use ker_sor_monitor.State.{State, name}
use ker_sor_monitor.Json.{Value, str, Dict, get, truthy}
use ker_sor_monitor.World.{World, Outside, Registered, handles_snapshot}
use ker_sor_monitor.Actuator.{retire, event, record_event}
use ker_sor_monitor.Observer.{map_terminal}
use ker_sor_monitor.Observer.Record.{observe_and_record}

abbrev opt_text : Value → Option String
opt_text (str s) = some s
opt_text _ = none

abbrev plain_text : Value → String
plain_text (str s) = s
plain_text _ = ""

-- `_map_terminal` on a normalized record.
unfoldable pub terminal_of : Dict → Option State
terminal_of rec =
    map_terminal (opt_text (get "status_state" rec)) (truthy (get "exited" rec))
      (plain_text (get "pane_tail" rec))

abbrev pub announced : Outside → String → Result (Option State) × World → World
announced out tid (ok (some s), w) =
    record_event out (event out tid "terminal" (("state", str (name s)) ∷ [])) w
announced out tid (_, w) = w

-- After a reading: whether the worker still runs, and the new state.
abbrev pub settled : Outside → Registered → World → Option State → Bool × World
settled out r w none = (true, w)
settled out r w (some s) =
    (false, announced out r.task_id (retire out r.task_id (some r.worker_id) (some s) true w))

-- Exceptions are swallowed.
abbrev pub concluded : Outside → Registered → Result Dict × World → Bool × World
concluded out r (err e, w) = (false, w)
concluded out r (ok rec, w) = settled out r w (terminal_of rec)

unfoldable pub observe_one : Outside → Registered → World → Bool × World
unfolding observe_and_record
observe_one out r w = concluded out r (observe_and_record out r.worker_id r.handle w)

unfoldable pub observe_each : Outside → List Registered → World → ℕ × World
unfolding observe_one
observe_each out [] w = (0, w)
observe_each out (r ∷ rs) w =
    let (runs, next) = observe_one out r w in
    let (n, final) = observe_each out rs next in (if runs then n + 1 else n, final)

unfoldable pub observe_running : Outside → World → ℕ × World
unfolding observe_each
observe_running out w = observe_each out (handles_snapshot w) w
