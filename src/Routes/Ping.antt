-- ===== src/Routes/Ping.antt =====
-- `worker_ping` of flotilla/routes.py: a worker reports its state by itself.
use ker_sor_monitor.Prelude.{
  String, Bool, true, false, not, ◌||◌, Option, none, some, [], ◌∷◌, ◌==◌, if◌then◌else◌, is_some,
}
use ker_sor_monitor.Prelude.Int.{pos}
use ker_sor_monitor.Prelude.Text.{join}
use ker_sor_monitor.Result.{Result, ok, err, http_error}
use ker_sor_monitor.State.{State, is_live, name}
use ker_sor_monitor.Json.{Float, Value, null, bool, int, float, str, Dict, opt_str}
use ker_sor_monitor.Models.{Task, WorkerPing, Event}
use ker_sor_monitor.SafeId.{is_safe_id}
use ker_sor_monitor.Store.Db.{Db, connection}
use ker_sor_monitor.Store.Tasks.{get_task}
use ker_sor_monitor.Store.Workers.{active_worker_id}
use ker_sor_monitor.Store.Events.{append_event}
use ker_sor_monitor.World.{World, Outside}
use ker_sor_monitor.Actuator.{retire, event}
use ker_sor_monitor.Observer.{map_terminal}

abbrev float_or_null : Option Float → Value
float_or_null none = null
float_or_null (some x) = float x

-- `rec`
abbrev pub ping_record : WorkerPing → Dict
ping_record b =
    ("status_state", str b.state)
    ∷ ("speedup", float_or_null b.speedup)
    ∷ ("rounds", int (pos b.rounds))
    ∷ ("candidates", int (pos b.candidates))
    ∷ ("best_candidate", opt_str b.best_candidate)
    ∷ ("timestamp", str b.timestamp)
    ∷ ("pane_tail", str b.pane_tail)
    ∷ ("session_uuid", opt_str b.session_uuid)
    ∷ ("last_activity", str b.last_activity)
    ∷ ("last_tool", opt_str b.last_tool)
    ∷ ("tokens", int (pos b.tokens))
    ∷ ("exited", bool false)
    ∷ ("source", str "worker-ping")
    ∷ []

-- Whether the header carries the token, where one is configured; both are ASCII.
abbrev pub is_authorized : String → Option String → Bool
is_authorized token header =
    token == ""
    || elim header [ none ↦ "" == join "Bearer " token | some h ↦ h == join "Bearer " token ]

-- A transaction, and its exception.
abbrev pub transacted : Result (Unit {0}) × Db → World → Result (Unit {0}) × World
transacted (r, db) w = (r, record w { db = db })

unfoldable pub append : Outside → Event → World → Result (Unit {0}) × World
append out e w = transacted (connection (append_event out.retention e) w.db) w

abbrev pub told : Outside → String → Result (Option State) × World → Result (Unit {0}) × World
told out tid (ok none, w) = (ok tt, w)
told out tid (ok (some s), w) =
    append out (event out tid "terminal" (("state", str (name s)) ∷ [])) w
told out tid (err e, w) = (err e, w)

-- The terminal check of the report.
abbrev pub ended : Outside → String → Option State → World → Result (Unit {0}) × World
ended out tid none w = (ok tt, w)
ended out tid (some s) w = told out tid (retire out tid (active_worker_id w.db tid) (some s) true w)

abbrev pub reported : Outside → WorkerPing → Result (Unit {0}) × World → Result (Unit {0}) × World
reported out b (ok _, w) = ended out b.task_id (map_terminal (some b.state) false "") w
reported out b (err e, w) = (err e, w)

abbrev pub ping_row : Outside → WorkerPing → World → Option Task → Result (Unit {0}) × World
ping_row out b w none = (err (http_error 404), w)
ping_row out b w (some t) =
    if not (is_live t.state) || not (is_some (active_worker_id w.db b.task_id))
    then (err (http_error 409), w)
    else reported out b (append out (event out b.task_id "status" (ping_record b)) w)

-- `worker_ping`, without its publication.
unfoldable pub worker_ping :
    Outside → String → Option String → WorkerPing → World → Result (Unit {0}) × World
unfolding append
worker_ping out token header b w =
    if not (is_authorized token header)
    then (err (http_error 401), w)
    else if not (is_safe_id b.task_id)
    then (err (http_error 400), w)
    else ping_row out b w (get_task w.db b.task_id)
