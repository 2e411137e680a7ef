-- ===== src/Observer/Record.antt =====
-- `observe_and_record` of flotilla/observer.py: one reading of a worker becomes a status event.
use ker_sor_monitor.Prelude.{
  ℕ, String, Bool, true, false, not, Option, none, some, [], ◌∷◌, ◌==◌, if◌then◌else◌, any_of,
  or_else, ◌||◌,
}
use ker_sor_monitor.Prelude.Int.{pos}
use ker_sor_monitor.Prelude.Text.{codes, last, lower, same_codes}
use ker_sor_monitor.Result.{Result, ok, err}
use ker_sor_monitor.Json.{
  Float, Value, null, bool, int, float, str, Dict, lookup, assign, get, truthy, opt_str,
}
use ker_sor_monitor.Models.{Worker, Event}
use ker_sor_monitor.Runtime.{
  WorkerHandle, Native, process, fields, Observation, Adapter, shell, claude_tmux, get_adapter,
}
use ker_sor_monitor.Store.Db.{Db, connection}
use ker_sor_monitor.Store.Workers.{get_worker, set_worker_session_uuid}
use ker_sor_monitor.Store.Events.{append_event}
use ker_sor_monitor.Sinks.Status.{normalize_status_record}
use ker_sor_monitor.World.{World, Outside, Seen}
use ker_sor_monitor.Observer.{success_status, stuck_status, failed_status}

abbrev opt_float : Option Float → Value
opt_float none = null
opt_float (some x) = float x

-- `rec.update(extra)`
unfoldable pub merge : Dict → Dict → Dict
merge d [] = d
merge d ((k, v) ∷ more) = merge (assign k v d) more

-- `hasattr(rt, "mine_session_uuid")`
unfoldable pub mines : Adapter → Bool
mines shell = false
mines claude_tmux = true

-- `h.get("host")`, where a handle that is no dict has none
abbrev pub is_remote : Native → Bool
is_remote (process p) = false
is_remote (fields d) = truthy (get "host" d)

abbrev has_uuid : Worker → Bool
has_uuid w = elim w.session_uuid [ none ↦ false | some u ↦ not (u == "") ]

-- `rec` of a remote worker, with `exited`.
unfoldable pub remote_record : Result Observation → Dict × Bool
remote_record (ok o) = (
  ("status_state", str o.state)
      ∷ ("speedup", opt_float o.speedup)
      ∷ ("rounds", int (pos o.rounds))
      ∷ ("candidates", int (pos 0))
      ∷ ("best_candidate", opt_str o.best_candidate)
      ∷ ("timestamp", str "")
      ∷ ("pane_tail", str (last 300 o.pane_tail))
      ∷ [],
  o.exited,
)
remote_record (err e) = (
  ("status_state", str "running")
      ∷ ("speedup", null)
      ∷ ("rounds", int (pos 0))
      ∷ ("candidates", int (pos 0))
      ∷ ("best_candidate", null)
      ∷ ("timestamp", str "")
      ∷ ("pane_tail", str "")
      ∷ [],
  false,
)

-- `status_state in _TERMINAL_STATUS_STATES`, for `str(… or "").lower()`; the text of a value that is
-- no text is none of them.
abbrev pub declares_end : Value → Bool
declares_end (str s) =
    let is_one = λ (n : String). same_codes (lower s) (codes n) in
    any_of is_one success_status || any_of is_one stuck_status || any_of is_one failed_status
declares_end _ = false

abbrev pub local_start : Dict → ℕ → Dict
local_start status candidates =
    ("status_state", or_else (lookup "state" status) (str "running"))
    ∷ ("speedup", get "speedup" status)
    ∷ ("rounds", or_else (lookup "rounds" status) (int (pos 0)))
    ∷ ("candidates", int (pos candidates))
    ∷ ("timestamp", or_else (lookup "timestamp" status) (str ""))
    ∷ ("pane_tail", str "")
    ∷ []

-- `rec` of a local worker, with `exited`.
unfoldable pub local_record : Dict → ℕ → Result Observation → Dict × Bool
unfolding merge
local_record status candidates (err e) = (local_start status candidates, false)
local_record status candidates (ok o) =
    let shown = assign "pane_tail" (str (last 300 o.pane_tail)) (local_start status candidates) in
    (
      merge
          (if declares_end (get "state" status)
            then shown
            else assign "status_state" (str o.state) shown)
          o.extra,
      o.exited,
    )

-- `uuid` and whether it is new to the worker's row.
abbrev pub known_uuid : Option Worker → Option String
known_uuid none = none
known_uuid (some w) = if has_uuid w then w.session_uuid else none

abbrev pub lacks_uuid : Option Worker → Bool
lacks_uuid none = false
lacks_uuid (some w) = not (has_uuid w)

abbrev given : Option String → Option String
given none = none
given (some s) = if s == "" then none else some s

-- The uuid that a reading finds: remote workers are asked only while their row has none.
abbrev pub found_uuid : Bool → Option Worker → Result (Option String) → Option String
found_uuid remote w (ok m) =
    if remote
    then (if lacks_uuid w then given m else none)
    else or_else_some (known_uuid w) (given m)
  where
    or_else_some : Option String → Option String → Option String
    or_else_some (some u) m = some u
    or_else_some none m = m
found_uuid remote w (err e) = if remote then none else known_uuid w

abbrev pub save_uuid : String → Option Worker → String → World → World
save_uuid wid w uuid world =
    if lacks_uuid w then record world { db = set_worker_session_uuid wid uuid world.db } else world

abbrev pub add_activity : Bool → Seen → String → Dict → Dict
add_activity remote seen uuid rec =
    if remote then rec else elim (seen.activity uuid) [ none ↦ rec | some a ↦ merge rec a ]

-- The session uuid goes to the worker's row and the record.
abbrev pub with_found : String → Bool → Seen → Dict → World → Option String → Dict × World
with_found wid remote seen rec w none = (rec, w)
with_found wid remote seen rec w (some uuid) = (
  add_activity remote seen uuid (assign "session_uuid" (str uuid) rec),
  save_uuid wid (get_worker w.db wid) uuid w,
)

unfoldable pub with_session : String → Bool → Adapter → Seen → Dict → World → Dict × World
with_session wid remote rt seen rec w =
    if mines rt
    then with_found wid remote seen rec w (found_uuid remote (get_worker w.db wid) seen.mined)
    else (rec, w)

abbrev pub stored_or_raised : Dict → World → Result (Unit {0}) × Db → Result Dict × World
stored_or_raised rec w (ok _, db) = (ok rec, record w { db = db })
stored_or_raised rec w (err e, db) = (err e, record w { db = db })

abbrev pub status_event : Outside → String → Dict → Event
status_event out tid rec = record { task_id = tid; type = "status"; payload = rec; ts = out.now }

abbrev pub reading : Seen → Bool → Dict × Bool
reading seen remote =
    if remote
    then remote_record seen.observed
    else local_record seen.status seen.candidates seen.observed

abbrev pub recorded : Outside → String → Bool → Dict × World → Result Dict × World
recorded out tid exited (rec, w) =
    let final = normalize_status_record out.float_of (assign "exited" (bool exited) rec) in
    stored_or_raised final w
      (connection (append_event out.retention (status_event out tid final)) w.db)

abbrev pub observe_by :
    Outside → String → WorkerHandle → World → Result Adapter → Result Dict × World
observe_by out wid handle w (err e) = (err e, w)
observe_by out wid handle w (ok rt) =
    let seen = out.see handle in
    let remote = is_remote handle.handle in
    let (rec, exited) = reading seen remote in
    recorded out handle.task_id exited (with_session wid remote rt seen rec w)

-- `observe_and_record`, without its publication.
unfoldable pub observe_and_record : Outside → String → WorkerHandle → World → Result Dict × World
observe_and_record out wid handle w = observe_by out wid handle w (get_adapter handle.backend)
