-- ===== src/Actuator.antt =====
-- flotilla/actuator.py: retirement of workers and steering. A call of `retire` or `actuate` takes
-- the state of the process and returns its result, or its exception, and the new state.
pub mod Finish
pub mod Retire
pub mod Gate
pub mod Stall
pub mod Steer
pub mod Stop
use ker_sor_monitor.Prelude.{
  ℕ, String, Bool, true, false, not, ◌&&◌, ◌||◌, Option, none, some, List, [], ◌∷◌, ◌==◌,
  if◌then◌else◌, any_of, is_some, or_else,
}
use ker_sor_monitor.Prelude.Rows.{delete, map_option}
use ker_sor_monitor.Prelude.Int.{pos}
use ker_sor_monitor.Result.{Error, Result, ok, err, ◌>>=◌, runtime_error}
use ker_sor_monitor.State.{State, running, paused, stuck, done, failed, is, is_terminal}
use ker_sor_monitor.Json.{
  Value, Values, nil, cons, Dict, bool, float, finite, str, arr, get, truthy,
}
use ker_sor_monitor.Models.{Task, Worker, Event}
use ker_sor_monitor.Runtime.{WorkerHandle, get_adapter}
use ker_sor_monitor.Resource.{Resources, get_kind, release_id, Kind}
use ker_sor_monitor.Evaluator.{EvalResult, get_evaluator}
use ker_sor_monitor.Store.Db.{Db, connection, is_open}
use ker_sor_monitor.Store.Tasks.{get_task, set_task_state, finish_worker}
use ker_sor_monitor.Store.Workers.{get_worker, end_worker}
use ker_sor_monitor.Store.Events.{append_event}
use ker_sor_monitor.World.{World, Outside, Registered, running_handle, unregister}

-- `if s:` at an optional text.
abbrev pub is_given : Option String → Bool
is_given none = false
is_given (some s) = not (s == "")

abbrev pub text_or : Option String → String → String
text_or none d = d
text_or (some s) d = if s == "" then d else s

unfoldable pub event : Outside → String → String → Dict → Event
event out tid type payload = record { task_id = tid; type = type; payload = payload; ts = out.now }

-- `try: store.append_event(…) except Exception: pass`
unfoldable pub record_event : Outside → Event → World → World
record_event out e w = record w { db = (connection (append_event out.retention e) w.db).1 }

abbrev texts : List String → Values
texts [] = nil
texts (s ∷ ss) = cons (str s) (texts ss)

-- The body of the `try` of `_evaluation_event`.
unfoldable pub evaluated : Outside → Task → Option WorkerHandle → String → Result EvalResult
evaluated out task handle name =
    if is_given task.target_host
    then err runtime_error
    else let workspace =
        text_or task.workspace_path (or_else (map_option WorkerHandle.workspace handle) "") in
      if out.is_dir workspace
      then (get_evaluator name >>= λ _. out.evaluate task workspace)
      else err runtime_error

abbrev verdict_payload : Outside → Result EvalResult → Dict
verdict_payload out (ok r) =
    ("passed", bool r.passed)
    ∷ ("score", float r.score)
    ∷ ("detail", str r.detail)
    ∷ ("artifacts", arr (texts r.artifacts))
    ∷ []
verdict_payload out (err e) =
    ("passed", bool false)
    ∷ ("score", float (finite (pos 0) (pos 0)))
    ∷ ("error", str (out.message e))
    ∷ []

abbrev pub verdict : Result EvalResult → State
verdict (ok r) = if r.passed then done else failed
verdict (err e) = failed

abbrev pub judged : Outside → Task → String → Result EvalResult → State × Option Event
judged out task name r = (
  verdict r,
  some (event out task.id "evaluation" (("evaluator", str name) ∷ verdict_payload out r)),
)

abbrev pub gate_by : Outside → Task → Option WorkerHandle → Option String → State × Option Event
gate_by out task handle none = (done, none)
gate_by out task handle (some name) =
    if name == "" then (done, none) else judged out task name (evaluated out task handle name)

-- `_evaluation_event`
unfoldable pub evaluation_event : Outside → Task → Option WorkerHandle → State × Option Event
unfolding evaluated event
evaluation_event out task handle = gate_by out task handle task.evaluator

-- The result of `set_task_state` is dropped.
abbrev pub ignored : Result Bool × Db → World → Result (Option State) × World
ignored (ok _, db) w = (ok (some stuck), record w { db = db })
ignored (err e, db) w = (err e, record w { db = db })

abbrev pub stall : Outside → String → World → Option Task → Result (Option State) × World
stall out tid w none = (ok none, w)
stall out tid w (some task) =
    if is stuck task.state
    then (ok none, w)
    else ignored
        (connection (set_task_state out.now tid stuck (some (running ∷ paused ∷ stuck ∷ []))) w.db)
        w

-- `retire(…, "STUCK")`
unfoldable pub retire_stuck : Outside → String → World → Result (Option State) × World
retire_stuck out tid w = stall out tid w (get_task w.db tid)

abbrev pub stop_failed : Outside → String → World → Result (Unit {0}) → World
stop_failed out tid w (ok _) = w
stop_failed out tid w (err e) =
    record_event out (event out tid "worker_stop_warning" (("error", str (out.message e)) ∷ [])) w

-- `if stop_runtime and handle is not None: …`
unfoldable pub stop_worker : Outside → String → Bool → Option WorkerHandle → World → World
unfolding record_event event
stop_worker out tid false handle w = w
stop_worker out tid true none w = w
stop_worker out tid true (some h) w =
    stop_failed out tid w (get_adapter h.backend >>= λ _. out.stop h)

abbrev pub freed : Outside → String → String → World → Result Kind → World
freed out tid rid w (ok k) = record w { resources = release_id k rid w.resources }
freed out tid rid w (err e) =
    record_event out
      (event out tid "resource_release_failed"
        (("resource_id", str rid) ∷ ("error", str (out.message e)) ∷ []))
      w

abbrev pub free_kind : Outside → String → String → World → Value → World
free_kind out tid rid w kind = if truthy kind then freed out tid rid w (get_kind kind) else w

abbrev pub free_lock : Outside → String → Dict → World → Option String → World
free_lock out tid req w none = w
free_lock out tid req w (some rid) =
    if rid == "" then w else free_kind out tid rid w (get "kind" req)

-- `if worker and worker.resource_lock_id: …`
unfoldable pub release_lease : Outside → String → Dict → Option Worker → World → World
unfolding record_event event
release_lease out tid req none w = w
release_lease out tid req (some worker) w = free_lock out tid req w worker.resource_lock_id

-- The end of the `try`: release, unregister, return.
unfoldable pub wind_up :
    Outside → String → Task → Option Worker → Option State → World → Result (Option State) × World
unfolding release_lease unregister
wind_up out tid task worker final w =
    (ok final, unregister tid (release_lease out tid task.resource_req worker w))

abbrev pub after_finish :
    Outside
    → String
    → Task
    → Option Worker
    → State
    → World
    → Result Bool × Db
    → Result (Option State) × World
after_finish out tid task worker s w (err e, db) = (err e, record w { db = db })
after_finish out tid task worker s w (ok false, db) = (ok none, record w { db = db })
after_finish out tid task worker s w (ok true, db) =
    wind_up out tid task worker (some s) (record w { db = db })

abbrev pub close_row : Outside → Option String → World → World
close_row out none w = w
close_row out (some wid) w = if wid == "" then w else record w { db = end_worker out.now wid w.db }

-- `if final_state: … elif worker_id: …`
unfoldable pub commit :
    Outside
    → String
    → Task
    → Option String
    → Option Worker
    → Option State × Option Event
    → World
    → Result (Option State) × World
unfolding wind_up
commit out tid task wid worker (none, e) w = wind_up out tid task worker none (close_row out wid w)
commit out tid task wid worker (some s, e) w =
    after_finish out tid task worker s w (connection (finish_worker out.now tid wid s e) w.db)

abbrev pub gated : State × Option Event → Option State × Option Event
gated (s, e) = (some s, e)

-- `final_state` and `evaluation_event`
unfoldable pub decide :
    Outside → Task → Option WorkerHandle → Option State → Option State × Option Event
unfolding evaluation_event
decide out task handle terminal = if is_terminal task.state then (none, none) else elim terminal [
  | none ↦ (none, none)
  | some s ↦ if is done s then gated (evaluation_event out task handle) else (some s, none)
]

abbrev pub has_ended : Option Worker → Bool
has_ended none = true
has_ended (some worker) = not (is_open worker)

abbrev pub with_others : Outside → World → World
with_others out w = record w { db = out.others w.db }

-- From the row of the task on. Other threads may commit while the worker is stopped and its work is
-- evaluated.
unfoldable pub retire_task :
    Outside
    → Option String
    → Option State
    → Bool
    → Option WorkerHandle
    → Option Worker
    → String
    → Option Task
    → World
    → Result (Option State) × World
unfolding stop_worker decide commit unregister
retire_task out wid terminal stops handle worker tid none w = (ok none, unregister tid w)
retire_task out wid terminal stops handle worker tid (some task) w =
    if is_terminal task.state && has_ended worker
    then (ok none, unregister tid w)
    else commit out tid task wid worker (decide out task handle terminal)
        (with_others out (stop_worker out tid stops handle w))

abbrev pub get_given : Db → Option String → Option Worker
get_given db none = none
get_given db (some wid) = if wid == "" then none else get_worker db wid

-- The `try` of `retire`.
unfoldable pub retire_body :
    Outside → String → Option String → Option State → Bool → World → Result (Option State) × World
unfolding retire_task get_worker get_task running_handle
retire_body out tid wid terminal stops w =
    retire_task out wid terminal stops (map_option Registered.handle (running_handle w tid))
      (get_given w.db wid) tid (get_task w.db tid) w

abbrev pub finally : String → Result (Option State) × World → Result (Option State) × World
finally tid (r, w) = (r, record w { retiring = delete (λ t. t == tid) w.retiring })

unfoldable pub retire :
    Outside → String → Option String → Option State → Bool → World → Result (Option State) × World
unfolding retire_stuck retire_body
retire out tid wid terminal stops w =
    if elim terminal [ none ↦ false | some s ↦ is stuck s ]
    then retire_stuck out tid w
    else if any_of (λ t. t == tid) w.retiring
    then (ok none, w)
    else finally tid
        (retire_body out tid wid terminal stops (record w { retiring = tid ∷ w.retiring }))
