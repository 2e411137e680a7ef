-- ===== src/World.antt =====
-- The state of one control-plane process: the database, the handle registry and the retirements in
-- progress of flotilla/actuator.py, and the resource adapters. What lies outside the repository
-- (processes, file system, clock, other threads) answers through `Outside`.
use ker_sor_monitor.Prelude.{ℕ, String, Bool, Option, List, [], ◌∷◌, ◌++◌, ◌==◌, if◌then◌else◌}
use ker_sor_monitor.Prelude.Rows.{has, find, update, delete}
use ker_sor_monitor.Result.{Error, Result}
use ker_sor_monitor.Models.{Task}
use ker_sor_monitor.Runtime.{WorkerHandle, Observation, Adapter}
use ker_sor_monitor.Json.{Value, Dict, Float}
use ker_sor_monitor.Prelude.Int.{ℤ}
use ker_sor_monitor.Resource.{Resources}
use ker_sor_monitor.Evaluator.{EvalResult}
use ker_sor_monitor.Store.Db.{Db}

-- An entry of `_HANDLES`.
pub record Registered : Type 0 where
  pub task_id : String
  pub worker_id : String
  pub handle : WorkerHandle

pub record World : Type 0 where
  pub db : Db
  pub handles : List Registered
  pub retiring : List String
  pub resources : Resources

-- What there is to see of a worker.
pub record Seen : Type 0 where
  -- `rt.observe(handle)`
  pub observed : Result Observation
  -- the dict of the workspace's status.json, empty where there is none that can be read
  pub status : Dict
  -- the number of files candidates/*.py
  pub candidates : ℕ
  -- `rt.mine_session_uuid(handle)`
  pub mined : Result (Option String)
  -- `_session_activity(workspace, uuid)`
  pub activity : String → Option Dict

pub record Outside : Type 0 where
  -- what `_now()` returns
  pub now : String
  -- `SETTINGS.status_event_retention`
  pub retention : ℕ
  -- `str(exc)`
  pub message : Error → String
  -- `adapter.stop(handle)`
  pub stop : WorkerHandle → Result (Unit {0})
  -- `rt.paste(handle, text)`
  pub paste : WorkerHandle → Value → Result (Unit {0})
  -- `getattr(rt, action, None)`, where it can be called
  pub control : Adapter → String → Option (WorkerHandle → Result (Unit {0}))
  -- `Path(workspace).is_dir()`
  pub is_dir : String → Bool
  -- `adapter.evaluate(task, workspace)`
  pub evaluate : Task → String → Result EvalResult
  pub see : WorkerHandle → Seen
  -- `float(n)`, with None for OverflowError
  pub float_of : ℤ → Option Float
  -- what other threads and processes commit while this one waits outside a transaction
  pub others : Db → Db

-- `_HANDLES[task_id] = (worker_id, handle)`
unfoldable pub register : String → String → WorkerHandle → World → World
register tid wid h w = record w {
  handles =
      if has Registered.task_id tid w.handles
      then update (λ r. r.task_id == tid)
          (λ _. record { task_id = tid; worker_id = wid; handle = h }) w.handles
      else w.handles ++ record { task_id = tid; worker_id = wid; handle = h } ∷ [];
}

-- `_HANDLES.pop(task_id, None)`
unfoldable pub unregister : String → World → World
unregister tid w = record w { handles = delete (λ r. r.task_id == tid) w.handles }

unfoldable pub running_handle : World → String → Option Registered
running_handle w tid = find Registered.task_id tid w.handles

-- `handles_snapshot`
unfoldable pub handles_snapshot : World → List Registered
handles_snapshot w = w.handles
