-- ===== src/Scheduler/Resolve.antt =====
-- `_resolve_dispatch` of flotilla/scheduler.py: the adapter, the workspace and the resource of one
-- claimed task. The resource comes last.
use ker_sor_monitor.Prelude.{
  ℕ, String, Bool, false, not, ◌&&◌, Option, none, some, ◌==◌, if◌then◌else◌,
}
use ker_sor_monitor.Prelude.Text.{join}
use ker_sor_monitor.Result.{Result, ok, err, ◌>>=◌, value_error}
use ker_sor_monitor.Json.{Value, str, get, truthy}
use ker_sor_monitor.Models.{Task, Host}
use ker_sor_monitor.Runtime.{WorkerHandle, Adapter, get_adapter, supports_remote}
use ker_sor_monitor.Resource.{Resources, Kind, Lock, get_kind, acquire}
use ker_sor_monitor.Store.Db.{Db}
use ker_sor_monitor.Store.Catalog.{get_host}
use ker_sor_monitor.World.{World}

-- The settings, and what the operating system and the runtimes answer to a start.
pub record Launch : Type 0 where
  pub max_workers : ℕ
  -- `workspaces_root`
  pub root : String
  -- `f"w_{task.id}_{uuid4().hex[:12]}"`
  pub worker_id : Task → String
  -- whether `flock` takes the lock without blocking, and the descriptor of the file
  pub flock : Task → Bool × ℕ
  -- `rt.start(…)`
  pub start : Adapter → Task → String → Option String → Option Lock → Result WorkerHandle

pub record Prepared : Type 0 where
  pub task : Task
  pub worker_id : String
  pub rt : Adapter
  pub ws_path : String
  pub ssh_host : Option String
  pub lock : Option Lock

abbrev pub is_str : String → Value → Bool
is_str s (str t) = t == s
is_str s _ = false

-- `resource.get(rkind) if rkind else None`
abbrev pub resource_adapter : Value → Result (Option Kind)
resource_adapter rkind = if truthy rkind then (get_kind rkind >>= λ k. ok (some k)) else ok none

abbrev ws_name : Task → String
ws_name task = join "/ws_" task.id

abbrev on_host : Task → Option Host → Result (String × Option String)
on_host task none = err value_error
on_host task (some host) = ok (join host.remote_root (ws_name task), some host.ssh_alias)

abbrev pub at_host : Launch → Db → Task → Option String → Result (String × Option String)
at_host l db task none = ok (join l.root (ws_name task), none)
at_host l db task (some hid) =
    if hid == "" then ok (join l.root (ws_name task), none) else on_host task (get_host db hid)

-- `ws_path` and `ssh_host`
unfoldable pub place : Launch → Db → Task → Result (String × Option String)
place l db task = at_host l db task task.target_host

abbrev pub has_host : Option String → Bool
has_host none = false
has_host (some alias) = not (alias == "")

-- All that is checked before the resource is acquired.
unfoldable pub checked :
    Launch → Db → Task → Result (Adapter × Option Kind × String × Option String)
unfolding place
checked l db task = get_adapter task.runtime >>= λ rt.
    if is_str "gpu" (get "kind" task.resource_req) && not (truthy (get "uuid" task.resource_req))
    then err value_error
    else (resource_adapter (get "kind" task.resource_req) >>= λ kind. place l db task >>= λ at.
        if has_host at.1 && not (supports_remote rt)
        then err value_error
        else ok (rt, kind, at.0, at.1))

abbrev ready : Launch → Task → Adapter → String → Option String → Option Lock → Prepared
ready l task rt ws_path ssh_host lock = record {
  task = task;
  worker_id = l.worker_id task;
  rt = rt;
  ws_path = ws_path;
  ssh_host = ssh_host;
  lock = lock;
}

-- `if rkind and lock is None: return None`
abbrev pub locked :
    Launch
    → Task
    → Adapter
    → String
    → Option String
    → World
    → Result (Option Lock × Resources)
    → Result (Option Prepared) × World
locked l task rt ws_path ssh_host w (err e) = (err e, w)
locked l task rt ws_path ssh_host w (ok (none, r)) = (ok none, record w { resources = r })
locked l task rt ws_path ssh_host w (ok (some lock, r)) =
    (ok (some (ready l task rt ws_path ssh_host (some lock))), record w { resources = r })

abbrev pub acquiring :
    Launch
    → Task
    → World
    → Result (Adapter × Option Kind × String × Option String)
    → Result (Option Prepared) × World
acquiring l task w (err e) = (err e, w)
acquiring l task w (ok (rt, none, ws_path, ssh_host)) =
    (ok (some (ready l task rt ws_path ssh_host none)), w)
acquiring l task w (ok (rt, some kind, ws_path, ssh_host)) = locked l task rt ws_path ssh_host w (
    acquire kind (l.worker_id task) task.resource_req (l.flock task).0 (l.flock task).1 w.resources)

-- `_resolve_dispatch`
unfoldable pub resolve_dispatch : Launch → Task → World → Result (Option Prepared) × World
unfolding checked
resolve_dispatch l task w = acquiring l task w (checked l w.db task)
