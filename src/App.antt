-- ===== src/App.antt =====
-- `_reconcile_running` of flotilla/app.py: after a restart, workers in tmux windows are found again
-- and the others are given up.
pub mod Attached
use ker_sor_monitor.Prelude.{
  ℕ, ◌+◌, String, Bool, true, false, not, Option, none, some, List, [], ◌∷◌, ◌==◌, if◌then◌else◌,
}
use ker_sor_monitor.Prelude.Text.{join}
use ker_sor_monitor.Result.{Result, ok, err}
use ker_sor_monitor.State.{State, is_live, lost}
use ker_sor_monitor.Json.{null, str, opt_str}
use ker_sor_monitor.Models.{Task, Host, Event}
use ker_sor_monitor.Runtime.{WorkerHandle, fields}
use ker_sor_monitor.Runtime.Window.{window_name, legacy_window_name}
use ker_sor_monitor.Store.Db.{Db, connection}
use ker_sor_monitor.Store.Tasks.{all_tasks}
use ker_sor_monitor.Store.Workers.{active_worker_id}
use ker_sor_monitor.Store.Catalog.{get_host}
use ker_sor_monitor.Store.Events.{append_event}
use ker_sor_monitor.World.{World, Outside, register}
use ker_sor_monitor.Actuator.{retire, event}

-- What `find_pane` learns of a window.
pub data Pane : Type 0 where
  unreachable no_pane : Pane
  pane : String → Pane

pub record Restart : Type 0 where
  -- `SETTINGS.tmux_session`
  pub session : String
  pub sha256 : String → String
  -- `repr(s)`, of a text
  pub repr : String → String
  -- `find_pane(host, target)`
  pub find_pane : Option String → String → Pane

-- The loop over the names of a window, with the window that was found.
pub data Search : Type 0 where
  unknown gone : Search
  found : String → String → Search

abbrev pub tried : String → Search → Pane → Search
tried window rest unreachable = unknown
tried window rest no_pane = rest
tried window rest (pane p) = found window p

unfoldable pub search_windows : Restart → Option String → List String → Search
search_windows r host [] = gone
search_windows r host (window ∷ windows) =
    let rest = search_windows r host windows in
    tried window rest (r.find_pane host (join r.session (join ":" window)))

abbrev pub reason_event : Outside → String → String → Event
reason_event out tid reason = event out tid "reconcile_lost" (("reason", str reason) ∷ [])

abbrev pub appended : World → Result (Unit {0}) × Db → Result Bool × World
appended w (ok _, db) = (ok false, record w { db = db })
appended w (err e, db) = (err e, record w { db = db })

abbrev pub noted : Outside → String → String → Result (Option State) × World → Result Bool × World
noted out tid reason (err e, w) = (err e, w)
noted out tid reason (ok none, w) = (ok false, w)
noted out tid reason (ok (some s), w) =
    appended w (connection (append_event out.retention (reason_event out tid reason)) w.db)

-- `mark_lost`; the Boolean says that no worker has been attached.
unfoldable pub mark_lost :
    Outside → String → Option String → String → Bool → World → Result Bool × World
mark_lost out tid wid reason stops w = noted out tid reason (retire out tid wid (some lost) stops w)

abbrev pub handle_of : Restart → Task → String → Option String → String → String → WorkerHandle
handle_of r t workspace host window p = record {
  task_id = t.id;
  workspace = workspace;
  backend = "claude_tmux";
  handle = fields (
      ("host", opt_str host)
      ∷ ("session", str r.session)
      ∷ ("window", str window)
      ∷ ("pane", str p)
      ∷ ("session_uuid", null)
      ∷ ("cwd", str workspace)
      ∷ []);
}

abbrev pub attach : Outside → Task → WorkerHandle → World → Option String → Result Bool × World
attach out t handle w none =
    mark_lost out t.id none "active worker row is missing" true (register t.id "" handle w)
attach out t handle w (some wid) = (ok true, register t.id wid handle w)

abbrev pub searched :
    Outside → Restart → Task → String → Option String → World → Search → Result Bool × World
searched out r t workspace host w unknown = (ok false, w)
searched out r t workspace host w gone =
    mark_lost out t.id (active_worker_id w.db t.id) "tmux window no longer exists" false w
searched out r t workspace host w (found window p) =
    attach out t (handle_of r t workspace host window p) w (active_worker_id w.db t.id)

abbrev pub look : Outside → Restart → Task → String → Option String → World → Result Bool × World
look out r t workspace host w =
    searched out r t workspace host w
      (search_windows r host (window_name r.sha256 t.id ∷ legacy_window_name t.id ∷ []))

abbrev pub unconfigured : Restart → String → String
unconfigured r hid = join "target host " (join (r.repr hid) " is not configured")

abbrev pub look_at :
    Outside → Restart → Task → String → String → World → Option Host → Result Bool × World
look_at out r t workspace hid w none =
    mark_lost out t.id (active_worker_id w.db t.id) (unconfigured r hid) false w
look_at out r t workspace hid w (some host) = look out r t workspace (some host.ssh_alias) w

abbrev pub given_text : Option String → Option String
given_text none = none
given_text (some s) = if s == "" then none else some s

abbrev pub look_for :
    Outside → Restart → Task → String → World → Option String → Result Bool × World
look_for out r t workspace w none = look out r t workspace none w
look_for out r t workspace w (some hid) = look_at out r t workspace hid w (get_host w.db hid)

abbrev pub reattach : Outside → Restart → Task → World → Option String → Result Bool × World
reattach out r t w none =
    mark_lost out t.id (active_worker_id w.db t.id)
      "runtime handle cannot be reconstructed after restart" false w
reattach out r t w (some workspace) = look_for out r t workspace w (given_text t.target_host)

-- One round of the loop: whether a worker has been attached.
unfoldable pub reconcile_task : Outside → Restart → Task → World → Result Bool × World
unfolding mark_lost search_windows
reconcile_task out r t w =
    if not (is_live t.state)
    then (ok false, w)
    else reattach out r t w
        (if t.runtime == "claude_tmux" then given_text t.workspace_path else none)

abbrev pub counted : Bool → Result ℕ × World → Result ℕ × World
counted true (ok n, w) = (ok (n + 1), w)
counted false (ok n, w) = (ok n, w)
counted b (err e, w) = (err e, w)

abbrev pub and_then : (World → Result ℕ × World) → Result Bool × World → Result ℕ × World
and_then next (err e, w) = (err e, w)
and_then next (ok b, w) = counted b (next w)

unfoldable pub reconcile_each : Outside → Restart → List Task → World → Result ℕ × World
unfolding reconcile_task
reconcile_each out r [] w = (ok 0, w)
reconcile_each out r (t ∷ ts) w = and_then (reconcile_each out r ts) (reconcile_task out r t w)

-- `_reconcile_running`
unfoldable pub reconcile_running : Outside → Restart → World → Result ℕ × World
unfolding reconcile_each
reconcile_running out r w = reconcile_each out r (all_tasks w.db) w
