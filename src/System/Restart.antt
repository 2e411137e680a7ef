-- ===== src/System/Restart.antt =====
-- What `_reconcile_running` of flotilla/app.py does to the database.
use ker_sor_monitor.Prelude.{
  String, ℕ, Bool, true, false, not, Option, none, some, List, [], ◌∷◌, Bool-cases, inl, inr,
  if◌then◌else◌, ◌==◌,
}
use ker_sor_monitor.Result.{Result, ok, err}
use ker_sor_monitor.State.{State, is_live, lost}
use ker_sor_monitor.Models.{Task, Host}
use ker_sor_monitor.Runtime.{WorkerHandle}
use ker_sor_monitor.Runtime.Window.{window_name, legacy_window_name}
use ker_sor_monitor.Store.Db.{Db, connection}
use ker_sor_monitor.Store.Tasks.{all_tasks}
use ker_sor_monitor.Store.Workers.{active_worker_id}
use ker_sor_monitor.Store.Catalog.{get_host}
use ker_sor_monitor.Store.Events.{append_event}
use ker_sor_monitor.Store.Commands.{Command, execute}
use ker_sor_monitor.World.{World, Outside, register}
use ker_sor_monitor.Actuator.{retire}
use ker_sor_monitor.App.{
  Restart, Search, found, gone, unknown, search_windows, reason_event, appended, noted, mark_lost,
  handle_of, attach, searched, look, look_at, unconfigured, given_text, look_for, reattach,
  reconcile_task, counted, and_then, reconcile_each, reconcile_running,
}
use ker_sor_monitor.System.Evolves.{Evolves-command}
use ker_sor_monitor.System.Actuation.{Steps, Steps-refl, Steps-trans, retire-Steps}

module _ (out : Outside) where
  appended-Steps :
      (w v : World) (r : Result (Unit {0}) × Db)
      → Steps out w (record v { db = r.1 })
      → Steps out w (appended v r).1
  appended-Steps w v (ok _, db) h = h
  appended-Steps w v (err e, db) h = h

  noted-Steps :
      (tid reason : String) (w : World) (r : Result (Option State) × World)
      → Steps out w r.1
      → Steps out w (noted out tid reason r).1
  unfolding execute
  noted-Steps tid reason w (err e, v) h = h
  noted-Steps tid reason w (ok none, v) h = h
  noted-Steps tid reason w (ok (some s), v) h =
      let e = reason_event out tid reason in
      let r = connection (append_event out.retention e) v.db in
      appended-Steps w v r (
        Steps-trans out w v (record v { db = r.1 }) h
          (Evolves-command out.others (Command.append_event out.retention e) tt v.db))

  lost-Steps :
      (tid : String) (wid : Option String) (reason : String) (stops : Bool) (w : World)
      → Steps out w (mark_lost out tid wid reason stops w).1
  unfolding mark_lost
  lost-Steps tid wid reason stops w =
      noted-Steps tid reason w (retire out tid wid (some lost) stops w)
        (retire-Steps out tid wid (some lost) stops w)

  attach-Steps :
      (t : Task) (h : WorkerHandle) (w : World) (o : Option String)
      → Steps out w (attach out t h w o).1
  unfolding register
  attach-Steps t h w none =
      lost-Steps t.id none "active worker row is missing" true (register t.id "" h w)
  attach-Steps t h w (some wid) = Steps-refl out w

  searched-Steps :
      (r : Restart) (t : Task) (workspace : String) (host : Option String) (w : World) (s : Search)
      → Steps out w (searched out r t workspace host w s).1
  searched-Steps r t workspace host w unknown = Steps-refl out w
  searched-Steps r t workspace host w gone =
      lost-Steps t.id (active_worker_id w.db t.id) "tmux window no longer exists" false w
  searched-Steps r t workspace host w (found window p) =
      attach-Steps t (handle_of r t workspace host window p) w (active_worker_id w.db t.id)

  look-Steps :
      (r : Restart) (t : Task) (workspace : String) (host : Option String) (w : World)
      → Steps out w (look out r t workspace host w).1
  look-Steps r t workspace host w =
      searched-Steps r t workspace host w
        (search_windows r host (window_name r.sha256 t.id ∷ legacy_window_name t.id ∷ []))

  look_at-Steps :
      (r : Restart) (t : Task) (workspace hid : String) (w : World) (o : Option Host)
      → Steps out w (look_at out r t workspace hid w o).1
  look_at-Steps r t workspace hid w none =
      lost-Steps t.id (active_worker_id w.db t.id) (unconfigured r hid) false w
  look_at-Steps r t workspace hid w (some host) = look-Steps r t workspace (some host.ssh_alias) w

  look_for-Steps :
      (r : Restart) (t : Task) (workspace : String) (w : World) (o : Option String)
      → Steps out w (look_for out r t workspace w o).1
  look_for-Steps r t workspace w none = look-Steps r t workspace none w
  look_for-Steps r t workspace w (some hid) = look_at-Steps r t workspace hid w (get_host w.db hid)

  reattach-Steps :
      (r : Restart) (t : Task) (w : World) (o : Option String)
      → Steps out w (reattach out r t w o).1
  reattach-Steps r t w none =
      lost-Steps t.id (active_worker_id w.db t.id)
        "runtime handle cannot be reconstructed after restart" false w
  reattach-Steps r t w (some workspace) = look_for-Steps r t workspace w (given_text t.target_host)

  task-Steps : (r : Restart) (t : Task) (w : World) → Steps out w (reconcile_task out r t w).1
  unfolding reconcile_task
  task-Steps r t w = elim (Bool-cases (not (is_live t.state))) [
    | inl e ↦ rw e (Steps-refl out w)
    | inr e ↦ rw e (
        reattach-Steps r t w
          (if t.runtime == "claude_tmux" then given_text t.workspace_path else none))
  ]

  counted-Steps :
      (b : Bool) (w : World) (r : Result ℕ × World) → Steps out w r.1 → Steps out w (counted b r).1
  counted-Steps true w (ok n, v) h = h
  counted-Steps false w (ok n, v) h = h
  counted-Steps true w (err e, v) h = h
  counted-Steps false w (err e, v) h = h

  and_then-Steps :
      (next : World → Result ℕ × World) (w : World) (r : Result Bool × World)
      → ((v : World) → Steps out v (next v).1)
      → Steps out w r.1
      → Steps out w (and_then next r).1
  and_then-Steps next w (err e, v) f h = h
  and_then-Steps next w (ok b, v) f h =
      counted-Steps b w (next v) (Steps-trans out w v (next v).1 h (f v))

  each-Steps :
      (r : Restart) (ts : List Task) (w : World) → Steps out w (reconcile_each out r ts w).1
  unfolding reconcile_each
  each-Steps r [] w = Steps-refl out w
  each-Steps r (t ∷ ts) w =
      and_then-Steps (reconcile_each out r ts) w (reconcile_task out r t w) (each-Steps r ts)
        (task-Steps r t w)

  pub reconcile-Steps : (r : Restart) (w : World) → Steps out w (reconcile_running out r w).1
  unfolding reconcile_running
  reconcile-Steps r w = each-Steps r (all_tasks w.db) w
