-- ===== src/App/Attached.antt =====
-- When `_reconcile_running` of flotilla/app.py attaches a worker again.
use ker_sor_monitor.Prelude.{
  ◌≡◌, refl, ap, ◌∙◌, String, Bool, true, false, Option, none, some, List, [], ◌∷◌, ◌==◌,
  Bool-cases, inl, inr, ◌⊎◌, sym, eq_iff, arith,
}
use mathlib.Core.Path.{subst}
use ker_sor_monitor.Prelude.Text.{join}
use ker_sor_monitor.Result.{Result, ok, err}
use ker_sor_monitor.State.{State, is_live}
use ker_sor_monitor.Models.{Task, Host}
use ker_sor_monitor.Runtime.Window.{window_name, legacy_window_name}
use ker_sor_monitor.Store.Db.{Db}
use ker_sor_monitor.Store.Workers.{active_worker_id}
use ker_sor_monitor.Store.Catalog.{get_host}
use ker_sor_monitor.World.{World, Outside, register}
use ker_sor_monitor.App.{
  Restart, Pane, unreachable, no_pane, pane, Search, found, gone, unknown, search_windows, appended,
  noted, mark_lost, handle_of, attach, searched, look, look_at, look_for, given_text, reattach,
  reconcile_task, unconfigured,
}
use ker_sor_monitor.Actuator.{retire}

-- The host that tmux is asked on: this one for a task with no target host, or else the ssh alias of
-- the row that the task's target host names.
abbrev pub IsOn : Db → Option String → Option String → Type 0
IsOn db none host = host ≡ none
IsOn db (some hid) host =
    ((hid ≡ "") × (host ≡ none))
    ⊎ ((h : Host) × (get_host db hid ≡ some h) × (host ≡ some h.ssh_alias))

-- The window of a task: its name, or its legacy name once tmux has shown no pane under the other.
abbrev pub IsWindow : Restart → Task → Option String → String → Type 0
IsWindow r t host window =
    (window ≡ window_name r.sha256 t.id)
    ⊎ ((window ≡ legacy_window_name t.id)
        × (r.find_pane host (join r.session (join ":" (window_name r.sha256 t.id))) ≡ no_pane))

-- The worker whose row is active has the handle of the task's window in which tmux has shown a pane.
pub record IsAttached (r : Restart) (t : Task) (w w' : World) : Type 0 where
  pub wid : String
  pub workspace : String
  pub host : Option String
  pub window : String
  pub at : String
  pub live : is_live t.state ≡ true
  pub by_tmux : (t.runtime == "claude_tmux") ≡ true
  pub in_workspace : t.workspace_path ≡ some workspace
  pub on_host : IsOn w.db t.target_host host
  pub of_task : IsWindow r t host window
  pub row : active_worker_id w.db t.id ≡ some wid
  pub shown : r.find_pane host (join r.session (join ":" window)) ≡ pane at
  pub attached : w' ≡ register t.id wid (handle_of r t workspace host window at) w

-- What is attached is attached so.
abbrev Attaches : Restart → Task → World → Result Bool × World → Type 0
Attaches r t w (ok true, w') = IsAttached r t w w'
Attaches r t w (ok false, w') = Unit
Attaches r t w (err e, w') = Unit

noted-Attaches :
    (out : Outside) (r : Restart) (t : Task) (w : World) (reason : String)
    (a : Result (Option State) × World)
    → Attaches r t w (noted out t.id reason a)
noted-Attaches out r t w reason (err e, v) = tt
noted-Attaches out r t w reason (ok none, v) = tt
noted-Attaches out r t w reason (ok (some s), v) = written _
  where
    written : (b : Result (Unit {0}) × Db) → Attaches r t w (appended v b)
    written (ok _, db) = tt
    written (err e, db) = tt

lost-Attaches :
    (out : Outside) (r : Restart) (t : Task) (w v : World) (wid : Option String) (reason : String)
    (stops : Bool)
    → Attaches r t w (mark_lost out t.id wid reason stops v)
unfolding mark_lost
lost-Attaches out r t w v wid reason stops =
    noted-Attaches out r t w reason (retire out t.id wid _ stops v)

-- The windows of a task, in the order in which they are searched.
abbrev windows : Restart → Task → List String
windows r t = window_name r.sha256 t.id ∷ legacy_window_name t.id ∷ []

-- A search that finds a window has been shown a pane in it, and it is a window of the task.
search_finds :
    (r : Restart) (t : Task) (host : Option String) (window p : String)
    → search_windows r host (windows r t) ≡ found window p
    → (r.find_pane host (join r.session (join ":" window)) ≡ pane p) × IsWindow r t host window
unfolding search_windows
search_finds r t host window p h =
    first (r.find_pane host (join r.session (join ":" (window_name r.sha256 t.id)))) refl
  where
    at_name :
        (x q : String)
        → r.find_pane host (join r.session (join ":" x)) ≡ pane q
        → found x q ≡ found window p
        → (r.find_pane host (join r.session (join ":" window)) ≡ pane p) × (window ≡ x)
    at_name x q e k =
        let here : x ≡ window = cc in
        let same : q ≡ p = cc in
        (
          subst (λ y. r.find_pane host (join r.session (join ":" y)) ≡ pane p) here
              (e ∙ ap pane same),
          sym here,
        )

    second :
        r.find_pane host (join r.session (join ":" (window_name r.sha256 t.id))) ≡ no_pane
        → (o : Pane) → r.find_pane host (join r.session (join ":" (legacy_window_name t.id))) ≡ o
        → (r.find_pane host (join r.session (join ":" window)) ≡ pane p) × IsWindow r t host window
    second miss unreachable e = cc (rw (miss, e) at h)
    second miss no_pane e = cc (rw (miss, e) at h)
    second miss (pane q) e =
        let (shown, named) = at_name (legacy_window_name t.id) q e (rw (miss, e) at h) in
        (shown, inr (named, miss))

    first :
        (o : Pane)
        → r.find_pane host (join r.session (join ":" (window_name r.sha256 t.id))) ≡ o
        → (r.find_pane host (join r.session (join ":" window)) ≡ pane p) × IsWindow r t host window
    first unreachable e = cc (rw e at h)
    first no_pane e =
        second e (r.find_pane host (join r.session (join ":" (legacy_window_name t.id)))) refl
    first (pane q) e =
        let (shown, named) = at_name (window_name r.sha256 t.id) q e (rw e at h) in
        (shown, inl named)

given_text-some : (o : Option String) (s : String) → given_text o ≡ some s → o ≡ some s
given_text-some none s h = cc
given_text-some (some x) s h = ground arith

given_text-none : (db : Db) (o : Option String) → given_text o ≡ none → IsOn db o none
given_text-none db none h = refl
given_text-none db (some x) h = elim (Bool-cases (x == "")) [
  | inl e ↦ inl ((eq_iff x "").0 e, refl)
  | inr e ↦ cc (rw e at h)
]

unbuilt-Attaches :
    (out : Outside) (r : Restart) (t : Task) (w : World) → Attaches r t w (reattach out r t w none)
unbuilt-Attaches out r t w =
    lost-Attaches out r t w w (active_worker_id w.db t.id)
      "runtime handle cannot be reconstructed after restart" false

module _ (out : Outside) (r : Restart) (t : Task) (w : World) (live : is_live t.state ≡ true)
    (by_tmux : (t.runtime == "claude_tmux") ≡ true) where
  searched-Attaches :
      (workspace : String) (host : Option String) (s : Search)
      → t.workspace_path ≡ some workspace
      → IsOn w.db t.target_host host
      → search_windows r host (windows r t) ≡ s
      → Attaches r t w (searched out r t workspace host w s)
  searched-Attaches workspace host unknown ws on e = tt
  searched-Attaches workspace host gone ws on e =
      lost-Attaches out r t w w (active_worker_id w.db t.id) "tmux window no longer exists" false
  searched-Attaches workspace host (found window p) ws on e = by (active_worker_id w.db t.id) refl
    where
      by :
          (o : Option String)
          → active_worker_id w.db t.id ≡ o
          → Attaches r t w (attach out t (handle_of r t workspace host window p) w o)
      by none row =
          lost-Attaches out r t w (register t.id "" (handle_of r t workspace host window p) w) none
            "active worker row is missing" true
      by (some wid) row = record {
        wid = wid;
        workspace = workspace;
        host = host;
        window = window;
        at = p;
        live = live;
        by_tmux = by_tmux;
        in_workspace = ws;
        on_host = on;
        of_task = (search_finds r t host window p e).1;
        row = row;
        shown = (search_finds r t host window p e).0;
        attached = refl;
      }

  look-Attaches :
      (workspace : String) (host : Option String)
      → t.workspace_path ≡ some workspace
      → IsOn w.db t.target_host host
      → Attaches r t w (look out r t workspace host w)
  look-Attaches workspace host ws on =
      searched-Attaches workspace host (search_windows r host (windows r t)) ws on refl

  look_at-Attaches :
      (workspace hid : String) (o : Option Host)
      → t.workspace_path ≡ some workspace
      → t.target_host ≡ some hid
      → get_host w.db hid ≡ o
      → Attaches r t w (look_at out r t workspace hid w o)
  look_at-Attaches workspace hid none ws target row =
      lost-Attaches out r t w w (active_worker_id w.db t.id) (unconfigured r hid) false
  look_at-Attaches workspace hid (some host) ws target row =
      look-Attaches workspace (some host.ssh_alias) ws
        (subst (λ o. IsOn w.db o (some host.ssh_alias)) (sym target) (inr (host, row, refl)))

  look_for-Attaches :
      (workspace : String) (o : Option String)
      → t.workspace_path ≡ some workspace
      → given_text t.target_host ≡ o
      → Attaches r t w (look_for out r t workspace w o)
  look_for-Attaches workspace none ws target =
      look-Attaches workspace none ws (given_text-none w.db t.target_host target)
  look_for-Attaches workspace (some hid) ws target =
      look_at-Attaches workspace hid (get_host w.db hid) ws
        (given_text-some t.target_host hid target) refl

  reattach-Attaches :
      (o : Option String) → given_text t.workspace_path ≡ o → Attaches r t w (reattach out r t w o)
  reattach-Attaches none ws = unbuilt-Attaches out r t w
  reattach-Attaches (some workspace) ws =
      look_for-Attaches workspace (given_text t.target_host)
        (given_text-some t.workspace_path workspace ws) refl

task-Attaches :
    (out : Outside) (r : Restart) (t : Task) (w : World) → Attaches r t w (reconcile_task out r t w)
unfolding reconcile_task
task-Attaches out r t w = elim (Bool-cases (is_live t.state)) [
  | inr e ↦ rw e tt
  | inl e ↦ rw e (elim (Bool-cases (t.runtime == "claude_tmux")) [
    | inl tmux ↦ rw tmux (reattach-Attaches out r t w e tmux (given_text t.workspace_path) refl)
    | inr other ↦ rw other (unbuilt-Attaches out r t w)
  ])
]

-- A task that a restart counts as attached is live, runs in tmux and has an active worker row. Its handle,
-- for its workspace and for the pane that tmux has shown in its window, under the legacy name only where
-- there is no pane under the other, is registered for that worker, and tmux was asked on the host that the
-- task's target host names, or on this one if it names none. Nothing else has changed.
pub reconcile_task-IsAttached :
    (out : Outside) (r : Restart) (t : Task) (w w' : World)
    → reconcile_task out r t w ≡ (ok true, w')
    → IsAttached r t w w'
reconcile_task-IsAttached out r t w w' h = subst (Attaches r t w) h (task-Attaches out r t w)
