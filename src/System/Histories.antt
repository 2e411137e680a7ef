-- ===== src/System/Histories.antt =====
-- The operations of the control plane and their histories: what the loops of flotilla/app.py and
-- the handlers of flotilla/routes.py call, one after the other in one process, while other threads
-- and processes commit in between.
use ker_sor_monitor.Prelude.{ℕ, String, Bool, Option, List, [], ◌∷◌, inl, inr}
use mathlib.Core.Path.{subst, sym}
use ker_sor_monitor.State.{State}
use ker_sor_monitor.Json.{Dict}
use ker_sor_monitor.Models.{Project, Host, Template, TemplateCreate, TaskCreate, WorkerPing}
use ker_sor_monitor.Store.Db.{Db}
use ker_sor_monitor.Store.Commands.{Command, execute}
use ker_sor_monitor.Store.Integrity.{IsWellFormed}
use ker_sor_monitor.Store.Integrity.History.{execute-IsWellFormed}
use ker_sor_monitor.Store.Integrity.Deletes.{delete_task-IsWellFormed}
use ker_sor_monitor.World.{World, Outside}
use ker_sor_monitor.Actuator
use ker_sor_monitor.Observer.Patrol
use ker_sor_monitor.Scheduler
use ker_sor_monitor.Scheduler.Resolve.{Launch, Prepared}
use ker_sor_monitor.Routes.Control
use ker_sor_monitor.Routes.Ping
use ker_sor_monitor.Routes.Remove
use ker_sor_monitor.Routes.Create
use ker_sor_monitor.Routes.Create.{Policy}
use ker_sor_monitor.Routes.Entries
use ker_sor_monitor.Routes.Entries.{seed_templates}
use ker_sor_monitor.App
use ker_sor_monitor.App.{Restart}
use ker_sor_monitor.System.Evolves.{Evolves, stays, commits, others_commit, Evolves-command}
use ker_sor_monitor.System.Actuation.{Steps, retire-Steps}
use ker_sor_monitor.System.Observation.{observe_running-Steps}
use ker_sor_monitor.System.Scheduling.{tick-Steps}
use ker_sor_monitor.System.Handlers.{
  post_actuate-Steps, ping-Steps, Removes, remove_task-Removes, post_tasks-Evolves,
  post_project-Evolves, post_host-Evolves, remove_host-Evolves, post_template-Evolves,
  remove_template-Evolves, seed-Evolves,
}
use ker_sor_monitor.System.Restart.{reconcile-Steps}

pub data Operation : Type 0 where
  -- the loops
  tick : Launch → (List Prepared → List Prepared) → Operation
  observe_running : Operation
  mark_stale : String → Operation
  -- the start
  seed : List Template → Operation
  reconcile_running : Restart → Operation
  -- the handlers
  post_project : (Project → Project → Bool) → Project → Operation
  post_tasks : Policy → String → List TaskCreate → Operation
  remove_task : String → Operation
  post_actuate : (Dict → ℕ) → String → Dict → Operation
  worker_ping : String → Option String → WorkerPing → Operation
  post_host : Host → Operation
  remove_host : String → Operation
  post_template : TemplateCreate → Operation
  remove_template : String → Operation
  -- a call of `retire` by itself
  retire : String → Option String → Option State → Bool → Operation

abbrev on_db : World → Db → World
on_db w db = record w { db = db }

-- The world after an operation, whether it returned or raised.
unfoldable pub perform : Outside → Operation → World → World
unfolding execute
perform out (tick l completion) w = (Scheduler.tick out l completion w).1
perform out observe_running w = (Patrol.observe_running out w).1
perform out (mark_stale cutoff) w =
    on_db w (execute (Command.mark_stale_dispatching_lost out.now cutoff) w.db)
perform out (seed ts) w = on_db w (seed_templates ts w.db)
perform out (reconcile_running r) w = (App.reconcile_running out r w).1
perform out (post_project same p) w = on_db w (Entries.post_project same p w.db).1
perform out (post_tasks policy pid items) w =
    on_db w (Create.post_tasks policy out.now out.others pid items w.db).1
perform out (remove_task tid) w = (Remove.remove_task out tid w).1
perform out (post_actuate json_length tid body) w =
    (Control.post_actuate out json_length tid body w).1
perform out (worker_ping token header b) w = (Ping.worker_ping out token header b w).1
perform out (post_host h) w = on_db w (Entries.post_host h w.db).1
perform out (remove_host hid) w = on_db w (Entries.remove_host hid w.db).1
perform out (post_template t) w = on_db w (Entries.post_template out.now t w.db).1
perform out (remove_template tid) w = on_db w (Entries.remove_template tid w.db).1
perform out (retire tid wid terminal stops) w = (Actuator.retire out tid wid terminal stops w).1

-- Each operation meets an outside of its own.
unfoldable pub run : List (Outside × Operation) → World → World
unfolding perform
run [] w = w
run ((out, op) ∷ more) w = run more (perform out op w)

-- What an operation may do: whole transactions of `Store` that delete no task, and the commits of others
-- between them; only the removal of a task deletes, and only that task, at its end.
abbrev pub Performs : Outside → Operation → World → World → Type 0
Performs out (remove_task tid) w w' = Removes out tid w w'
Performs out _ w w' = Steps out w w'

pub perform-Performs :
    (out : Outside) (op : Operation) (w : World) → Performs out op w (perform out op w)
unfolding perform
perform-Performs out (tick l completion) w = tick-Steps out l completion w
perform-Performs out observe_running w = observe_running-Steps out w
perform-Performs out (mark_stale cutoff) w =
    Evolves-command out.others (Command.mark_stale_dispatching_lost out.now cutoff) tt w.db
perform-Performs out (seed ts) w = seed-Evolves out.others ts w.db
perform-Performs out (reconcile_running r) w = reconcile-Steps out r w
perform-Performs out (post_project same p) w = post_project-Evolves out.others same p w.db
perform-Performs out (post_tasks policy pid items) w =
    post_tasks-Evolves out.others policy out.now pid items w.db
perform-Performs out (remove_task tid) w = remove_task-Removes out tid w
perform-Performs out (post_actuate json_length tid body) w =
    post_actuate-Steps out json_length tid body w
perform-Performs out (worker_ping token header b) w = ping-Steps out token header b w
perform-Performs out (post_host h) w = post_host-Evolves out.others h w.db
perform-Performs out (remove_host hid) w = remove_host-Evolves out.others hid w.db
perform-Performs out (post_template t) w = post_template-Evolves out.others out.now t w.db
perform-Performs out (remove_template tid) w = remove_template-Evolves out.others tid w.db
perform-Performs out (retire tid wid terminal stops) w = retire-Steps out tid wid terminal stops w

-- Others keep the keys.
abbrev pub IsCareful : Outside → Type 0
IsCareful out = (db : Db) → IsWellFormed db → IsWellFormed (out.others db)

Evolves-IsWellFormed :
    (out : Outside) (a b : Db)
    → IsCareful out
    → Evolves out.others a b
    → IsWellFormed a
    → IsWellFormed b
Evolves-IsWellFormed out a b careful (stays e) h = subst IsWellFormed e h
Evolves-IsWellFormed out a b careful (commits c kept g) h =
    Evolves-IsWellFormed out (execute c a) b careful g (execute-IsWellFormed c a h)
Evolves-IsWellFormed out a b careful (others_commit g) h =
    Evolves-IsWellFormed out (out.others a) b careful g (careful a h)

Performs-IsWellFormed :
    (out : Outside) (op : Operation) (w w' : World)
    → IsCareful out
    → Performs out op w w'
    → IsWellFormed w.db
    → IsWellFormed w'.db
Performs-IsWellFormed out (remove_task tid) w w' careful (v, steps, inl e) h =
    subst IsWellFormed (sym e) (Evolves-IsWellFormed out w.db v.db careful steps h)
Performs-IsWellFormed out (remove_task tid) w w' careful (v, steps, inr e) h =
    subst IsWellFormed (sym e)
      (delete_task-IsWellFormed tid v.db (Evolves-IsWellFormed out w.db v.db careful steps h))
Performs-IsWellFormed out _ w w' careful steps h =
    Evolves-IsWellFormed out w.db w'.db careful steps h

abbrev pub AllCareful : List (Outside × Operation) → Type 0
AllCareful [] = Unit {0}
AllCareful ((out, op) ∷ more) = IsCareful out × AllCareful more

-- After any history of operations the primary keys are unique, the foreign keys resolved and the event
-- ids ascending, if they were before it and if what others commit in between keeps them so.
pub run-IsWellFormed :
    (ops : List (Outside × Operation)) (w : World)
    → AllCareful ops
    → IsWellFormed w.db
    → IsWellFormed (run ops w).db
unfolding run
run-IsWellFormed [] w careful h = h
run-IsWellFormed ((out, op) ∷ more) w careful h =
    run-IsWellFormed more (perform out op w) careful.1
      (Performs-IsWellFormed out op w (perform out op w) careful.0 (perform-Performs out op w) h)
