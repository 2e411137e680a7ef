-- ===== src/Tests/Systems.antt =====
-- The theorems on the control plane as a whole, at sample data.
use ker_sor_monitor.Prelude.{refl, true, some, List, [], ◌∷◌, true, ◌≡◌, none}
use ker_sor_monitor.State.{done, running, cancelled}
use ker_sor_monitor.Prelude.Rows.{find}
use ker_sor_monitor.Store.Lifecycle.{Lasts-refl}
use ker_sor_monitor.System.Lasting.{StandsFrom, run-StandsFrom}
use ker_sor_monitor.Store.Integrity.{IsWellFormed}
use ker_sor_monitor.World.{Outside, World, register}
use ker_sor_monitor.System.Histories.{Operation, run, run-IsWellFormed}
use ker_sor_monitor.Tests.Samples.{fair, world, launch, live, db}
use ker_sor_monitor.Tests.Stores.{db-IsWellFormed}
use ker_sor_monitor.Result.{ok}
use ker_sor_monitor.Models.{Task}
use ker_sor_monitor.App.Attached.{IsAttached, reconcile_task-IsAttached}
use ker_sor_monitor.App.{Restart, reconcile_task, pane, handle_of}
use ker_sor_monitor.Runtime.Window.{window_name}

abbrev day : List (Outside × Operation)
day =
    (fair, Operation.tick launch (λ ps. ps))
    ∷ (fair, Operation.observe_running)
    ∷ (fair, Operation.retire "c" (some "w_c") (some done) true)
    ∷ []

run-IsWellFormed_example : IsWellFormed (run day world).db
run-IsWellFormed_example =
    run-IsWellFormed day world (λ d h. h, (λ d h. h, (λ d h. h, tt))) db-IsWellFormed

run-StandsFrom_example : StandsFrom "c" running (run day world).db
unfolding find
run-StandsFrom_example =
    run-StandsFrom "c" day world live refl (
      λ d. Lasts-refl d.tasks,
      tt,
      (λ d. Lasts-refl d.tasks, tt, (λ d. Lasts-refl d.tasks, tt, tt)),
    )

-- The same world, with the task cancelled.
abbrev cancelled_task : Task
cancelled_task = record live { state = cancelled }

abbrev ended_world : World
ended_world = record world { db = record db { tasks = cancelled_task ∷ [] } }

abbrev tmux_task : Task
tmux_task = record live { runtime = "claude_tmux" }

abbrev restart : Restart
restart = record {
  session = "flotilla";
  sha256 = λ s. "0123456789abcdef";
  repr = λ s. s;
  find_pane = λ h target. pane "%3";
}

abbrev attached : World
attached =
    register "c" "w_c"
      (handle_of restart tmux_task "/ws" none (window_name restart.sha256 "c") "%3") world

reattached : reconcile_task fair restart tmux_task world ≡ (ok true, attached)
unfolding reconcile_task ker_sor_monitor.Store.Workers.active_worker_id
    ker_sor_monitor.Prelude.Sort.order_by
reattached = refl

reconcile_task-IsAttached_example : IsAttached restart tmux_task world attached
reconcile_task-IsAttached_example =
    reconcile_task-IsAttached fair restart tmux_task world attached reattached
