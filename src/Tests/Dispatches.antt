-- ===== src/Tests/Dispatches.antt =====
-- The theorems on dispatching, steering and requests at sample data.
use ker_sor_monitor.Prelude.{
  ℕ, zero, suc, ◌+◌, ◌-◌, ◌*◌, ◌^◌, ◌≤◌, ◌<◌, min, max, String, ◌≡◌, refl, sym, ap, ◌∙◌, ◌≢◌, ◌↔◌,
  ◌⊎◌, inl, inr, Bool, true, false, not, ◌&&◌, ◌||◌, Option, none, some, List, [], ◌∷◌, ◌++◌, map,
  foldl, arith, ◌==◌, eq_iff, eq_refl, ltb, leb, nat_beq, if◌then◌else◌, Bool-cases, Option-cases,
  is_some, or_else, length, take, drop, count_if, filter_if, any_of, All,
}
use ker_sor_monitor.Result.{ok, err, is_ok, illegal_transition}
use ker_sor_monitor.State.{stuck, queued, paused}
use ker_sor_monitor.Json.{str}
use ker_sor_monitor.Models.{Task, Worker}
use ker_sor_monitor.Store.Db.{Db}
use ker_sor_monitor.Store.Tasks.{activate_worker}
use ker_sor_monitor.Store.Tasks.Activate.{Activated, activate_worker-Activated}
use ker_sor_monitor.World.{World, Registered}
use ker_sor_monitor.Actuator.{retire}
use ker_sor_monitor.Actuator.Stall.{paused_stall_raises, unlive_stall_reports}
use ker_sor_monitor.Actuator.Steer.{actuate}
use ker_sor_monitor.Actuator.Stop.{IsOver, stop_ends}
use ker_sor_monitor.Scheduler.Resolve.{resolve_dispatch}
use ker_sor_monitor.Scheduler.Acquire.{IsUntouched, resolve_dispatch-IsUntouched}
use ker_sor_monitor.Scheduler.Dispatch.{dispatch_one}
use ker_sor_monitor.Scheduler.Released.{IsReleased, failed_dispatch_releases}
use ker_sor_monitor.Scheduler.Launched.{IsLaunched, dispatch_launches}
use ker_sor_monitor.Routes.Create.{validate_task_create, queued_task}
use ker_sor_monitor.Routes.Valid.{accepted_resolves}
use ker_sor_monitor.Tests.Samples.{
  db, world, fair, earlier, handle, worker, task_at, later, claimed, claimed_world, launch,
  refusing, dispatch, policy, request,
}

abbrev at_rest : Task
at_rest = task_at "p" paused "2026-01-01T00:00:01.5Z"

abbrev resting : World
resting = record world { db = record db { tasks = at_rest ∷ [] } }

paused_stall_raises_example :
    retire fair "p" (some "w_p") (some stuck) true resting ≡ (err illegal_transition, resting)
unfolding ker_sor_monitor.Prelude.Rows.find
paused_stall_raises_example =
    paused_stall_raises fair "p" (some "w_p") true resting at_rest refl refl

unlive_stall_reports_example :
    retire fair "a" none (some stuck) true world ≡ (ok (some stuck), world)
unfolding ker_sor_monitor.Prelude.Rows.find
unlive_stall_reports_example = unlive_stall_reports fair "a" none true world earlier refl refl

stop_ends_example : IsOver "c" "w_c" (actuate fair "c" "stop" [] world).1.db
unfolding ker_sor_monitor.World.running_handle ker_sor_monitor.Prelude.Rows.find actuate
    ker_sor_monitor.Runtime.get_adapter ker_sor_monitor.Actuator.Steer.stop retire
    ker_sor_monitor.Store.Db.connection ker_sor_monitor.Store.Tasks.finish_worker
    ker_sor_monitor.State.move
stop_ends_example =
    stop_ends fair "c" [] world (actuate fair "c" "stop" [] world).1
      (record { task_id = "c"; worker_id = "w_c"; handle = handle }) "stop" refl refl

-- A database with a claimed task and no worker, and the worker that starts.
abbrev claimed_db : Db
claimed_db = record db { tasks = claimed ∷ []; workers = []; locks = [] }

abbrev starting : Worker
starting = record worker { id = "w_d"; task_id = "d" }

-- The activation succeeds, so the theorem is applied on its success branch.
activates :
    (r : Bool × Db) × (activate_worker later "d" starting "/ws" claimed_db ≡ ok r) × (r.0 ≡ true)
unfolding activate_worker ker_sor_monitor.Prelude.Rows.find ker_sor_monitor.Prelude.Rows.has
    ker_sor_monitor.State.move
activates = (_, refl, refl)

activate_worker-Activated_example :
    Activated "d" starting "/ws" claimed_db (activate_worker later "d" starting "/ws" claimed_db)
activate_worker-Activated_example =
    activate_worker-Activated later "d" "/ws" starting claimed_db refl

resolve_dispatch-IsUntouched_example :
    IsUntouched claimed_world (resolve_dispatch launch claimed claimed_world)
resolve_dispatch-IsUntouched_example = resolve_dispatch-IsUntouched launch claimed claimed_world

failed_dispatch_releases_example :
    IsReleased dispatch (dispatch_one fair refusing dispatch claimed_world).1
unfolding ker_sor_monitor.Prelude.Rows.has dispatch_one
failed_dispatch_releases_example =
    failed_dispatch_releases fair refusing dispatch claimed_world
      (dispatch_one fair refusing dispatch claimed_world).1 refl refl

dispatch_launches_example : IsLaunched dispatch (dispatch_one fair launch dispatch claimed_world).1
unfolding dispatch_one ker_sor_monitor.Store.Db.connection activate_worker
    ker_sor_monitor.Prelude.Rows.find ker_sor_monitor.World.register ker_sor_monitor.State.move
    ker_sor_monitor.Prelude.Rows.has
dispatch_launches_example =
    dispatch_launches fair launch dispatch claimed_world
      (dispatch_one fair launch dispatch claimed_world).1 refl

accepted_resolves_example :
    is_ok (resolve_dispatch launch (queued_task later "demo" request) world).0 ≡ true
unfolding validate_task_create ker_sor_monitor.SafeId.is_safe_id ker_sor_monitor.Runtime.get_adapter
    ker_sor_monitor.Json.truthy ker_sor_monitor.Json.lookup ker_sor_monitor.Resource.get_kind
    ker_sor_monitor.Evaluator.get_evaluator ker_sor_monitor.Runtime.Shell.is_blank
accepted_resolves_example =
    accepted_resolves policy later "demo" world request (queued_task later "demo" request) launch
      refl
