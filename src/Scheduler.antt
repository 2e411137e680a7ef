-- ===== src/Scheduler.antt =====
-- flotilla/scheduler.py: claimed tasks are prepared, dispatched and, where that fails, compensated.
pub mod Resolve
pub mod Dispatch
pub mod Acquire
pub mod Released
pub mod Launched
use ker_sor_monitor.Prelude.{
  ℕ, String, Bool, true, false, Option, none, some, List, [], ◌∷◌, if◌then◌else◌,
}
use ker_sor_monitor.Result.{Error, Result, ok, err, is_key_or_value_error}
use ker_sor_monitor.State.{queued}
use ker_sor_monitor.Models.{Task}
use ker_sor_monitor.Store.Db.{Db, connection}
use ker_sor_monitor.Store.Tasks.{claim_queued_tasks, release_task_claim}
use ker_sor_monitor.World.{World, Outside}
use ker_sor_monitor.Scheduler.Resolve.{Launch, Prepared, resolve_dispatch}
use ker_sor_monitor.Scheduler.Dispatch.{finish_failed_claim, dispatch_all}

-- The `except` clauses of the preparation.
abbrev pub given_up : Outside → Task → Error → World → Option Prepared × World
given_up out task e w = (none, finish_failed_claim out task (out.message e) (is_retryable e) w)
  where
    is_retryable : Error → Bool
    is_retryable x = if is_key_or_value_error x then false else true

-- A resource that is busy gives the claim back for a later patrol.
abbrev pub gave_back : Outside → Task → World → Result Bool × Db → Option Prepared × World
gave_back out task w (ok _, db) = (none, record w { db = db })
gave_back out task w (err e, db) = given_up out task e (record w { db = db })

abbrev pub prepared : Outside → Task → Result (Option Prepared) × World → Option Prepared × World
prepared out task (ok (some p), w) = (some p, w)
prepared out task (ok none, w) =
    gave_back out task w (connection (release_task_claim out.now task.id queued) w.db)
prepared out task (err e, w) = given_up out task e w

unfoldable pub prepare : Outside → Launch → Task → World → Option Prepared × World
prepare out l task w = prepared out task (resolve_dispatch l task w)

unfoldable pub prepare_all : Outside → Launch → List Task → World → List Prepared × World
unfolding prepare
prepare_all out l [] w = ([], w)
prepare_all out l (task ∷ tasks) w =
    let (p, next) = prepare out l task w in
    let (ps, final) = prepare_all out l tasks next in
    (elim p [ none ↦ ps | some item ↦ item ∷ ps ], final)

-- `tick`, without its publications; `completion` is the order in which the starts complete.
unfoldable pub tick : Outside → Launch → (List Prepared → List Prepared) → World → ℕ × World
unfolding prepare_all dispatch_all
tick out l completion w =
    let (claimed, db) = claim_queued_tasks out.now l.max_workers w.db in
    let (ps, ready) = prepare_all out l claimed (record w { db = db }) in
    dispatch_all out l (completion ps) ready
