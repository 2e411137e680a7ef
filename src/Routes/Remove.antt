-- ===== src/Routes/Remove.antt =====
-- `delete_task` of flotilla/routes.py: a task that may still have a worker is stopped first.
use ker_sor_monitor.Prelude.{
  String, ◌≡◌, Bool, false, ◌||◌, Option, none, some, ◌⊎◌, is_some, if◌then◌else◌, [],
}
use ker_sor_monitor.Result.{Result, ok, err, http_error}
use ker_sor_monitor.State.{dispatching, is, is_live}
use ker_sor_monitor.Models.{Task}
use ker_sor_monitor.Store.Db.{Db}
use ker_sor_monitor.Store.Tasks
use ker_sor_monitor.Store.Tasks.{get_task}
use ker_sor_monitor.Store.Workers.{active_worker_id}
use ker_sor_monitor.World.{World, Outside, Registered, running_handle}
use ker_sor_monitor.Actuator.Steer.{Reply, accepted, refused, actuate}
use ker_sor_monitor.Actuator.Stop.{IsOver}

-- `t.state in {…} or s.active_worker_id(tid) is not None`
abbrev pub is_busy : Db → String → Task → Bool
is_busy db tid t = is dispatching t.state || is_live t.state || is_some (active_worker_id db tid)

abbrev pub removed : String → World → Result (Unit {0}) × World
removed tid w = (ok tt, record w { db = Tasks.delete_task tid w.db })

abbrev pub after_stop : String → Result Reply × World → Result (Unit {0}) × World
after_stop tid (ok (accepted a), w) = removed tid w
after_stop tid (ok refused, w) = (err (http_error 409), w)
after_stop tid (err e, w) = (err (http_error 409), w)

abbrev pub remove_row : Outside → String → World → Option Task → Result (Unit {0}) × World
remove_row out tid w none = (err (http_error 404), w)
remove_row out tid w (some t) =
    if is_busy w.db tid t then after_stop tid (actuate out tid "stop" [] w) else removed tid w

-- `delete_task`, without the publication of the tombstone.
unfoldable pub remove_task : Outside → String → World → Result (Unit {0}) × World
remove_task out tid w = remove_row out tid w (get_task w.db tid)

-- The task is deleted by `Store.delete_task`: at once, if it was not being dispatched, not live and had
-- no open worker row; or after its registered worker was stopped and recorded as over.
abbrev pub IsRemoval : Outside → String → World → World → Type 0
IsRemoval out tid w w' =
    (v : World) × (w' ≡ record v { db = Tasks.delete_task tid v.db })
    × (((t : Task) × (get_task w.db tid ≡ some t)
          × (is dispatching t.state ≡ false)
          × (is_live t.state ≡ false)
          × (active_worker_id w.db tid ≡ none)
          × (v ≡ w))
        ⊎ ((r : Registered) × (running_handle w tid ≡ some r)
            × (out.stop r.handle ≡ ok tt)
            × IsOver tid r.worker_id v.db))

abbrev Removal : Outside → String → World → Result (Unit {0}) × World → Type 0
Removal out tid w (ok _, w') = IsRemoval out tid w w'
Removal out tid w (err e, w') = Unit
