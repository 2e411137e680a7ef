-- ===== src/Scheduler/Acquire.antt =====
-- When `_resolve_dispatch` of flotilla/scheduler.py takes a resource.
use ker_sor_monitor.Prelude.{
  ℕ, String, ◌≡◌, refl, ap, Bool, true, false, ◌||◌, not, Option, none, some, ◌==◌, Bool-cases, inl,
  inr, if◌then◌else◌,
}
use ker_sor_monitor.Prelude.Rows.{has}
use ker_sor_monitor.Result.{Result, ok, err, value_error}
use ker_sor_monitor.Json.{Value, Dict, get, truthy, null, bool, int, float, str, arr, obj}
use ker_sor_monitor.Models.{Task}
use ker_sor_monitor.Runtime.{Adapter}
use ker_sor_monitor.SafeId.{is_safe_id}
use ker_sor_monitor.Resource.{
  Resources, Held, Kind, Lock, cpu, gpu, acquire, gpu_take, gpu_acquire, gpu_acquire_uuid,
  cpu_acquire,
}
use ker_sor_monitor.World.{World}
use ker_sor_monitor.Scheduler.Resolve.{
  Launch, Prepared, resolve_dispatch, checked, acquiring, locked as holding,
}

-- A request that is not granted leaves the resources.
abbrev Granted : Resources → Result (Option Lock × Resources) → Type 0
Granted r (ok (some lock, r')) = Unit
Granted r (ok (none, r')) = r' ≡ r
Granted r (err e) = Unit

gpu_take-Granted :
    (uuid wid : String) (free : Bool) (fd : ℕ) (r : Resources)
    → Granted r (ok (gpu_take uuid wid free fd r))
unfolding gpu_take
gpu_take-Granted uuid wid free fd r = elim (Bool-cases (has Held.uuid uuid r.held || not free)) [
  | inl e ↦ rw e refl
  | inr e ↦ rw e tt
]

or_error-Granted :
    (b : Bool) (r : Resources) → Granted r (if b then err value_error else ok (none, r))
or_error-Granted true r = tt
or_error-Granted false r = refl

gpu_acquire_uuid-Granted :
    (v : Value) (wid : String) (free : Bool) (fd : ℕ) (r : Resources)
    → Granted r (gpu_acquire_uuid v wid free fd r)
unfolding gpu_acquire_uuid
gpu_acquire_uuid-Granted (str s) wid free fd r = elim (Bool-cases (s == "")) [
  | inl e ↦ rw e refl
  | inr e ↦ elim (Bool-cases (is_safe_id s)) [
    | inl safe ↦ rw (e, safe) (gpu_take-Granted s wid free fd r)
    | inr n ↦ rw (e, n) tt
  ]
]
gpu_acquire_uuid-Granted null wid free fd r = or_error-Granted (truthy null) r
gpu_acquire_uuid-Granted (bool b) wid free fd r = or_error-Granted (truthy (bool b)) r
gpu_acquire_uuid-Granted (int n) wid free fd r = or_error-Granted (truthy (int n)) r
gpu_acquire_uuid-Granted (float x) wid free fd r = or_error-Granted (truthy (float x)) r
gpu_acquire_uuid-Granted (arr vs) wid free fd r = or_error-Granted (truthy (arr vs)) r
gpu_acquire_uuid-Granted (obj fs) wid free fd r = or_error-Granted (truthy (obj fs)) r

acquire-Granted :
    (k : Kind) (wid : String) (req : Dict) (free : Bool) (fd : ℕ) (r : Resources)
    → Granted r (acquire k wid req free fd r)
unfolding acquire cpu_acquire gpu_acquire
acquire-Granted cpu wid req free fd r = tt
acquire-Granted gpu wid req free fd r = gpu_acquire_uuid-Granted (get "uuid" req) wid free fd r

-- Nothing has changed, except that a prepared dispatch may hold a resource.
abbrev pub IsUntouched : World → Result (Option Prepared) × World → Type 0
IsUntouched w (ok (some p), w') =
    (w'.db ≡ w.db) × (w'.handles ≡ w.handles) × (w'.retiring ≡ w.retiring)
IsUntouched w (ok none, w') = w' ≡ w
IsUntouched w (err e, w') = w' ≡ w

acquiring-IsUntouched :
    (l : Launch) (task : Task) (w : World)
    (r : Result (Adapter × Option Kind × String × Option String))
    → IsUntouched w (acquiring l task w r)
acquiring-IsUntouched l task w (err e) = refl
acquiring-IsUntouched l task w (ok (rt, none, ws_path, ssh_host)) = (refl, refl, refl)
acquiring-IsUntouched l task w (ok (rt, some kind, ws_path, ssh_host)) =
    by
      (acquire kind (l.worker_id task) task.resource_req (l.flock task).0 (l.flock task).1
        w.resources)
      (acquire-Granted kind (l.worker_id task) task.resource_req (l.flock task).0 (l.flock task).1
        w.resources)
  where
    by :
        (a : Result (Option Lock × Resources))
        → Granted w.resources a
        → IsUntouched w (holding l task rt ws_path ssh_host w a)
    by (err e) g = refl
    by (ok (none, r)) g = ap (λ x. record w { resources = x }) g
    by (ok (some lock, r)) g = (refl, refl, refl)

-- `_resolve_dispatch` takes a resource only for a dispatch that it returns: where it raises or finds
-- the resource busy, nothing has changed, and in no case has it written to the database.
pub resolve_dispatch-IsUntouched :
    (l : Launch) (task : Task) (w : World) → IsUntouched w (resolve_dispatch l task w)
unfolding resolve_dispatch
resolve_dispatch-IsUntouched l task w = acquiring-IsUntouched l task w (checked l w.db task)
