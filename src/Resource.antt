-- ===== src/Resource.antt =====
-- flotilla/resource/: the registry of resource kinds, the CPU counter and the GPU locks of one
-- process. What the operating system answers to `flock` and the descriptor that `os.open` returns
-- are arguments.
pub mod Exclusion
use ker_sor_monitor.Prelude.{
  ℕ, ◌+◌, ◌-◌, String, Bool, true, false, not, ◌||◌, Option, none, some, List, [], ◌∷◌, ◌++◌, ◌==◌,
  if◌then◌else◌, max, length, is_some,
}
use ker_sor_monitor.Prelude.Rows.{has, find, delete}
use ker_sor_monitor.Result.{Result, ok, err, key_error, value_error, type_error}
use ker_sor_monitor.Json.{
  Value, Values, Fields, Dict, null, bool, int, float, str, arr, obj, get, truthy,
}
use ker_sor_monitor.SafeId.{is_safe_id}

pub record Lock : Type 0 where
  pub resource_id : String
  pub worker_id : String
  pub handle : ℕ

pub record ResourceStatus : Type 0 where
  pub kind : String
  pub slots_total : ℕ
  pub slots_used : ℕ

-- An entry of `GpuResource._held`.
pub record Held : Type 0 where
  pub uuid : String
  pub fd : ℕ

pub data Kind : Type 0 where
  cpu gpu : Kind

-- The two adapters of `REGISTRY`.
pub record Resources : Type 0 where
  pub cpu_count : ℕ
  pub cpu_counter : ℕ
  pub held : List Held

-- `resource.get(kind)`; a list or a dict cannot be looked up in a dict.
unfoldable pub get_kind : Value → Result Kind
get_kind (str s) = if s == "cpu" then ok cpu else if s == "gpu" then ok gpu else err key_error
get_kind (arr _) = err type_error
get_kind (obj _) = err type_error
get_kind _ = err key_error

unfoldable pub cpu_acquire : String → Resources → Option Lock × Resources
cpu_acquire wid r = (
  some (record { resource_id = "cpu"; worker_id = wid; handle = r.cpu_counter }),
  record r { cpu_count = r.cpu_count + 1; cpu_counter = r.cpu_counter + 1 },
)

-- `max(0, self._count - 1)`
unfoldable pub cpu_release_id : Resources → Resources
cpu_release_id r = record r { cpu_count = r.cpu_count - 1 }

unfoldable pub cpu_status : Resources → ResourceStatus
cpu_status r = record { kind = "cpu"; slots_total = 1000000000; slots_used = r.cpu_count }

abbrev pub hold : String → ℕ → Resources → Resources
hold uuid fd r = record r { held = r.held ++ record { uuid = uuid; fd = fd } ∷ [] }

-- After the check of the id. `free` says whether `flock` took the lock without blocking.
unfoldable pub gpu_take : String → String → Bool → ℕ → Resources → Option Lock × Resources
gpu_take uuid wid free fd r =
    if has Held.uuid uuid r.held || not free
    then (none, r)
    else (some (record { resource_id = uuid; worker_id = wid; handle = fd }), hold uuid fd r)

-- `req.get("uuid")`
unfoldable pub gpu_acquire_uuid :
    Value → String → Bool → ℕ → Resources → Result (Option Lock × Resources)
unfolding gpu_take
gpu_acquire_uuid (str s) wid free fd r =
    if s == ""
    then ok (none, r)
    else if is_safe_id s
    then ok (gpu_take s wid free fd r)
    else err value_error
gpu_acquire_uuid v wid free fd r = if truthy v then err value_error else ok (none, r)

unfoldable pub gpu_acquire : String → Dict → Bool → ℕ → Resources → Result (Option Lock × Resources)
unfolding gpu_acquire_uuid
gpu_acquire wid req free fd r = gpu_acquire_uuid (get "uuid" req) wid free fd r

unfoldable pub gpu_release_id : String → Resources → Resources
gpu_release_id uuid r = record r { held = delete (λ h. h.uuid == uuid) r.held }

unfoldable pub gpu_status : Resources → ResourceStatus
gpu_status r = record {
  kind = "gpu";
  slots_total = max 1 (length r.held);
  slots_used = length r.held;
}

unfoldable pub acquire :
    Kind → String → Dict → Bool → ℕ → Resources → Result (Option Lock × Resources)
unfolding cpu_acquire gpu_acquire
acquire cpu wid req free fd r = ok (cpu_acquire wid r)
acquire gpu wid req free fd r = gpu_acquire wid req free fd r

unfoldable pub release_id : Kind → String → Resources → Resources
unfolding cpu_release_id gpu_release_id
release_id cpu rid r = cpu_release_id r
release_id gpu rid r = gpu_release_id rid r
