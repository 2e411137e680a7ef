-- ===== src/Sinks/View.antt =====
-- `build_task_view` of flotilla/sinks/__init__.py: the task as lists and streams show it.
use ker_sor_monitor.Prelude.{
  String, ◌≡◌, refl, arith, eq_iff, Bool, true, false, not, ◌||◌, Option, none, some, List, [], ◌∷◌,
  if◌then◌else◌, any_of, filter_if, or_else,
}
use ker_sor_monitor.Prelude.Int.{ℤ, pos}
use ker_sor_monitor.Prelude.Text.{codes, lower, same_codes, occurs_in}
use ker_sor_monitor.State.{name}
use ker_sor_monitor.Json.{
  Float, null, bool, int, str, obj, Dict, lookup, assign, opt_str, object_of,
}
use ker_sor_monitor.Models.{Task}
use ker_sor_monitor.Store.Db.{Db, StoredEvent}
use ker_sor_monitor.Store.Events.{status_events}
use ker_sor_monitor.Sinks.Status.{normalize_status_record}

abbrev private_keys : List String
private_keys = "command" ∷ "boot_command" ∷ []

abbrev private_fragments : List String
private_fragments = "secret" ∷ "token" ∷ "password" ∷ "api_key" ∷ "private_key" ∷ []

-- Whether `_public_metadata` drops the key.
unfoldable pub is_private : String → Bool
is_private key =
    any_of (λ k. same_codes (lower key) (codes k)) private_keys
    || any_of (λ f. occurs_in (codes f) (lower key)) private_fragments

-- `_public_metadata`
unfoldable pub public_metadata : Dict → Dict
public_metadata d = filter_if (λ kv. not (is_private kv.0)) d

-- What stays public is exactly the entries whose key is not private, unchanged.
pub lookup-public_metadata :
    (k : String) (d : Dict)
    → lookup k (public_metadata d) ≡ (if is_private k then none else lookup k d)
unfolding lookup public_metadata
lookup-public_metadata k [] = ground arith
lookup-public_metadata k ((j, v) ∷ d) = ground (arith, lookup-public_metadata k d, eq_iff j k)

-- `task.model_dump()` with its public metadata, and without the spec where that is not asked for.
unfoldable pub persisted : Task → Bool → Dict
persisted t include_spec =
    ("id", str t.id)
    ∷ ("project_id", str t.project_id)
    ∷ ("name", str t.name)
    ∷ spec_and (
        ("state", str (name t.state))
        ∷ ("workspace_path", opt_str t.workspace_path)
        ∷ ("runtime", str t.runtime)
        ∷ ("target_host", opt_str t.target_host)
        ∷ ("resource_req", obj (object_of t.resource_req))
        ∷ ("evaluator", opt_str t.evaluator)
        ∷ ("owner", opt_str t.owner)
        ∷ ("metadata", obj (object_of (public_metadata t.metadata)))
        ∷ ("created_at", str t.created_at)
        ∷ ("updated_at", str t.updated_at)
        ∷ [])
  where
    spec_and : Dict → Dict
    spec_and rest = if include_spec then ("spec", str t.spec) ∷ rest else rest

-- `_STATUS_DEFAULTS`
abbrev pub status_defaults : Dict
status_defaults =
    ("status_state", null)
    ∷ ("speedup", null)
    ∷ ("rounds", int (pos 0))
    ∷ ("candidates", int (pos 0))
    ∷ ("best_candidate", null)
    ∷ ("timestamp", str "")
    ∷ ("pane_tail", str "")
    ∷ ("session_uuid", null)
    ∷ ("last_activity", str "")
    ∷ ("last_tool", null)
    ∷ ("tokens", int (pos 0))
    ∷ ("exited", bool false)
    ∷ ("source", null)
    ∷ []

-- `{**view, **telemetry}`, where the telemetry has the keys of the defaults.
abbrev pub with_telemetry : Dict → Dict → Dict → Dict
with_telemetry normalized [] view = view
with_telemetry normalized ((k, d) ∷ more) view =
    with_telemetry normalized more (assign k (or_else (lookup k normalized) d) view)

abbrev payload_of : List StoredEvent → Dict
payload_of [] = []
payload_of (e ∷ []) = e.event.payload
payload_of (e ∷ f ∷ es) = payload_of (f ∷ es)

abbrev pub status_or_latest : Db → Task → Option Dict → Dict
status_or_latest db t none = payload_of (status_events db t.id 1)
status_or_latest db t (some status) = status

unfoldable pub build_task_view : (ℤ → Option Float) → Db → Task → Option Dict → Bool → Bool → Dict
unfolding persisted
build_task_view float_of db t status deleted include_spec = assign "deleted" (bool deleted) (
    with_telemetry (normalize_status_record float_of (status_or_latest db t status)) status_defaults
      (persisted t include_spec))

-- Whatever the worker's status says, a view shows the identity, the state, the times and the
-- public metadata that the database has.
pub view_authoritative :
    (float_of : ℤ → Option Float) (db : Db) (t : Task) (status : Option Dict)
    (deleted include_spec : Bool)
    → let view = build_task_view float_of db t status deleted include_spec in
      (lookup "id" view ≡ some (str t.id))
      × (lookup "project_id" view ≡ some (str t.project_id))
      × (lookup "state" view ≡ some (str (name t.state)))
      × (lookup "created_at" view ≡ some (str t.created_at))
      × (lookup "updated_at" view ≡ some (str t.updated_at))
      × (lookup "metadata" view ≡ some (obj (object_of (public_metadata t.metadata))))
      × (lookup "deleted" view ≡ some (bool deleted))
      × (lookup "spec" view ≡ (if include_spec then some (str t.spec) else none))
unfolding build_task_view lookup assign
view_authoritative float_of db t status deleted true =
    (refl, refl, refl, refl, refl, refl, refl, refl)
view_authoritative float_of db t status deleted false =
    (refl, refl, refl, refl, refl, refl, refl, refl)
