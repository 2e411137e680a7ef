-- ===== src/Routes/Create.antt =====
-- `_validate_task_create` and `create_tasks` of flotilla/routes.py. A refusal is an HTTPException.
use ker_sor_monitor.Prelude.{
  ℕ, String, Bool, true, false, not, ◌&&◌, ◌||◌, Option, none, some, List, [], ◌∷◌, ◌==◌,
  if◌then◌else◌, any_of, map, leb, length, is_some,
}
use ker_sor_monitor.Result.{Result, ok, err, ◌>>=◌, http_error, key_error, integrity_error}
use ker_sor_monitor.State.{queued}
use ker_sor_monitor.Json.{Value, null, str, Dict, get, lookup, truthy}
use ker_sor_monitor.Models.{Task, TaskCreate}
use ker_sor_monitor.SafeId.{is_safe_id}
use ker_sor_monitor.Runtime.{Adapter, get_adapter, supports_remote}
use ker_sor_monitor.Runtime.Shell.{is_blank}
use ker_sor_monitor.Resource.{get_kind}
use ker_sor_monitor.Evaluator.{get_evaluator}
use ker_sor_monitor.Store.Db.{Db, connection}
use ker_sor_monitor.Store.Catalog.{get_host, get_project}
use ker_sor_monitor.Store.Tasks.{existing_task_ids, create_tasks}

-- The settings that the checks read, and `len(json.dumps(metadata, ensure_ascii=False))`.
pub record Policy : Type 0 where
  pub allow_boot_command : Bool
  pub allow_shell_runtime : Bool
  pub json_length : Dict → ℕ

abbrev pub require : Bool → ℕ → Result (Unit {0})
require b code = if b then ok tt else err (http_error code)

-- `_check_id`
unfoldable pub check_id : String → Result (Unit {0})
check_id s = require (is_safe_id s) 400

abbrev pub is_given : Option String → Bool
is_given none = false
is_given (some s) = not (s == "")

-- `except KeyError: raise HTTPException(400)`
abbrev pub known {ℓ} : {A : Type ℓ} → Result A → Result A
known (ok a) = ok a
known (err key_error) = err (http_error 400)
known (err e) = err e

abbrev pub check_host : Db → Option String → Result (Unit {0})
check_host db none = ok tt
check_host db (some hid) =
    if hid == "" then ok tt else check_id hid >>= λ _. require (is_some (get_host db hid)) 400

abbrev pub check_remote : Option String → Adapter → Result (Unit {0})
check_remote host rt = require (not (is_given host && not (supports_remote rt))) 400

abbrev pub check_kind : Value → Result (Unit {0})
check_kind kind = if truthy kind then (known (get_kind kind) >>= λ _. ok tt) else ok tt

abbrev pub check_uuid : Value → Value → Result (Unit {0})
check_uuid (str k) (str uuid) = if k == "gpu" then check_id uuid else ok tt
check_uuid (str k) _ = if k == "gpu" then err (http_error 400) else ok tt
check_uuid _ _ = ok tt

abbrev pub check_evaluator : Option String → Option String → Result (Unit {0})
check_evaluator none host = ok tt
check_evaluator (some e) host =
    if e == "" then ok tt else known (get_evaluator e) >>= λ _. require (not (is_given host)) 400

abbrev check_effort : Value → Result (Unit {0})
check_effort null = ok tt
check_effort (str s) =
    require (any_of (λ e. s == e) ("" ∷ "low" ∷ "medium" ∷ "high" ∷ "xhigh" ∷ "max" ∷ [])) 400
check_effort _ = err (http_error 400)

abbrev has_command : Value → Bool
has_command (str s) = not (is_blank s)
has_command _ = false

abbrev check_shell : Policy → TaskCreate → Result (Unit {0})
check_shell policy item =
    if item.runtime == "shell"
    then (require policy.allow_shell_runtime 400 >>= λ _.
        require (has_command (get "command" item.metadata)) 400)
    else ok tt

-- The checks after those of the host, the runtime and the resource.
unfoldable pub check_metadata : Policy → TaskCreate → Result (Unit {0})
check_metadata policy item = check_effort (get "effort" item.metadata) >>= λ _.
    require (not (is_some (lookup "boot_command" item.metadata)) || policy.allow_boot_command) 400
    >>= λ _.
        check_shell policy item >>= λ _. require (leb (policy.json_length item.metadata) 65536) 413

abbrev pub queued_task : String → String → TaskCreate → Task
queued_task now pid item = record {
  id = item.id;
  project_id = pid;
  name = item.name;
  spec = item.spec;
  state = queued;
  workspace_path = none;
  runtime = item.runtime;
  target_host = item.target_host;
  resource_req = item.resource_req;
  evaluator = item.evaluator;
  owner = item.owner;
  metadata = item.metadata;
  created_at = now;
  updated_at = now;
}

-- `_validate_task_create`
unfoldable pub validate_task_create : Policy → String → Db → String → TaskCreate → Result Task
unfolding check_id check_metadata
validate_task_create policy now db pid item = check_id item.id >>= λ _.
    check_host db item.target_host >>= λ _. known (get_adapter item.runtime) >>= λ rt.
    check_remote item.target_host rt >>= λ _. check_kind (get "kind" item.resource_req) >>= λ _.
    check_uuid (get "kind" item.resource_req) (get "uuid" item.resource_req) >>= λ _.
    check_evaluator item.evaluator item.target_host >>= λ _.
    check_metadata policy item >>= λ _. ok (queued_task now pid item)

unfoldable pub validate_all : Policy → String → Db → String → List TaskCreate → Result (List Task)
unfolding validate_task_create
validate_all policy now db pid [] = ok []
validate_all policy now db pid (item ∷ items) = validate_task_create policy now db pid item >>= λ t.
    validate_all policy now db pid items >>= λ ts. ok (t ∷ ts)

-- `len(ids) == len(set(ids))`
abbrev all_distinct : List String → Bool
all_distinct [] = true
all_distinct (i ∷ is) = not (any_of (λ j. j == i) is) && all_distinct is

abbrev is_nil {ℓ} : {A : Type ℓ} → List A → Bool
is_nil [] = true
is_nil (_ ∷ _) = false

-- What `create_tasks` checks before it writes.
unfoldable pub check_batch : Policy → String → Db → String → List TaskCreate → Result (List Task)
unfolding validate_all
check_batch policy now db pid items = check_id pid >>= λ _.
    require (not (is_nil items)) 400 >>= λ _. require (leb (length items) 500) 413 >>= λ _.
    require (is_some (get_project db pid)) 404 >>= λ _.
    require (all_distinct (map TaskCreate.id items)) 409 >>= λ _.
    require (is_nil (existing_task_ids db (map TaskCreate.id items))) 409 >>= λ _.
    validate_all policy now db pid items

-- `except sqlite3.IntegrityError: raise HTTPException(409)`
abbrev pub created : List Task → Result (Unit {0}) × Db → Result ℕ × Db
created ts (ok _, db) = (ok (length ts), db)
created ts (err integrity_error, db) = (err (http_error 409), db)
created ts (err e, db) = (err e, db)

abbrev pub write_batch : (Db → Db) → Db → Result (List Task) → Result ℕ × Db
write_batch others db (err e) = (err e, db)
write_batch others db (ok ts) = created ts (connection (create_tasks ts) (others db))

-- `create_tasks`, without its publications. Others may commit between the checks and the write.
unfoldable pub post_tasks :
    Policy → String → (Db → Db) → String → List TaskCreate → Db → Result ℕ × Db
unfolding check_batch
post_tasks policy now others pid items db =
    write_batch others db (check_batch policy now db pid items)
