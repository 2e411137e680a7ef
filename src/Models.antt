-- ===== src/Models.antt =====
-- flotilla/models.py: the rows of the tables and the bodies of the requests. A timestamp is the
-- text that `_now` writes. What pydantic checks of a field (`Field(min_length=…)` and the like) is
-- `accepts` below.
use ker_sor_monitor.Prelude.{ℕ, String, Bool, true, false, Option, none, some, ◌&&◌, leb, length}
use ker_sor_monitor.Prelude.Text.{codes}
use ker_sor_monitor.Json.{Dict, Float, finite, infinity, nan}
use ker_sor_monitor.State.{State}

pub record Project : Type 0 where
  pub id : String
  pub name : String
  pub config : Dict
  pub feishu_base : Option String
  pub feishu_table : Option String
  pub created_at : String

pub record Task : Type 0 where
  pub id : String
  pub project_id : String
  pub name : String
  pub spec : String
  pub state : State
  pub workspace_path : Option String
  pub runtime : String
  pub target_host : Option String
  pub resource_req : Dict
  pub evaluator : Option String
  pub owner : Option String
  pub metadata : Dict
  pub created_at : String
  pub updated_at : String

pub record TaskCreate : Type 0 where
  pub id : String
  pub name : String
  pub spec : String
  pub runtime : String
  pub target_host : Option String
  pub resource_req : Dict
  pub evaluator : Option String
  pub owner : Option String
  pub metadata : Dict

pub record Worker : Type 0 where
  pub id : String
  pub task_id : String
  pub status : String
  pub session_handle : Option String
  pub session_uuid : Option String
  pub pane_id : Option String
  pub pid : Option ℕ
  pub resource_lock_id : Option String
  pub started_at : String
  pub ended_at : Option String
  pub extra : Dict

-- An event that has no id yet: the table gives it one.
pub record Event : Type 0 where
  pub task_id : String
  pub type : String
  pub payload : Dict
  pub ts : String

pub record WorkerPing : Type 0 where
  pub task_id : String
  pub state : String
  pub speedup : Option Float
  pub rounds : ℕ
  pub candidates : ℕ
  pub best_candidate : Option String
  pub timestamp : String
  pub pane_tail : String
  pub session_uuid : Option String
  pub last_activity : String
  pub last_tool : Option String
  pub tokens : ℕ

pub record Host : Type 0 where
  pub id : String
  pub ssh_alias : String
  pub remote_root : String
  pub gpu : Option String
  pub notes : String
  pub created_at : String

pub record Template : Type 0 where
  pub id : String
  pub name : String
  pub spec : String
  pub runtime : String
  pub effort : String
  pub evaluator : Option String
  pub builtin : Bool
  pub created_at : String

pub record TemplateCreate : Type 0 where
  pub id : String
  pub name : String
  pub spec : String
  pub runtime : String
  pub effort : String
  pub evaluator : Option String

abbrev within : ℕ → ℕ → String → Bool
within lo hi s = let n = length (codes s) in leb lo n && leb n hi

abbrev optional : ℕ → Option String → Bool
optional hi none = true
optional hi (some s) = within 0 hi s

-- The field constraints of `TaskCreate`.
unfoldable pub accepts_task : TaskCreate → Bool
accepts_task t =
    within 1 128 t.id
    && within 1 256 t.name
    && within 1 1000000 t.spec
    && within 1 64 t.runtime
    && optional 128 t.target_host
    && optional 64 t.evaluator
    && optional 256 t.owner

abbrev is_finite : Float → Bool
is_finite (finite _ _) = true
is_finite (infinity _) = false
is_finite nan = false

abbrev finite_or_absent : Option Float → Bool
finite_or_absent none = true
finite_or_absent (some x) = is_finite x

-- The field constraints of `WorkerPing`; its numbers are natural, as `ge=0` asks.
unfoldable pub accepts_ping : WorkerPing → Bool
accepts_ping p =
    within 1 128 p.task_id
    && within 1 64 p.state
    && finite_or_absent p.speedup
    && leb p.rounds 10000000
    && leb p.candidates 10000000
    && optional 1024 p.best_candidate
    && within 0 128 p.timestamp
    && within 0 16384 p.pane_tail
    && optional 256 p.session_uuid
    && within 0 2048 p.last_activity
    && optional 256 p.last_tool

-- The field constraints of `TemplateCreate`.
unfoldable pub accepts_template : TemplateCreate → Bool
accepts_template t =
    within 1 128 t.id
    && within 1 256 t.name
    && within 0 1000000 t.spec
    && within 1 64 t.runtime
    && within 0 16 t.effort
    && optional 64 t.evaluator
