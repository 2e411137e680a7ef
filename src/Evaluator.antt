-- ===== src/Evaluator.antt =====
-- flotilla/evaluator/: the registry and the result of an evaluation. For the other parts, what an
-- evaluator finds in a workspace is outside.
pub mod Pytest
use ker_sor_monitor.Prelude.{String, Bool, List, ◌==◌, if◌then◌else◌}
use ker_sor_monitor.Result.{Result, ok, err, key_error}
use ker_sor_monitor.Json.{Float}

pub record EvalResult : Type 0 where
  pub evaluator : String
  pub passed : Bool
  pub score : Float
  pub detail : String
  pub artifacts : List String

pub data Adapter : Type 0 where
  pytest : Adapter

-- `evaluator.get(name)`
unfoldable pub get_evaluator : String → Result Adapter
get_evaluator name = if name == "pytest" then ok pytest else err key_error
