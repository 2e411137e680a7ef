-- ===== src/Runtime.antt =====
-- flotilla/runtime/: the registry of adapters, handles and observations. What an adapter does to a
-- process, a tmux pane or a remote host is outside: its outcome is an argument of the code that
-- calls it.
pub mod Shell
pub mod Window
use ker_sor_monitor.Prelude.{ℕ, String, Bool, true, false, Option, none, some, ◌==◌, if◌then◌else◌}
use ker_sor_monitor.Result.{Result, ok, err, key_error}
use ker_sor_monitor.Json.{Dict, Float}

-- `WorkerHandle.handle`: a process of the shell runtime, or the dict of the tmux runtime.
pub data Native : Type 0 where
  process : ℕ → Native
  fields : Dict → Native

pub record WorkerHandle : Type 0 where
  pub task_id : String
  pub workspace : String
  pub backend : String
  pub handle : Native

pub record Observation : Type 0 where
  pub state : String
  pub exited : Bool
  pub pane_tail : String
  pub speedup : Option Float
  pub rounds : ℕ
  pub best_candidate : Option String
  pub extra : Dict

pub data Adapter : Type 0 where
  shell claude_tmux : Adapter

-- `runtime.get(name)`
unfoldable pub get_adapter : String → Result Adapter
get_adapter name =
    if name == "shell"
    then ok shell
    else if name == "claude_tmux"
    then ok claude_tmux
    else err key_error

-- `supports_remote`, true where an adapter does not say.
unfoldable pub supports_remote : Adapter → Bool
supports_remote shell = false
supports_remote claude_tmux = true
