-- ===== src/Tests/Samples.antt =====
-- Sample data for the tests.
use ker_sor_monitor.Prelude.{String, true, none, some, [], ◌∷◌, false}
use ker_sor_monitor.Prelude.Int.{pos}
use ker_sor_monitor.Result.{ok, err, other_error}
use ker_sor_monitor.State.{State, queued, running, dispatching}
use ker_sor_monitor.Json.{str, finite, Dict, int, float, nan}
use ker_sor_monitor.Models.{Project, Task, Worker, Event, TaskCreate}
use ker_sor_monitor.Runtime.{WorkerHandle, process, shell}
use ker_sor_monitor.Resource.{Resources}
use ker_sor_monitor.Store.Db.{Db}
use ker_sor_monitor.World.{World, Outside, Seen}
use ker_sor_monitor.Runtime.Shell.{observe}
use ker_sor_monitor.Routes.Create.{Policy}
use ker_sor_monitor.Scheduler.Resolve.{Launch, Prepared}

abbrev pub project : Project
project = record {
  id = "demo";
  name = "Demo";
  config = [];
  feishu_base = none;
  feishu_table = none;
  created_at = "2026-01-01T00:00:00.5Z";
}

abbrev pub task_at : String → State → String → Task
task_at id state updated = record {
  id = id;
  project_id = "demo";
  name = id;
  spec = "write tests";
  state = state;
  workspace_path = some "/ws";
  runtime = "shell";
  target_host = none;
  resource_req = [];
  evaluator = some "pytest";
  owner = none;
  metadata = ("command", str "make test") ∷ [];
  created_at = updated;
  updated_at = updated;
}

abbrev pub earlier : Task
earlier = task_at "a" queued "2026-01-01T00:00:01.5Z"

abbrev pub second : Task
second = task_at "b" queued "2026-01-01T00:00:02.5Z"

abbrev pub live : Task
live = task_at "c" running "2026-01-01T00:00:00.7Z"

abbrev pub worker : Worker
worker = record {
  id = "w_c";
  task_id = "c";
  status = "running";
  session_handle = none;
  session_uuid = none;
  pane_id = none;
  pid = some 42;
  resource_lock_id = none;
  started_at = "2026-01-01T00:00:00.7Z";
  ended_at = none;
  extra = [];
}

abbrev pub live_report : Event
live_report = record {
  task_id = "c";
  type = "status";
  payload = ("status_state", str "running") ∷ [];
  ts = "2026-01-01T00:00:03.5Z";
}

abbrev pub db : Db
db = record {
  projects = project ∷ [];
  tasks = second ∷ earlier ∷ live ∷ [];
  workers = worker ∷ [];
  locks = record { id = "lock-1"; worker_id = "w_c" } ∷ [];
  events = record { id = 1; event = live_report } ∷ [];
  next_event = 2;
  hosts = [];
  templates = [];
}

abbrev pub later : String
later = "2026-01-01T00:00:09.5Z"

abbrev pub handle : WorkerHandle
handle = record { task_id = "c"; workspace = "/ws"; backend = "shell"; handle = process 42 }

abbrev pub no_locks : Resources
no_locks = record { cpu_count = 0; cpu_counter = 0; held = [] }

abbrev pub world : World
world = record {
  db = db;
  handles = record { task_id = "c"; worker_id = "w_c"; handle = handle } ∷ [];
  retiring = [];
  resources = no_locks;
}

-- The command has exited with code 0.
abbrev pub seen : Seen
seen = record {
  observed = ok (observe (some (pos 0)) "all good");
  status = [];
  candidates = 0;
  mined = ok none;
  activity = λ u. none;
}

-- The worker stops, and its tests pass.
abbrev pub fair : Outside
fair = record {
  now = later;
  retention = 2;
  message = λ e. "failed";
  stop = λ h. ok tt;
  paste = λ h t. ok tt;
  control = λ a m. none;
  see = λ h. seen;
  float_of = λ n. some (finite n (pos 0));
  is_dir = λ p. true;
  evaluate = λ t p. ok (record {
    evaluator = "pytest";
    passed = true;
    score = finite (pos 1) (pos 0);
    detail = "3 passed";
    artifacts = [];
  });
  others = λ d. d;
}

-- A GPU task that is being dispatched, and a host that always starts it.
abbrev pub claimed : Task
claimed = record (task_at "d" dispatching "2026-01-01T00:00:03.5Z") {
  resource_req = ("kind", str "gpu") ∷ ("uuid", str "gpu-a") ∷ [];
}

abbrev pub claimed_world : World
claimed_world = record {
  db = record db { tasks = claimed ∷ [] };
  handles = [];
  retiring = [];
  resources = no_locks;
}

abbrev pub started : WorkerHandle
started = record { task_id = "d"; workspace = "/root/ws_d"; backend = "shell"; handle = process 7 }

abbrev pub launch : Launch
launch = record {
  max_workers = 2;
  root = "/root";
  worker_id = λ t. "w_d";
  flock = λ t. (true, 5);
  start = λ rt t ws h l. ok started;
}

-- The process cannot be started.
abbrev pub refusing : Launch
refusing = record launch { start = λ rt t ws h l. err other_error }

abbrev pub dispatch : Prepared
dispatch = record {
  task = claimed;
  worker_id = "w_d";
  rt = shell;
  ws_path = "/root/ws_d";
  ssh_host = none;
  lock = some (record { resource_id = "gpu-a"; worker_id = "w_d"; handle = 5 });
}

abbrev pub telemetry : Dict
telemetry =
    ("state", str "running")
    ∷ ("rounds", int (pos 3))
    ∷ ("speedup", float nan)
    ∷ ("exited", str "yes")
    ∷ []

abbrev pub policy : Policy
policy = record { allow_boot_command = false; allow_shell_runtime = true; json_length = λ d. 40 }

abbrev pub request : TaskCreate
request = record {
  id = "e";
  name = "e";
  spec = "s";
  runtime = "shell";
  target_host = none;
  resource_req = ("kind", str "gpu") ∷ ("uuid", str "gpu-a") ∷ [];
  evaluator = some "pytest";
  owner = none;
  metadata = ("command", str "make") ∷ [];
}
