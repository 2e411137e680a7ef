-- ===== src/Lib.antt =====
-- A model of flotilla, the control plane of this repository, in its parts and as they call one
-- another, and of the decisions of the monitors under scripts/.
--
-- Parts. flotilla/store.py keeps projects, tasks, workers, events, hosts and templates in SQLite.
-- flotilla/scheduler.py claims queued tasks from it, takes a resource (flotilla/resource/) for each,
-- starts a worker (flotilla/runtime/) and registers its handle. flotilla/observer.py reads what the
-- workers report, and flotilla/actuator.py retires them: it stops the worker, asks the evaluator
-- (flotilla/evaluator/), commits the end of the task, releases the resource and drops the handle.
-- flotilla/routes.py is the HTTP interface and flotilla/sinks/ the publication to the dashboards.
-- flotilla/app.py finds running workers again after a restart. Apart from flotilla,
-- scripts/monitor_state.py and scripts/generic_control.py watch workers in tmux panes, form an
-- observation and, on a model's verdict, paste a nudge into the pane.
--
-- Files.
--   Prelude      lists, tables of rows with a key, sorting, texts, tests on numbers
--   Result       exceptions by class; Json: Python's dicts as json reads them
--   State        flotilla/state.py: STATES, _ALLOWED (`allowed`), `transition`
--   Models       flotilla/models.py: a record for each model, and the bounds of the requests
--   Store        flotilla/store.py on the tables of flotilla/db.py: Db (rows, keys, transactions), Tasks,
--                Workers, Events, Catalog (projects, hosts, templates), each method by its name;
--                Commands: the writing methods as data, and histories of calls;
--                Integrity and Lifecycle: what every method keeps
--   SafeId       _check_id of flotilla/routes.py
--   Resource     flotilla/resource/: the registry, the CPU counter, the GPU locks of a process
--   Runtime      flotilla/runtime/: the registry, handles, and the shell adapter; Window: the names of
--                tmux windows
--   Observer     flotilla/observer.py: _map_terminal; Record: observe_and_record; Patrol:
--                observe_running; Tail: _tail_lines; Session: _session_activity
--   Evaluator    flotilla/evaluator/: the registry and the result; Pytest: what a run of pytest says
--   World        the state of a process and what it asks of the outside
--   Actuator     flotilla/actuator.py: retire with its evaluator gate; Steer: actuate
--   Sinks        flotilla/sinks/__init__.py: Status (normalize_status_record), View (_public_metadata,
--                build_task_view); flotilla/sinks/web.py: Web (boards, queues, WebSink.render)
--   Scheduler    flotilla/scheduler.py: Resolve (_resolve_dispatch), Dispatch (the second half of tick
--                and its compensation), and tick itself
--   Routes       flotilla/routes.py: Create (_validate_task_create, create_tasks), Remove (delete_task),
--                Ping (worker_ping), Control (actuate), Entries (projects, hosts, templates)
--   App          _reconcile_running of flotilla/app.py; Attached: what it attaches
--   System       the operations of all the parts as one data type, their histories, and for each part
--                what it does to the database; Lasting: what becomes of a task
--   Lines        methods of Python's texts: strip, splitlines, split
--   Monitor      scripts/monitor_state.py: Tables (the outputs of ps and nvidia-smi), Processes
--                (descendant_pids), Gpu (detect_gpu_safety), Nudge (build_monitor_actuation), Chunks,
--                Legacy (merge_legacy_feishu_rows)
--   Generic      scripts/generic_control.py: Policy (defaults and checks of the configuration), Pane,
--                Observation, Verdict, Actuation (build_generic_actuation), Remote (settings, bundle);
--                Safe and Guarded: when a nudge is sent
--   Tests        sample data, and the theorems applied to it
--
-- How state is modelled. A table is the list of its rows in the order of insertion. A transaction
-- maps a database to a result and a new database, or to an exception, after which `connection`
-- leaves the old database. SQLite serialises transactions, so threads and processes are sequences of
-- them. A call that spans several transactions takes the changes that others commit meanwhile as a
-- function (`others`), and what processes, files, the clock, adapters and evaluators answer as
-- further fields of `Outside` (of `Launch` for a start); the theorems hold for all of these.
--
-- Bounds. Loops over lists are structural recursion. Two loops of the source have no such bound and
-- run on fuel, and the theorems on them show that it suffices: descendant_pids with one round more than
-- there are processes, _tail_lines with a round for each byte of the file. Counters and ids are natural
-- numbers or integers without bound, as Python's do not wrap around.
--
-- Threads that start workers at once appear as the order in which their starts complete. An exception
-- in the middle of a call is the class of the exception and the state reached by then.
--
-- What the interpreter answers from tables of its own is a field of `Python` (`str`, `int` of a text,
-- `lower`, `upper`); shlex, base64 and datetime are fields of `Tools`.
--
-- Not modelled. Publication to the sinks from within the other parts, the Feishu sink, the event
-- stream; in flotilla/routes.py the handlers that only read; lower-casing and white space outside
-- ASCII and Latin-1. The text of SQL statements, migrations and the reading of JSON columns; errors
-- of os.open and of flock other than a lock that is held; the wording of most error messages; ssh,
-- tmux and process control; printing. Of scripts/, the making of rows for Feishu, the phases and
-- the registry of monitor_state.py, the loading of YAML files, and the other programs, which copy
-- files or run commands.
pub mod Prelude
pub mod Result
pub mod State
pub mod Json
pub mod Models
pub mod Store
pub mod SafeId
pub mod Resource
pub mod Runtime
pub mod Observer
pub mod Evaluator
pub mod Sinks
pub mod World
pub mod Actuator
pub mod Scheduler
pub mod Routes
pub mod App
pub mod System
pub mod Monitor
pub mod Lines
pub mod Generic
pub mod Tests
