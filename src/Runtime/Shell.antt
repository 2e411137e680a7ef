-- ===== src/Runtime/Shell.antt =====
-- flotilla/runtime/shell.py: what `start` accepts and what `observe` reports. The process and its
-- log belong to the operating system: the exit code and the tail of the log are arguments.
use ker_sor_monitor.Prelude.{
  ℕ, zero, String, Bool, true, false, not, ◌&&◌, ◌||◌, Option, none, some, List, [], ◌∷◌, leb,
  nat_beq, if◌then◌else◌, ◌==◌,
}
use ker_sor_monitor.Prelude.Int.{ℤ, pos}
use ker_sor_monitor.Prelude.Text.{codes}
use ker_sor_monitor.Result.{Result, ok, err, value_error}
use ker_sor_monitor.Json.{Value, Dict, null, int, str, get}
use ker_sor_monitor.Runtime.{WorkerHandle, Observation, process}

-- The white space of `str.strip`, in ASCII and Latin-1.
abbrev pub is_space : ℕ → Bool
is_space c = (leb 9 c && leb c 13) || (leb 28 c && leb c 32) || nat_beq c 133 || nat_beq c 160

abbrev pub all_space : List ℕ → Bool
all_space [] = true
all_space (c ∷ cs) = is_space c && all_space cs

-- `not command.strip()`
unfoldable pub is_blank : String → Bool
is_blank s = all_space (codes s)

-- `command or (metadata or {}).get("command")`; the scheduler passes no command of its own.
unfoldable pub chosen_command : Value → Result String
chosen_command (str s) = if is_blank s then err value_error else ok s
chosen_command _ = err value_error

-- `if host:`
abbrev pub is_given : Option String → Bool
is_given none = false
is_given (some s) = not (s == "")

abbrev on_command : String → String → ℕ → Result String → Result WorkerHandle
on_command task_id workspace pid (ok c) =
    ok
      (record { task_id = task_id; workspace = workspace; backend = "shell"; handle = process pid })
on_command task_id workspace pid (err e) = err e

-- `start`, with the process that the operating system makes.
unfoldable pub start : String → String → Option String → Dict → ℕ → Result WorkerHandle
unfolding chosen_command
start task_id workspace host metadata pid =
    if is_given host
    then err value_error
    else on_command task_id workspace pid (chosen_command (get "command" metadata))

abbrev exit_state : Option ℤ → String
exit_state none = "running"
exit_state (some (pos zero)) = "complete"
exit_state (some _) = "abandoned"

abbrev exit_value : Option ℤ → Value
exit_value none = null
exit_value (some c) = int c

abbrev has_exited : Option ℤ → Bool
has_exited none = false
has_exited (some _) = true

-- `observe`, from what `poll` returns and the last 800 characters of the log.
unfoldable pub observe : Option ℤ → String → Observation
observe code tail = record {
  state = exit_state code;
  exited = has_exited code;
  pane_tail = tail;
  speedup = none;
  rounds = 0;
  best_candidate = none;
  extra = ("returncode", exit_value code) ∷ [];
}
