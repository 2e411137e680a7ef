-- ===== src/Monitor/Tables.antt =====
-- `parse_process_table` and `parse_nvidia_smi_compute_apps` of scripts/monitor_state.py.
use ker_sor_monitor.Prelude.{
  String, Option, none, some, List, [], ◌∷◌, ◌++◌, ◌==◌, if◌then◌else◌, map,
}
use ker_sor_monitor.Prelude.Int.{ℤ}
use ker_sor_monitor.Prelude.Rows.{one}
use ker_sor_monitor.Result.{Result, ok, err}
use ker_sor_monitor.Json.{str}
use ker_sor_monitor.Lines.{strip, strip_front, splitlines, word, split}
use ker_sor_monitor.Generic.Values.{Python}
use ker_sor_monitor.Monitor.Processes.{Process}
use ker_sor_monitor.Monitor.Gpu.{GpuApp}

abbrev number_or_none : Result ℤ → Option ℤ
number_or_none (ok n) = some n
number_or_none (err e) = none

-- `parse_int`, of a text
abbrev pub parse_int : Python → String → Option ℤ
parse_int py s = if s == "" then none else number_or_none (py.number (str s))

abbrev process_row : Option ℤ → Option ℤ → String → Option Process
process_row (some pid) (some ppid) command =
    some (record { pid = pid; ppid = ppid; command = command })
process_row _ _ command = none

-- A line of `ps`: a pid, the pid of the parent, and the command.
abbrev pub process_of : Python → String → Option Process
process_of py line =
    let (first, after) = word (strip line) in
    let (second, rest) = word (strip_front after) in
    if strip line == ""
    then none
    else if strip_front after == ""
    then none
    else process_row (parse_int py first) (parse_int py second) (strip_front rest)

abbrev processes_of : Python → List String → List Process
processes_of py [] = []
processes_of py (line ∷ lines) = one (process_of py line) ++ processes_of py lines

unfoldable pub parse_process_table : Python → String → List Process
parse_process_table py text = processes_of py (splitlines text)

abbrev app_of_parts : Python → List String → Option GpuApp
app_of_parts py (uuid ∷ pid ∷ name ∷ []) =
    some (record {
      gpu_uuid = uuid;
      pid = parse_int py pid;
      process_name = name;
      used_memory_mb = none;
    })
app_of_parts py (uuid ∷ pid ∷ name ∷ memory ∷ more) = some (record {
  gpu_uuid = uuid;
  pid = parse_int py pid;
  process_name = name;
  used_memory_mb = parse_int py memory;
})
app_of_parts py _ = none

abbrev pub app_of : Python → String → Option GpuApp
app_of py line =
    if strip line == "" then none else app_of_parts py (map strip (split b',' (strip line)))

abbrev apps_of : Python → List String → List GpuApp
apps_of py [] = []
apps_of py (line ∷ lines) = one (app_of py line) ++ apps_of py lines

unfoldable pub parse_nvidia_smi_compute_apps : Python → String → List GpuApp
parse_nvidia_smi_compute_apps py text = apps_of py (splitlines text)
