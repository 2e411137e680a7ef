-- ===== src/Tests/Monitors.antt =====
-- The theorems on the monitors of scripts/, at sample data.
use ker_sor_monitor.Prelude.{
  ℕ, ◌≤◌, ◌<◌, ◌≡◌, refl, ◌↔◌, ◌⊎◌, true, false, some, none, List, [], ◌∷◌, ◌++◌, length, min,
  arith, All, concat, ◌==◌,
}
use ker_sor_monitor.Prelude.Int.{ℤ, pos}
use ker_sor_monitor.Result.{ok}
use ker_sor_monitor.Json.{null, str, Dict, truthy, lookup}
use ker_sor_monitor.Observer.Tail.{tail_bytes, newlines_in, tail_bytes_lem}
use ker_sor_monitor.Monitor.Processes.{Process, elem, descendant_pids, Descends}
use ker_sor_monitor.Monitor.Processes.Descent.{descendant_pids_exact}
use ker_sor_monitor.Monitor.Chunks.{chunked_rows, chunked_rows_lem}
use ker_sor_monitor.Monitor.Legacy.{Merge, row_at, add_legacies}
use ker_sor_monitor.Monitor.Legacy.Kept.{merge_keeps}
use ker_sor_monitor.Monitor.Gpu.{
  GpuApp, LockStatus, detect_gpu_safety, IsSafe, detect_gpu_safety-IsSafe,
}
use ker_sor_monitor.Tests.Nudges.{py}
use ker_sor_monitor.Generic.Remote.{safe_filename, IsFilename, safe_filename-IsFilename}

abbrev log : List ℕ
log = 97 ∷ 10 ∷ 98 ∷ 10 ∷ []

tail_bytes_lem_example :
    (before bytes : List ℕ) × (tail_bytes log 1 100 ≡ some bytes)
    × (before ++ bytes ≡ log)
    × (length bytes ≤ 100)
    × ((length bytes ≡ min 100 (length log)) ⊎ (1 < newlines_in bytes))
tail_bytes_lem_example = tail_bytes_lem log 1 100 (omega arith)

-- Two processes that are each other's parent, and one that is apart.
abbrev processes : List Process
processes =
    record { pid = pos 2; ppid = pos 1; command = "ncu run" }
    ∷ record { pid = pos 1; ppid = pos 2; command = "bash" }
    ∷ record { pid = pos 9; ppid = pos 8; command = "vim" }
    ∷ []

descendant_pids_exact_example :
    (out : List ℤ) × (descendant_pids (some (pos 1)) processes ≡ some out)
    × ((q : ℤ) → (elem q out ≡ true) ↔ Descends processes (pos 1) q)
descendant_pids_exact_example = descendant_pids_exact processes (pos 1)

descendants_of_one : descendant_pids (some (pos 1)) processes ≡ some (pos 2 ∷ pos 1 ∷ [])
unfolding descendant_pids
descendants_of_one = refl

chunked_rows_lem_example :
    (chunks : List (List ℕ)) × (chunked_rows (1 ∷ 2 ∷ 3 ∷ []) 2 ≡ ok chunks)
    × (concat chunks ≡ 1 ∷ 2 ∷ 3 ∷ [])
    × All (λ xs. (0 < length xs) × (length xs ≤ 2)) chunks
chunked_rows_lem_example = chunked_rows_lem (1 ∷ 2 ∷ 3 ∷ []) 2 (omega arith)

abbrev apps : List GpuApp
apps =
    record {
      gpu_uuid = "gpu-a";
      pid = some (pos 2);
      process_name = "python";
      used_memory_mb = none;
    }
    ∷ []

abbrev lock : LockStatus
lock = record { exists = true; age_seconds = some (pos 10); pids = pos 1 ∷ [] }

detect_gpu_safety-IsSafe_example :
    ((detect_gpu_safety "gpu-a" (pos 1 ∷ pos 2 ∷ []) apps processes lock (pos 7200)).ok ≡ true)
    ↔ IsSafe "gpu-a" (pos 1 ∷ pos 2 ∷ []) apps processes lock (pos 7200)
detect_gpu_safety-IsSafe_example =
    detect_gpu_safety-IsSafe "gpu-a" (pos 1 ∷ pos 2 ∷ []) apps processes lock (pos 7200)

safe_filename-IsFilename_example :
    IsFilename (safe_filename "--a b/../c") × ((safe_filename "--a b/../c" == "") ≡ false)
safe_filename-IsFilename_example = safe_filename-IsFilename "--a b/../c"

abbrev present : Dict
present =
    ("Task ID", str "FI-007")
    ∷ ("Status", str "running")
    ∷ ("Speedup", null)
    ∷ ("MFU", str "0.4")
    ∷ []

abbrev legacy_row : Dict
legacy_row =
    ("Task ID", str "7") ∷ ("Status", str "done") ∷ ("Speedup", str "1.5") ∷ ("MFU", str "0.1") ∷ []

abbrev present_rows : Merge
present_rows = record { order = "FI-007" ∷ []; merged = ("FI-007", present) ∷ [] }

merge_keeps_example :
    (row : Dict) × (row_at "FI-007"
        (add_legacies py (("FI-007", "FI-007") ∷ []) present_rows (legacy_row ∷ [])).merged
      ≡ some row)
    × (lookup "MFU" row ≡ lookup "MFU" present)
unfolding row_at lookup truthy
merge_keeps_example =
    merge_keeps py (("FI-007", "FI-007") ∷ []) present_rows (legacy_row ∷ []) "FI-007" present "MFU"
      refl refl refl refl
