-- ===== src/Observer/Case.antt =====
-- The letter case of the state that a worker writes to status.json, under flotilla/observer.py.
use ker_sor_monitor.Prelude.{ℕ, String, ◌≡◌, Bool, true, false, Option, some, arith, if◌then◌else◌}
use ker_sor_monitor.Prelude.Int.{ℤ, pos}
use ker_sor_monitor.Prelude.Text.{cut}
use ker_sor_monitor.Result.{ok}
use ker_sor_monitor.State.{State, failed}
use ker_sor_monitor.Json.{truthy, Float, bool, str, Dict, lookup, assign}
use ker_sor_monitor.Runtime.Shell.{observe}
use ker_sor_monitor.Sinks.Status.{normalize_status_record}
use ker_sor_monitor.Sinks.Bounded.{looked_up}
use ker_sor_monitor.Observer.{is_in, success_status, stuck_status, failed_status, map_terminal}
use ker_sor_monitor.Observer.Record.{local_record, declares_end}
use ker_sor_monitor.Observer.Patrol.{terminal_of}

-- The end that the patrol reads from a local shell worker which has exited with code 0.
abbrev pub end_of : (ℤ → Option Float) → Dict → ℕ → String → Option State
end_of f status n tail =
    let (rec, exited) = local_record status n (ok (observe (some (pos 0)) tail)) in
    terminal_of (normalize_status_record f (assign "exited" (bool exited) rec))

-- A worker that has exited with code 0 is FAILED if the state in its status.json is the name of an
-- end in other letters than lower-case ones.
pub cased_end_fails :
    (f : ℤ → Option Float) (status : Dict) (n : ℕ) (tail s : String)
    → lookup "state" status ≡ some (str s)
    → declares_end (str s) ≡ true
    → is_in (some (cut 64 s)) success_status ≡ false
    → is_in (some (cut 64 s)) stuck_status ≡ false
    → end_of f status n tail ≡ some failed
unfolding terminal_of normalize_status_record local_record observe map_terminal lookup assign truthy
cased_end_fails f status n tail s h e a b =
    simp (looked_up, h) (rw (e, a, b) (same (is_in (some (cut 64 s)) failed_status)))
  where
    same : (c : Bool) → (if c then some failed else some failed) ≡ some failed
    same c = ground arith
