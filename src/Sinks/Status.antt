-- ===== src/Sinks/Status.antt =====
-- `normalize_status_record` of flotilla/sinks/__init__.py: worker-written telemetry made safe.
use ker_sor_monitor.Prelude.{ℕ, String, Bool, true, false, Option, none, some, leb, if◌then◌else◌}
use ker_sor_monitor.Prelude.Int.{ℤ, pos}
use ker_sor_monitor.Prelude.Text.{cut}
use ker_sor_monitor.Json.{
  Float, finite, Value, null, bool, int, float, str, Dict, lookup, assign, get, truthy,
}

-- A finite float, or None.
abbrev pub finite_value : Option Float → Value
finite_value (some (finite m e)) = float (finite m e)
finite_value _ = null

-- `float(speedup)` where `float_of` is Python's conversion, with None where it overflows.
abbrev pub speedup_value : (ℤ → Option Float) → Value → Value
speedup_value float_of (int n) = finite_value (float_of n)
speedup_value float_of (float x) = finite_value (some x)
speedup_value float_of _ = null

abbrev pub counter_value : ℕ → Value → Value
counter_value maximum (int (pos n)) = if leb n maximum then int (pos n) else int (pos 0)
counter_value maximum _ = int (pos 0)

-- One round of the loop over the counters; a counter that the source has not stays away.
unfoldable pub bound_counter : Dict → String → ℕ → Dict → Dict
bound_counter source key maximum result = elim (lookup key source) [
  | none ↦ result
  | some v ↦ assign key (counter_value maximum v) result
]

abbrev pub text_value : ℕ → Bool → Value → Value
text_value limit nullable (str s) = str (cut limit s)
text_value limit nullable _ = if nullable then null else str ""

-- One round of the loop over `string_limits`.
unfoldable pub bound_text : Dict → String → ℕ → Bool → Dict → Dict
bound_text source key limit nullable result =
    assign key (text_value limit nullable (get key source)) result

abbrev pub bound_counters : Dict → Dict → Dict
bound_counters source result =
    bound_counter source "tokens" 1000000000000000
      (bound_counter source "candidates" 10000000 (bound_counter source "rounds" 10000000 result))

abbrev pub bound_texts : Dict → Dict → Dict
bound_texts source result = bound_text source "source" 128 true (
    bound_text source "last_tool" 256 true (
      bound_text source "last_activity" 2048 false (
        bound_text source "session_uuid" 256 true (
          bound_text source "pane_tail" 16384 false (
            bound_text source "timestamp" 128 false (
              bound_text source "best_candidate" 1024 true
                (bound_text source "status_state" 64 true result)))))))

unfoldable pub normalize_status_record : (ℤ → Option Float) → Dict → Dict
normalize_status_record float_of source = assign "exited" (bool (truthy (get "exited" source))) (
    bound_texts source (
      bound_counters source
        (assign "speedup" (speedup_value float_of (get "speedup" source)) source)))
