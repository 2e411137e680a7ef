-- ===== src/Tests/Effects.antt =====
-- The theorems on identifiers, locks, observations and retirement at sample data.
use ker_sor_monitor.Evaluator.Pytest.{Run, evaluate}
use ker_sor_monitor.Json.{finite, Dict, int, str, lookup}
use ker_sor_monitor.Prelude.{
  ℕ, zero, suc, ◌+◌, ◌-◌, ◌*◌, ◌^◌, ◌≤◌, ◌<◌, min, max, String, ◌≡◌, refl, sym, ap, ◌∙◌, ◌≢◌, ◌↔◌,
  ◌⊎◌, inl, inr, Bool, true, false, not, ◌&&◌, ◌||◌, Option, none, some, List, [], ◌∷◌, ◌++◌, map,
  foldl, arith, ◌==◌, eq_iff, eq_refl, ltb, leb, nat_beq, if◌then◌else◌, Bool-cases, Option-cases,
  is_some, or_else, length, take, drop, count_if, filter_if, any_of, All,
}
use ker_sor_monitor.Prelude.Text.{codes, cut, last}
use ker_sor_monitor.Prelude.Rows.{has}
use ker_sor_monitor.Prelude.Int.{ℤ, negsuc, pos}
use ker_sor_monitor.State.{done, failed, is}
use ker_sor_monitor.SafeId.{is_safe_id, is_safe_id-IsInert, IsInert}
use ker_sor_monitor.Resource.{gpu_take}
use ker_sor_monitor.Resource.Exclusion.{take_lock, give_back, run, releases, granted_once}
use ker_sor_monitor.Observer.{has_end_marker}
use ker_sor_monitor.Observer.Terminal.{shell_end, shell_verdict, declared_end, exit_verdict}
use ker_sor_monitor.Actuator.{retire}
use ker_sor_monitor.Actuator.Retire.{retire_completes, IsRetired}
use ker_sor_monitor.Actuator.Gate.{done_is_evaluated, Approved}
use ker_sor_monitor.Tests.Samples.{world, fair, no_locks}

is_safe_id-IsInert_example :
    (1 ≤ length (codes "task_1.a"))
    × (length (codes "task_1.a") ≤ 128)
    × All IsInert (codes "task_1.a")
unfolding is_safe_id
is_safe_id-IsInert_example = is_safe_id-IsInert "task_1.a" refl

granted_once_example :
    gpu_take "gpu-a" "w2" true 8 (
      run
        (take_lock "gpu-b" "w3" true 7 ∷ give_back "gpu-b" ∷ [])
        (gpu_take "gpu-a" "w1" true 6 no_locks).1)
    ≡ (
      none,
      run
          (take_lock "gpu-b" "w3" true 7 ∷ give_back "gpu-b" ∷ [])
          (gpu_take "gpu-a" "w1" true 6 no_locks).1,
    )
unfolding gpu_take has releases
granted_once_example =
    granted_once "gpu-a" "w1" "w2" true true 6 8
      (take_lock "gpu-b" "w3" true 7 ∷ give_back "gpu-b" ∷ []) no_locks refl refl

abbrev quiet_status : Dict
quiet_status = ("state", str "Working") ∷ ("rounds", int (pos 3)) ∷ []

shell_verdict_example :
    ((code : ℤ)
      → shell_end (λ n. none) (some code) quiet_status 2 "TASK_DONE" ≡ some (exit_verdict code))
    × (shell_end (λ n. none) none quiet_status 2 "TASK_DONE"
        ≡ (if has_end_marker (cut 16384 (last 300 "TASK_DONE")) then some done else none))
unfolding lookup
shell_verdict_example = shell_verdict (λ n. none) quiet_status 2 "TASK_DONE" refl

declared_end_example :
    shell_end (λ n. none) (some (negsuc 8)) (("state", str "promoted") ∷ []) 2 "killed" ≡ some done
unfolding lookup
declared_end_example =
    declared_end (λ n. none) (("state", str "promoted") ∷ []) 2 "killed" (some (negsuc 8))
      "promoted" done refl refl

retire_completes_example :
    IsRetired "c" (some "w_c") done (retire fair "c" (some "w_c") (some done) true world).1
unfolding retire ker_sor_monitor.Prelude.Rows.find ker_sor_monitor.Store.Db.connection
    ker_sor_monitor.Store.Tasks.finish_worker ker_sor_monitor.Runtime.get_adapter
    ker_sor_monitor.State.move ker_sor_monitor.Evaluator.get_evaluator has
    ker_sor_monitor.Prelude.Rows.update
retire_completes_example =
    retire_completes fair "c" (some "w_c") done done true world
      (retire fair "c" (some "w_c") (some done) true world).1 refl refl

done_is_evaluated_example : Approved fair "c" world
unfolding retire ker_sor_monitor.Prelude.Rows.find ker_sor_monitor.Store.Db.connection
    ker_sor_monitor.Store.Tasks.finish_worker ker_sor_monitor.Runtime.get_adapter
    ker_sor_monitor.State.move ker_sor_monitor.Evaluator.get_evaluator has
    ker_sor_monitor.Prelude.Rows.update
done_is_evaluated_example =
    done_is_evaluated fair "c" (some "w_c") done true world
      (retire fair "c" (some "w_c") (some done) true world).1 refl refl

abbrev pytest_run : Run
pytest_run = record {
  timed_out = false;
  returncode = pos 1;
  output = "..F\n1 failed, 12 passed in 0.5s\n";
  divide = λ p n. finite (pos p) (pos n);
  limit = "600";
}

scored : (evaluate pytest_run).score ≡ finite (pos 12) (pos 13)
unfolding evaluate ker_sor_monitor.Lines.splitlines ker_sor_monitor.Prelude.Text.contains_text
    ker_sor_monitor.Prelude.Text.join
scored = refl
