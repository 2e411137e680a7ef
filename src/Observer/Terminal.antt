-- ===== src/Observer/Terminal.antt =====
-- What the report of a local shell worker is read as, through `observe` of flotilla/runtime/shell.py,
-- `observe_and_record` and `_map_terminal` of flotilla/observer.py.
use ker_sor_monitor.Prelude.{
  ℕ, zero, suc, String, ◌≡◌, inl, inr, false, Option, none, some, arith, if◌then◌else◌, sym, eq_iff,
  ◌==◌, Bool-cases, List, [], ◌∷◌, All,
}
use mathlib.Core.Path.{subst}
use ker_sor_monitor.Prelude.Int.{ℤ, pos, negsuc}
use ker_sor_monitor.Prelude.Text.{cut, last}
use ker_sor_monitor.Result.{ok}
use ker_sor_monitor.State.{State, done, stuck, failed}
use ker_sor_monitor.Json.{truthy, Float, bool, str, Dict, get, lookup, assign}
use ker_sor_monitor.Runtime.Shell.{observe}
use ker_sor_monitor.Sinks.Status.{normalize_status_record}
use ker_sor_monitor.Sinks.Bounded.{looked_up}
use ker_sor_monitor.Observer.{map_terminal, has_end_marker}
use ker_sor_monitor.Observer.Record.{local_record, declares_end}
use ker_sor_monitor.Observer.Patrol.{terminal_of}

-- The end that the patrol reads from a local shell worker.
abbrev pub shell_end : (ℤ → Option Float) → Option ℤ → Dict → ℕ → String → Option State
shell_end f code status n tail =
    let (rec, exited) = local_record status n (ok (observe code tail)) in
    terminal_of (normalize_status_record f (assign "exited" (bool exited) rec))

-- What the exit code of a shell command says.
abbrev pub exit_verdict : ℤ → State
exit_verdict (pos zero) = done
exit_verdict (pos (suc _)) = failed
exit_verdict (negsuc _) = failed

-- The states by which a worker ends its task, and the ends that they stand for.
abbrev pub ends : List (String × State)
ends =
    ("promoted", done)
    ∷ ("complete", done)
    ∷ ("archived", done)
    ∷ ("stuck", stuck)
    ∷ ("stalled", stuck)
    ∷ ("abandoned", failed)
    ∷ ("failed", failed)
    ∷ ("crashed", failed)
    ∷ []

abbrev pub end_named : String → List (String × State) → Option State
end_named s [] = none
end_named s ((t, e) ∷ rows) = if t == s then some e else end_named s rows

module _ (f : ℤ → Option Float) (status : Dict) (n : ℕ) (tail : String) where
  -- A local shell worker whose status.json declares no end, in letters of either case, is read so: if its
  -- process has exited, as DONE with code 0 and as FAILED with any other code; while it runs, as DONE if
  -- the last 300 characters of its log show an end marker, and as no end otherwise.
  pub shell_verdict :
      declares_end (get "state" status) ≡ false
      → ((code : ℤ) → shell_end f (some code) status n tail ≡ some (exit_verdict code))
        × (shell_end f none status n tail
            ≡ (if has_end_marker (cut 16384 (last 300 tail)) then some done else none))
  unfolding terminal_of normalize_status_record local_record observe map_terminal lookup assign
      truthy cut
  shell_verdict h = (exited, rw h (simp looked_up))
    where
      exited : (code : ℤ) → shell_end f (some code) status n tail ≡ some (exit_verdict code)
      exited (pos zero) = rw h (simp looked_up)
      exited (pos (suc k)) = rw h (simp looked_up)
      exited (negsuc k) = rw h (simp looked_up)

  named_end :
      All
        (λ (p : String × State).
          (code : Option ℤ)
          → lookup "state" status ≡ some (str p.0)
          → shell_end f code status n tail ≡ some p.1)
        ends
  unfolding terminal_of normalize_status_record local_record observe map_terminal lookup assign
      truthy cut
  named_end = (
    λ code h. simp (looked_up, h),
    (
      λ code h. simp (looked_up, h),
      (
        λ code h. simp (looked_up, h),
        (
          λ code h. simp (looked_up, h),
          (
            λ code h. simp (looked_up, h),
            (
              λ code h. simp (looked_up, h),
              (λ code h. simp (looked_up, h), (λ code h. simp (looked_up, h), tt)),
            ),
          ),
        ),
      ),
    ),
  )

  -- A local shell worker whose status.json declares an end by one of the eight names, in lower-case letters,
  -- is read as that end, whether its process runs or has exited and whatever its exit code and its log say.
  pub declared_end :
      (code : Option ℤ) (s : String) (e : State)
      → end_named s ends ≡ some e
      → lookup "state" status ≡ some (str s)
      → shell_end f code status n tail ≡ some e
  declared_end code s e = named_row ends named_end s e
    where
      named_row :
          (rows : List (String × State))
          → All
              (λ (p : String × State).
                (code : Option ℤ)
                → lookup "state" status ≡ some (str p.0)
                → shell_end f code status n tail ≡ some p.1)
              rows
          → (s : String) (e : State) → end_named s rows ≡ some e
          → lookup "state" status ≡ some (str s)
          → shell_end f code status n tail ≡ some e
      named_row [] all s e found given = cc
      named_row ((t, d) ∷ rows) all s e found given = elim (Bool-cases (t == s)) [
        | inl here ↦
            let same : t ≡ s = (eq_iff t s).0 here in
            let is_it : d ≡ e = ground (arith, rw here at found) in
            subst (λ x. shell_end f code status n tail ≡ some x) is_it
              (all.0 code (subst (λ x. lookup "state" status ≡ some (str x)) (sym same) given))
        | inr other ↦ named_row rows all.1 s e (rw other at found) given
      ]
