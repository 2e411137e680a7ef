-- ===== src/Generic/Safe.antt =====
-- When `build_generic_actuation` of scripts/generic_control.py sends a nudge.
use ker_sor_monitor.Prelude.{
  ◌≡◌, refl, String, Bool, true, false, not, ◌||◌, Option, ◌==◌, Bool-cases, inl, inr, arith, ◌⊎◌,
  ap, ◌∙◌,
}
use mathlib.Core.Path.{subst}
use ker_sor_monitor.Prelude.Int.{ℤ, pos}
use ker_sor_monitor.Result.{Result, ok, bind_ok, ok-inj}
use ker_sor_monitor.Json.{Value, bool, int, str, Dict, get, get_or, truthy, or_value}
use ker_sor_monitor.Generic.Values.{Python, to_int, dict_or_empty}
use ker_sor_monitor.Generic.Verdict.{Verdict, validate_generic_verdict}
use ker_sor_monitor.Generic.Policy.{generic_worker}
use ker_sor_monitor.Generic.Actuation.{
  Tools, Action, Subject, blocked, cleared, guard, id_text, seconds_since_iso, too_soon, is_active,
  rested, is_working, moved, tested, command_for, key_text, build_generic_actuation,
}

-- What holds when an action sends its nudge.
pub record IsClear (py : Python) (tools : Tools) (workers observation : Dict) (verdict : Value)
    (now transport : String) (a : Action) : Type 0 where
  -- the verdict and the parts of the observation that have been read
  pub v : Verdict
  pub seen : Dict
  pub worker : Dict
  pub policy : Dict
  pub activity : Dict
  pub monitor : Dict
  pub configured : String
  pub elapsed : Option ℤ
  pub cooldown : ℤ
  pub v_is : validate_generic_verdict py verdict ≡ ok v
  pub seen_is : dict_or_empty (get "worker" observation) ≡ ok seen
  pub worker_is : generic_worker workers a.worker_id ≡ ok worker
  pub policy_is : dict_or_empty (get "policy" observation) ≡ ok policy
  pub activity_is : dict_or_empty (get "activity_signals" observation) ≡ ok activity
  pub monitor_is : dict_or_empty (get "monitor" observation) ≡ ok monitor
  pub configured_is :
      id_text (or_value (get "configured_pane_id" seen) (get "pane_id" worker)) ≡ ok configured
  pub elapsed_is :
      seconds_since_iso tools now
        (or_value (get "last_nudge_at" monitor) (get "last_nudge_at" worker))
      ≡ ok elapsed
  pub cooldown_is : to_int py (get_or "cooldown_seconds" (int (pos 0)) policy) ≡ ok cooldown
  -- what is sent
  pub message : a.message ≡ v.nudge
  pub command : command_for tools worker transport a.pane_id v.nudge ≡ ok a.command
  -- the tests
  pub writable : truthy (get_or "read_only" (bool false) seen) ≡ false
  pub enabled : truthy (get_or "actuation_enabled" (bool false) policy) ≡ true
  pub active : is_active py policy ≡ true
  pub no_human : v.needs_human ≡ false
  pub nudges : (v.nudge == "") ≡ false
  pub has_pane : (a.pane_id == "") ≡ false
  pub same_pane : ((configured == "") || (a.pane_id == configured)) ≡ true
  pub idle :
      (truthy (get_or "require_idle" (bool true) policy) ≡ false)
      ⊎ (truthy (get_or "idle" (bool false) activity) ≡ true)
  pub cooled : too_soon elapsed cooldown ≡ false

-- An early return does not send.
passed :
    (stop : Bool) (s : Subject) (reason : String) (rest : Result Action) (a : Action)
    → guard stop s reason rest ≡ ok a
    → a.will_send ≡ true
    → (stop ≡ false) × (rest ≡ ok a)
passed false s reason rest a h sends = (refl, h)
passed true s reason rest a h sends =
    let same : blocked s reason ≡ a = ok-inj (blocked s reason) a h in
    let no : false ≡ true = ap Action.will_send same ∙ sends in cc

not-false : (b : Bool) → not b ≡ false → b ≡ true
not-false b h = ground (arith, h)

not_moved :
    (configured pane : String)
    → moved configured pane ≡ false
    → ((configured == "") || (pane == configured)) ≡ true
not_moved configured pane h = ground (arith, h)

busy_no :
    (policy activity : Dict)
    → is_working policy activity ≡ false
    → (truthy (get_or "require_idle" (bool true) policy) ≡ false)
      ⊎ (truthy (get_or "idle" (bool false) activity) ≡ true)
busy_no policy activity h = elim (Bool-cases (truthy (get_or "require_idle" (bool true) policy))) [
  | inr e ↦ inl e
  | inl e ↦ inr (ground (arith, h, e))
]

-- Where a nudge is sent, the caller has asked for it, the worker is not read-only, the policy is enabled
-- and active, the verdict has a nudge and asks for no human, the pane is there and is the configured one,
-- the worker is idle where that is required, and the pause since the last nudge is over.
pub sends-IsClear :
    (py : Python) (tools : Tools) (workers observation : Dict) (verdict : Value) (send : Bool)
    (now transport : String) (a : Action)
    → build_generic_actuation py tools workers observation verdict send now transport ≡ ok a
    → a.will_send ≡ true
    → (send ≡ true) × IsClear py tools workers observation verdict now transport a
unfolding build_generic_actuation
sends-IsClear py tools workers observation verdict send now transport a h sends =
    let (v, e1, h1) = bind_ok (validate_generic_verdict py verdict) _ a h in
    let (seen, e2, h2) = bind_ok (dict_or_empty (get "worker" observation)) _ a h1 in
    let (wid, e3, h3) = bind_ok (key_text (get_or "id" (str "") seen)) _ a h2 in
    let (worker, e4, h4) = bind_ok (generic_worker workers wid) _ a h3 in
    let (policy, e5, h5) = bind_ok (dict_or_empty (get "policy" observation)) _ a h4 in
    let (activity, e6, h6) = bind_ok (dict_or_empty (get "activity_signals" observation)) _ a h5 in
    let (identity, e7, h7) = bind_ok (dict_or_empty (get "identity" seen)) _ a h6 in
    let (tmux, e8, h8) = bind_ok (dict_or_empty (get "tmux" observation)) _ a h7 in
    let (pane, e9, h9) =
      bind_ok (id_text (or_value (get "pane_id" identity) (get "pane_id" tmux))) _ a h8 in
    let (configured, e10, h10) =
      bind_ok (id_text (or_value (get "configured_pane_id" seen) (get "pane_id" worker))) _ a h9 in
    let (command, e11, h11) = bind_ok (command_for tools worker transport pane v.nudge) _ a h10 in
    let (monitor, e12, h12) = bind_ok (dict_or_empty (get "monitor" observation)) _ a h11 in
    let s : Subject = record {
      worker_id = wid;
      pane_id = pane;
      nudge = v.nudge;
      command = command;
      send = send;
    } in
    let (g1, k1) =
      passed (truthy (get_or "read_only" (bool false) seen)) s "worker is read-only"
        (tested py tools now v policy activity monitor worker configured s) a h12 sends in
    let (g2, k2) =
      passed (not (truthy (get_or "actuation_enabled" (bool false) policy))) s _ _ a k1 sends in
    let (g3, k3) = passed (not (is_active py policy)) s _ _ a k2 sends in
    let (g4, k4) = passed v.needs_human s _ _ a k3 sends in
    let (g5, k5) = passed (v.nudge == "") s _ _ a k4 sends in
    let (g6, k6) = passed (pane == "") s _ _ a k5 sends in
    let (g7, k7) = passed (moved configured pane) s _ _ a k6 sends in
    let (g8, k8) =
      passed (is_working policy activity) s _ (rested py tools now policy monitor worker s) a k7
        sends in
    let (elapsed, c1, k9) =
      bind_ok
        (seconds_since_iso tools now
          (or_value (get "last_nudge_at" monitor) (get "last_nudge_at" worker)))
        _ a k8 in
    let (cooldown, c2, k10) =
      bind_ok (to_int py (get_or "cooldown_seconds" (int (pos 0)) policy)) _ a k9 in
    let (g9, k11) = passed (too_soon elapsed cooldown) s _ (ok (cleared s)) a k10 sends in
    let same : cleared s ≡ a = ok-inj (cleared s) a k11 in
    let asked : send ≡ true = ap Action.will_send same ∙ sends in
    (
      asked,
      subst (IsClear py tools workers observation verdict now transport) same (record {
        v = v;
        seen = seen;
        worker = worker;
        policy = policy;
        activity = activity;
        monitor = monitor;
        configured = configured;
        elapsed = elapsed;
        cooldown = cooldown;
        v_is = e1;
        seen_is = e2;
        worker_is = e4;
        policy_is = e5;
        activity_is = e6;
        monitor_is = e12;
        configured_is = e10;
        elapsed_is = c1;
        cooldown_is = c2;
        message = refl;
        command = e11;
        writable = g1;
        enabled = not-false _ g2;
        active = not-false _ g3;
        no_human = g4;
        nudges = g5;
        has_pane = g6;
        same_pane = not_moved configured pane g7;
        idle = busy_no policy activity g8;
        cooled = g9;
      }),
    )
