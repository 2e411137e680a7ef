-- ===== src/Generic/Actuation.antt =====
-- `build_generic_actuation` of scripts/generic_control.py: whether a nudge is pasted into a worker's
-- pane. Pane ids are texts.
use ker_sor_monitor.Prelude.{
  String, Bool, true, false, not, ◌&&◌, Option, none, some, List, [], ◌∷◌, ◌++◌, ◌==◌,
  if◌then◌else◌,
}
use ker_sor_monitor.Prelude.Int.{ℤ, pos, negsuc, int_lt, ◌-ℤ◌}
use ker_sor_monitor.Prelude.Text.{codes, join, lower, same_codes}
use ker_sor_monitor.Result.{
  Result, ok, err, ◌>>=◌, key_error, value_error, type_error, attribute_error,
}
use ker_sor_monitor.Json.{
  Value, bool, int, str, arr, Dict, get, get_or, truthy, or_value, lookup, obj, list_of,
}
use ker_sor_monitor.Generic.Values.{Python, text, to_int, to_list, dict_or_empty}
use ker_sor_monitor.Generic.Verdict.{Verdict, validate_generic_verdict}
use ker_sor_monitor.Generic.Policy.{generic_worker, default_ssh_options}

-- The libraries that the module calls.
pub record Tools : Type 0 where
  -- `shlex.quote`
  pub quote : String → String
  -- `base64.b64encode(message.encode("utf-8")).decode("ascii")`
  pub encode : String → String
  -- `generic_tmux_paste_script()`
  pub script : String
  -- the seconds from one ISO time to another, None where `datetime.fromisoformat` refuses one
  pub seconds_between : String → String → Result (Option ℤ)

pub record Action : Type 0 where
  pub worker_id : String
  pub eligible : Bool
  pub will_send : Bool
  pub dry_run : Bool
  pub reason : String
  pub pane_id : String
  pub message : String
  pub command : List Value

-- What the answer repeats, whatever it is.
pub record Subject : Type 0 where
  pub worker_id : String
  pub pane_id : String
  pub nudge : String
  pub command : List Value
  pub send : Bool

abbrev pub blocked : Subject → String → Action
blocked s reason = record {
  worker_id = s.worker_id;
  eligible = false;
  will_send = false;
  dry_run = not s.send;
  reason = reason;
  pane_id = s.pane_id;
  message = s.nudge;
  command = s.command;
}

abbrev pub cleared : Subject → Action
cleared s = record {
  worker_id = s.worker_id;
  eligible = true;
  will_send = s.send;
  dry_run = not s.send;
  reason = if s.send then "active monitor nudge" else "dry-run; pass --send to paste the nudge";
  pane_id = s.pane_id;
  message = s.nudge;
  command = s.command;
}

-- An early return.
abbrev pub guard : Bool → Subject → String → Result Action → Result Action
guard stop s reason rest = if stop then ok (blocked s reason) else rest

-- A text that may be missing.
abbrev pub id_text : Value → Result String
id_text (str s) = ok s
id_text v = if truthy v then err type_error else ok ""

abbrev pub not_before : ℤ → ℤ
not_before (pos n) = pos n
not_before (negsuc n) = pos 0

abbrev pub not_negative : Option ℤ → Option ℤ
not_negative none = none
not_negative (some n) = some (not_before n)

-- `seconds_since_iso`, at the time `now`
abbrev pub seconds_since_iso : Tools → String → Value → Result (Option ℤ)
seconds_since_iso tools now (str s) =
    if s == "" then ok none else (tools.seconds_between s now >>= λ n. ok (not_negative n))
seconds_since_iso tools now v = if truthy v then err attribute_error else ok none

-- `elapsed is not None and elapsed < cooldown`
abbrev pub too_soon : Option ℤ → ℤ → Bool
too_soon none cooldown = false
too_soon (some elapsed) cooldown = int_lt elapsed cooldown

abbrev pub is_active : Python → Dict → Bool
is_active py policy =
    same_codes (lower (text py (get_or "mode" (str "shadow") policy))) (codes "active")

abbrev pub remaining : Python → Option ℤ → ℤ → String
remaining py none cooldown = ""
remaining py (some elapsed) cooldown =
    join "cooldown active: " (join (py.show (int (cooldown -ℤ elapsed))) "s remaining")

-- The tests after those of the policy, in their order.
abbrev pub rested : Python → Tools → String → Dict → Dict → Dict → Subject → Result Action
rested py tools now policy monitor worker s =
    seconds_since_iso tools now
      (or_value (get "last_nudge_at" monitor) (get "last_nudge_at" worker))
    >>= λ elapsed. to_int py (get_or "cooldown_seconds" (int (pos 0)) policy) >>= λ cooldown.
        guard (too_soon elapsed cooldown) s (remaining py elapsed cooldown) (ok (cleared s))

abbrev pub is_working : Dict → Dict → Bool
is_working policy activity =
    truthy (get_or "require_idle" (bool true) policy)
    && not (truthy (get_or "idle" (bool false) activity))

abbrev pub not_idle : Python → Dict → String
not_idle py activity =
    join "worker is not idle (activity="
      (join (text py (get_or "activity" (str "unknown") activity)) ")")

abbrev pub moved : String → String → Bool
moved configured pane = not (configured == "") && not (pane == configured)

abbrev pub pane_changed : String → String → String
pane_changed configured pane =
    join "pane identity changed: configured " (join configured (join ", observed " pane))

abbrev pub tested :
    Python → Tools → String → Verdict → Dict → Dict → Dict → Dict → String → Subject → Result Action
tested py tools now v policy activity monitor worker configured s =
    guard (not (truthy (get_or "actuation_enabled" (bool false) policy))) s
      "actuation is disabled by policy"
      (guard (not (is_active py policy)) s
        (join "monitor mode is " (text py (get_or "mode" (str "shadow") policy)))
        (guard v.needs_human s "verdict needs human input" (
          guard (v.nudge == "") s "verdict has no nudge" (
            guard (s.pane_id == "") s "missing pane_id" (
              guard (moved configured s.pane_id) s (pane_changed configured s.pane_id) (
                guard (is_working policy activity) s (not_idle py activity)
                  (rested py tools now policy monitor worker s)))))))

-- `ssh_prefix`
abbrev pub ssh_prefix : Dict → Result (List Value)
ssh_prefix worker =
    to_list (or_value (get "ssh_options" worker) (arr default_ssh_options)) >>= λ options.
    elim (lookup "ssh_host" worker) [
      | none ↦ err key_error
      | some host ↦ ok (str "ssh" ∷ list_of options ++ host ∷ [])
    ]

abbrev pub remote_command : Tools → String → String → String
remote_command tools pane nudge = join "python3 -c " (
    join (tools.quote tools.script)
      (join " " (join (tools.quote pane) (join " " (tools.quote (tools.encode nudge))))))

-- The command that pastes the nudge.
abbrev pub command_for : Tools → Dict → String → String → String → Result (List Value)
command_for tools worker transport pane nudge =
    if not (pane == "") && not (nudge == "")
    then (if transport == "local"
        then ok
            (str "python3" ∷ str "-c" ∷ str tools.script ∷ str pane ∷ str (tools.encode nudge) ∷ [])
        else if transport == "ssh"
        then (ssh_prefix worker >>= λ prefix.
            ok (prefix ++ str (remote_command tools pane nudge) ∷ []))
        else err value_error)
    else ok []

abbrev pub key_text : Value → Result String
key_text (str s) = ok s
key_text (arr _) = err type_error
key_text (obj _) = err type_error
key_text _ = err value_error

-- The parts of an observation are dicts, as `build_generic_observation` makes them; another value there
-- raises before the tests.
unfoldable pub build_generic_actuation :
    Python → Tools → Dict → Dict → Value → Bool → String → String → Result Action
unfolding validate_generic_verdict generic_worker
build_generic_actuation py tools workers observation verdict send now transport =
    validate_generic_verdict py verdict >>= λ v.
    dict_or_empty (get "worker" observation) >>= λ seen.
    key_text (get_or "id" (str "") seen) >>= λ wid. generic_worker workers wid >>= λ worker.
    dict_or_empty (get "policy" observation) >>= λ policy.
    dict_or_empty (get "activity_signals" observation) >>= λ activity.
    dict_or_empty (get "identity" seen) >>= λ identity.
    dict_or_empty (get "tmux" observation) >>= λ tmux.
    id_text (or_value (get "pane_id" identity) (get "pane_id" tmux)) >>= λ pane.
    id_text (or_value (get "configured_pane_id" seen) (get "pane_id" worker)) >>= λ configured.
    command_for tools worker transport pane v.nudge >>= λ command.
    dict_or_empty (get "monitor" observation) >>= λ monitor.
    let s : Subject = record {
      worker_id = wid;
      pane_id = pane;
      nudge = v.nudge;
      command = command;
      send = send;
    } in
    guard (truthy (get_or "read_only" (bool false) seen)) s "worker is read-only"
      (tested py tools now v policy activity monitor worker configured s)
