-- ===== src/Generic/Observation.antt =====
-- `build_generic_observation` of scripts/generic_control.py: what is known of a worker in one dict.
use ker_sor_monitor.Prelude.{ℕ, String, true, false, none, some, [], ◌∷◌, ◌++◌, if◌then◌else◌}
use ker_sor_monitor.Prelude.Int.{pos}
use ker_sor_monitor.Prelude.Text.{last}
use ker_sor_monitor.Result.{Result, ok, err, ◌>>=◌, key_error, attribute_error}
use ker_sor_monitor.Json.{
  Value, bool, int, str, arr, obj, Values, nil, end, Dict, get, get_or, truthy, or_value, lookup,
  dict_of, object_of, list_of, array_of,
}
use ker_sor_monitor.Generic.Values.{Python, text_of, to_int, to_list, dict_or_empty}
use ker_sor_monitor.Generic.Policy.{worker_flow, worker_policy}
use ker_sor_monitor.Generic.Pane.{PaneActivity, classify_pane_activity, parse_tmux_identity}

abbrev no_fields : Value
no_fields = obj end

-- `command_summary`
abbrev pub command_summary : Python → ℕ → Value → Value
command_summary py max_stdout (obj fs) =
    let d = dict_of fs in
    obj (
      object_of (
        ("ok", bool (truthy (get "ok" d)))
        ∷ ("returncode", get "returncode" d)
        ∷ ("stdout", str (last max_stdout (text_of py "stdout" d)))
        ∷ ("stderr", str (last 2000 (text_of py "stderr" d)))
        ∷ []))
command_summary py max_stdout _ =
    obj (object_of (("ok", bool false) ∷ ("stdout", str "") ∷ ("stderr", str "missing") ∷ []))

-- `d[k]`
abbrev pub item : String → Dict → Result Value
item k d = elim (lookup k d) [ none ↦ err key_error | some v ↦ ok v ]

-- `list(d.get(k) or [])`
abbrev list_at : String → Dict → Result Value
list_at k d = to_list (or_value (get k d) (arr nil)) >>= λ vs. ok (arr vs)

abbrev pub identity_of : Python → Dict → Result Dict
identity_of py tmux =
    if truthy (get "identity" tmux)
    then dict_or_empty (get "identity" tmux)
    else elim (get_or "row" (str "") tmux) [
      | str row ↦ ok (parse_tmux_identity py row)
      | v ↦ if truthy v then err attribute_error else ok (parse_tmux_identity py "")
    ]

abbrev pub worker_part : Python → Dict → Dict → Result Value
worker_part py worker identity = item "id" worker >>= λ wid. item "flow" worker >>= λ flow. ok (
    obj (
      object_of (
        ("id", wid)
        ∷ ("name", get_or "name" wid worker)
        ∷ ("flow", flow)
        ∷ ("attach_mode", get_or "attach_mode" (str "existing") worker)
        ∷ ("managed_by", get_or "managed_by" (str "external") worker)
        ∷ ("read_only", bool (truthy (get_or "read_only" (bool false) worker)))
        ∷ ("tmux_target", get "tmux_target" worker)
        ∷ ("configured_pane_id", get_or "pane_id" (str "") worker)
        ∷ ("identity", obj (object_of identity))
        ∷ [])))

abbrev pub flow_part : Dict → Result Value
flow_part flow = item "id" flow >>= λ fid. list_at "guardrails" flow >>= λ guardrails.
    list_at "monitor_guidance" flow >>= λ guidance. ok (
      obj (
        object_of (
          ("id", fid)
          ∷ ("name", get_or "name" fid flow)
          ∷ ("objective", get_or "objective" (str "") flow)
          ∷ ("iteration_protocol", or_value (get "iteration_protocol" flow) no_fields)
          ∷ ("phases", or_value (get "phases" flow) (arr nil))
          ∷ ("performance_targets", or_value (get "performance_targets" flow) no_fields)
          ∷ ("profile_protocol", or_value (get "profile_protocol" flow) no_fields)
          ∷ ("precision_contract", or_value (get "precision_contract" flow) no_fields)
          ∷ ("quality_gates", or_value (get "quality_gates" flow) no_fields)
          ∷ ("guardrails", guardrails)
          ∷ ("stagnation_policy", or_value (get "stagnation_policy" flow) no_fields)
          ∷ ("monitor_guidance", guidance)
          ∷ [])))

abbrev pub policy_part : Python → Dict → Result Value
policy_part py policy = item "id" policy >>= λ pid.
    to_int py (get_or "cooldown_seconds" (int (pos 900)) policy) >>= λ cooldown. ok (
      obj (
        object_of (
          ("id", pid)
          ∷ ("mode", get_or "mode" (str "shadow") policy)
          ∷ ("cooldown_seconds", int cooldown)
          ∷ ("require_idle", bool (truthy (get_or "require_idle" (bool true) policy)))
          ∷ ("actuation_enabled", bool (truthy (get_or "actuation_enabled" (bool true) policy)))
          ∷ (
            "send_requires_cli_flag",
            bool (truthy (get_or "send_requires_cli_flag" (bool true) policy)),
          )
          ∷ ("verdict_model", get_or "verdict_model" (str "sonnet") policy)
          ∷ [])))

abbrev pub tmux_part : Dict → String → Value
tmux_part identity pane_lines = obj (
    object_of (
      ("pane_id", get_or "pane_id" (str "") identity)
      ∷ ("pane_pid", get "pane_pid" identity)
      ∷ ("current_command", get_or "current_command" (str "") identity)
      ∷ ("cwd", get_or "cwd" (str "") identity)
      ∷ ("last_lines", str pane_lines)
      ∷ []))

abbrev pub git_part : Python → Dict → Value
git_part py git = obj (
    object_of (
      ("root", command_summary py 8000 (get "root" git))
      ∷ ("branch", command_summary py 8000 (get "branch" git))
      ∷ ("head", command_summary py 8000 (get "head" git))
      ∷ ("status_short", command_summary py 8000 (get "status_short" git))
      ∷ []))

abbrev pub activity_part : PaneActivity → Value
activity_part a = obj (
    object_of (
      ("activity", str a.activity)
      ∷ ("idle", bool a.idle)
      ∷ ("busy", bool a.busy)
      ∷ ("needs_human_signal", bool a.needs_human_signal)
      ∷ ("tail", str a.tail)
      ∷ []))

abbrev source_part : Value → Value → Value
source_part host root =
    obj (object_of (("kind", str "ssh") ∷ ("ssh_host", host) ∷ ("remote_root", root) ∷ []))

abbrev workspace_part : Value → Dict → Value
workspace_part root identity =
    obj (object_of (("root", root) ∷ ("cwd", get_or "cwd" (str "") identity) ∷ []))

-- The dict from its parts; `now` is `utc_now()`.
abbrev pub whole :
    Python
    → String
    → Dict
    → Dict
    → Dict
    → Values
    → Value
    → Value
    → Value
    → Value
    → Value
    → Dict
    → Dict
whole py now payload identity git errors host root worker flow policy tmux =
    let pane_lines = text_of py "pane_lines" tmux in
    ("schema", str "generic-worker-observation/v1")
    ∷ ("collected_at", or_value (get "collected_at" payload) (str now))
    ∷ ("reachable", bool true)
    ∷ ("source", source_part host root)
    ∷ ("worker", worker)
    ∷ ("flow", flow)
    ∷ ("policy", policy)
    ∷ ("tmux", tmux_part identity pane_lines)
    ∷ ("workspace", workspace_part root identity)
    ∷ ("git", git_part py git)
    ∷ ("files", or_value (get "files" payload) no_fields)
    ∷ ("latest_rlcr", or_value (get "latest_rlcr" payload) no_fields)
    ∷ ("recent_files", or_value (get "recent_files" payload) (arr nil))
    ∷ ("process_table", command_summary py 12000 (get "process_table" payload))
    ∷ ("gpu_apps", command_summary py 4000 (get "gpu_apps" payload))
    ∷ ("activity_signals", activity_part (classify_pane_activity py pane_lines))
    ∷ ("errors", arr errors)
    ∷ []

unfoldable pub build_generic_observation : Python → String → Dict → Dict → Dict → Dict → Result Dict
unfolding classify_pane_activity
build_generic_observation py now flows policies worker payload =
    worker_flow flows worker >>= λ flow. worker_policy policies worker >>= λ policy.
    dict_or_empty (get "tmux" payload) >>= λ tmux. identity_of py tmux >>= λ identity.
    to_list (or_value (get "errors" payload) (arr nil)) >>= λ errors.
    to_list (or_value (get "errors" tmux) (arr nil)) >>= λ more. item "ssh_host" worker >>= λ host.
    item "remote_root" worker >>= λ root. worker_part py worker identity >>= λ w.
    flow_part flow >>= λ f. policy_part py policy >>= λ p.
    dict_or_empty (get "git" payload) >>= λ git. ok (
      whole py now payload identity git (array_of (list_of errors ++ list_of more)) host root w f p
        tmux)
