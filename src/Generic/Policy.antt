-- ===== src/Generic/Policy.antt =====
-- The configuration of scripts/generic_control.py: policies, flows and workers with their defaults.
pub mod Configured
use ker_sor_monitor.Prelude.{
  refl, String, Bool, true, false, not, Option, none, some, [], ◌∷◌, ◌==◌, if◌then◌else◌, is_some,
  ◌≡◌, arith, or_else,
}
use ker_sor_monitor.Prelude.Int.{pos}
use ker_sor_monitor.Result.{
  bind_ok, ok-inj, Result, ok, err, ◌>>=◌, key_error, value_error, type_error,
}
use ker_sor_monitor.Json.{
  Value, null, bool, int, str, arr, obj, Values, nil, cons, end, field, Dict, get, truthy, dict_of,
  or_value, lookup, assign, get_or, with_defaults, lookup-with_defaults, with_defaults_twice,
  lookup-assign,
}
use ker_sor_monitor.Lines.{strip}
use ker_sor_monitor.Generic.Values.{Python, text, text_of, to_list, has_key}
use mathlib.Core.Path.{subst}

-- `DEFAULT_SSH_OPTIONS`
abbrev pub default_ssh_options : Values
default_ssh_options =
    cons (str "-o")
      (cons (str "BatchMode=yes") (cons (str "-o") (cons (str "ConnectTimeout=10") nil)))

abbrev pub policy_defaults : Dict
policy_defaults =
    ("id", str "default-active-safe")
    ∷ ("mode", str "shadow")
    ∷ ("cooldown_seconds", int (pos 900))
    ∷ ("require_idle", bool true)
    ∷ ("actuation_enabled", bool true)
    ∷ ("send_requires_cli_flag", bool true)
    ∷ ("pane_capture_lines", int (pos 180))
    ∷ ("file_tail_chars", int (pos 12000))
    ∷ ("recent_file_limit", int (pos 80))
    ∷ ("verdict_model", str "sonnet")
    ∷ ("verdict_timeout_seconds", int (pos 180))
    ∷ []

unfoldable pub normalize_monitor_policy : Dict → Dict
normalize_monitor_policy raw = with_defaults policy_defaults raw

abbrev empty_object : Value
empty_object = obj end

abbrev pub flow_defaults : Dict → Dict
flow_defaults raw =
    ("schema", str "taskflow/v1")
    ∷ ("name", get_or "id" (str "task-flow") raw)
    ∷ ("description", str "")
    ∷ ("objective", str "")
    ∷ ("iteration_protocol", empty_object)
    ∷ ("phases", arr nil)
    ∷ ("performance_targets", empty_object)
    ∷ ("profile_protocol", empty_object)
    ∷ ("precision_contract", empty_object)
    ∷ ("quality_gates", empty_object)
    ∷ ("guardrails", arr nil)
    ∷ ("stagnation_policy", empty_object)
    ∷ ("plan_files", arr nil)
    ∷ ("artifact_files", arr nil)
    ∷ ("recent_globs", arr nil)
    ∷ ("latest_rlcr", obj (field "root" (str ".humanize/rlcr") (field "files" (arr nil) end)))
    ∷ ("monitor_guidance", arr nil)
    ∷ []

unfoldable pub normalize_flow : Dict → Dict
normalize_flow raw = with_defaults (flow_defaults raw) raw

abbrev pub insist : Bool → Result (Unit {0})
insist b = if b then ok tt else err value_error

-- `next(iter(policies), "default-active-safe")`
abbrev pub first_key : Dict → String
first_key [] = "default-active-safe"
first_key ((k, v) ∷ d) = k

abbrev pub chosen_policy : String → Dict → String
chosen_policy named policies = if named == "" then first_key policies else named

abbrev pub worker_defaults : String → Dict
worker_defaults wid =
    ("attach_mode", str "existing")
    ∷ ("managed_by", str "external")
    ∷ ("read_only", bool false)
    ∷ ("actuation_enabled", bool true)
    ∷ ("name", str wid)
    ∷ []

-- The settings of a worker whose checks have passed.
abbrev pub worker_settings : Python → Dict → String → String → String → Values → Dict
worker_settings py raw wid flow policy ssh_options = with_defaults (worker_defaults wid) (
    assign "tmux_target" (str (text py (or_value (get "tmux_target" raw) (get "pane_id" raw)))) (
      assign "ssh_options" (arr ssh_options) (
        assign "monitor_policy" (str policy)
          (assign "flow" (str flow) (assign "id" (str wid) raw)))))

unfoldable pub normalize_worker : Python → Dict → Dict → Values → Dict → Result Dict
normalize_worker py flows policies default_options raw =
    let wid = strip (text_of py "id" raw) in
    let flow = strip (text_of py "flow" raw) in
    let named =
      strip
        (text py (or_value (or_value (get "monitor_policy" raw) (get "policy" raw)) (str ""))) in
    let policy = chosen_policy named policies in
    insist (not (wid == "")) >>= λ _. insist (has_key flow flows) >>= λ _.
    insist (has_key policy policies) >>= λ _. insist (truthy (get "ssh_host" raw)) >>= λ _.
    insist (truthy (get "remote_root" raw)) >>= λ _.
    insist (truthy (or_value (get "tmux_target" raw) (get "pane_id" raw))) >>= λ _.
    to_list (or_value (get "ssh_options" raw) (arr default_options)) >>= λ ssh_options.
    ok (worker_settings py raw wid flow policy ssh_options)

-- `dict(v)`; the configuration that has been read holds dicts here.
abbrev as_dict : Value → Result Dict
as_dict (obj fs) = ok (dict_of fs)
as_dict _ = err type_error

-- `dict(d[k])`
abbrev pub entry : String → Dict → Result Dict
entry k d = elim (lookup k d) [ none ↦ err key_error | some v ↦ as_dict v ]

-- `generic_worker`, on `config["workers_by_id"]`
unfoldable pub generic_worker : Dict → String → Result Dict
generic_worker workers wid = elim (lookup wid workers) [
  | none ↦ err value_error
  | some v ↦ as_dict v
]

abbrev moded : Option Value → Dict → Dict
moded none policy = policy
moded (some m) policy = assign "mode" m policy

abbrev switched : Option Value → Dict → Dict
switched none policy = policy
switched (some a) policy = assign "actuation_enabled" (bool (truthy a)) policy

abbrev name_in : String → Dict → Result String
name_in k worker = elim (lookup k worker) [
  | none ↦ err key_error
  | some (str s) ↦ ok s
  | some _ ↦ err key_error
]

-- `worker_policy`, on `config["policies_by_id"]`
unfoldable pub worker_policy : Dict → Dict → Result Dict
unfolding normalize_monitor_policy
worker_policy policies worker = name_in "monitor_policy" worker >>= λ pid.
    entry pid policies >>= λ policy. ok (
      switched (lookup "actuation_enabled" worker)
        (moded (lookup "monitor_mode" worker) (normalize_monitor_policy policy)))

-- `worker_flow`, on `config["flows_by_id"]`
unfoldable pub worker_flow : Dict → Dict → Result Dict
worker_flow flows worker = name_in "flow" worker >>= λ fid. entry fid flows
