-- ===== src/Tests/Nudges.antt =====
-- The theorems on configurations, observations, verdicts and nudges of scripts/, at sample data.
use ker_sor_monitor.Prelude.{
  ℕ, ◌+◌, ◌≤◌, ◌<◌, ◌≡◌, refl, ◌↔◌, ◌⊎◌, String, Bool, true, false, not, ◌&&◌, Option, some, none,
  List, [], ◌∷◌, ◌++◌, length, min, arith, All, concat, ◌==◌, if◌then◌else◌,
}
use ker_sor_monitor.Prelude.Int.{pos}
use ker_sor_monitor.Result.{Result, ok, err, value_error}
use ker_sor_monitor.Json.{
  Value, null, bool, int, str, arr, obj, nil, Dict, get, get_or, truthy, or_value, object_of,
  lookup,
}
use ker_sor_monitor.Monitor.Nudge.{
  Nudge, IsMode, is_v2, is_active, normalize_monitor_verdict, build_monitor_actuation,
  build_monitor_sends,
}
use ker_sor_monitor.Generic.Values.{Python, dict_or_empty}
use ker_sor_monitor.Generic.Policy.{normalize_worker, default_ssh_options}
use ker_sor_monitor.Generic.Policy.Configured.{IsConfigured, normalize_worker-IsConfigured}
use ker_sor_monitor.Generic.Verdict.{
  Verdict, IsNamed, parse_verdict-IsNamed, parse_verdict_runner_output,
}
use ker_sor_monitor.Generic.Actuation.{Tools, Action, build_generic_actuation}
use ker_sor_monitor.Generic.Safe.{IsClear, sends-IsClear}
use ker_sor_monitor.Generic.Observation.{build_generic_observation}
use ker_sor_monitor.Generic.Guarded.{read_only_sends_none}

abbrev pub py : Python
py = record { show = λ v. ""; number = λ v. err value_error; upper = λ s. s; lower = λ s. s }

abbrev tools : Tools
tools = record {
  quote = λ s. s;
  encode = λ s. s;
  script = "paste";
  seconds_between = λ a b. ok (some (pos 1000));
}

abbrev raw_worker : Dict
raw_worker =
    ("id", str "k1")
    ∷ ("flow", str "f")
    ∷ ("ssh_host", str "node")
    ∷ ("remote_root", str "/w")
    ∷ ("pane_id", str "%1")
    ∷ []

abbrev flows : Dict
flows = ("f", obj (object_of (("id", str "f") ∷ []))) ∷ []

abbrev policies : Dict
policies = ("p", obj (object_of (("id", str "p") ∷ ("mode", str "Active") ∷ []))) ∷ []

abbrev worker : Dict
worker =
    ("id", str "k1")
    ∷ ("flow", str "f")
    ∷ ("ssh_host", str "node")
    ∷ ("remote_root", str "/w")
    ∷ ("pane_id", str "%1")
    ∷ ("monitor_policy", str "p")
    ∷ ("ssh_options", arr default_ssh_options)
    ∷ ("tmux_target", str "%1")
    ∷ ("attach_mode", str "existing")
    ∷ ("managed_by", str "external")
    ∷ ("read_only", bool false)
    ∷ ("actuation_enabled", bool true)
    ∷ ("name", str "k1")
    ∷ []

normalized : normalize_worker py flows policies default_ssh_options raw_worker ≡ ok worker
unfolding normalize_worker ker_sor_monitor.Lines.strip truthy lookup
    ker_sor_monitor.Json.with_defaults ker_sor_monitor.Json.assign
normalized = refl

normalize_worker-IsConfigured_example : IsConfigured py flows policies raw_worker worker
normalize_worker-IsConfigured_example =
    normalize_worker-IsConfigured py flows policies default_ssh_options raw_worker worker normalized

abbrev answer : Value
answer = obj (
    object_of (
      ("activity", str "sleeping")
      ∷ ("nudge", str "go on")
      ∷ ("confidence", str "high")
      ∷ ("reason", str "idle")
      ∷ []))

abbrev sample_verdict : Verdict
sample_verdict = record {
  activity = "unknown";
  phase = "";
  progress = "";
  blocked_on = "";
  required_next_step = "";
  needs_human = false;
  nudge = "go on";
  confidence = "high";
  reason = "idle";
  next_check_seconds = pos 0;
}

abbrev loads : String → Result Value
loads s = if s == "inner" then ok answer else ok (obj (object_of (("result", str "inner") ∷ [])))

parsed : parse_verdict_runner_output py loads "outer" ≡ ok sample_verdict
unfolding parse_verdict_runner_output lookup truthy
parsed = refl

parse_verdict-IsNamed_example : IsNamed sample_verdict
parse_verdict-IsNamed_example = parse_verdict-IsNamed py loads "outer" sample_verdict parsed

abbrev workers : Dict
workers = ("k1", obj (object_of worker)) ∷ []

abbrev observation : Dict
observation =
    (
      "worker",
      obj (
          object_of (
            ("id", str "k1")
            ∷ ("read_only", bool false)
            ∷ ("identity", obj (object_of (("pane_id", str "%1") ∷ [])))
            ∷ [])),
    )
    ∷ (
      "policy",
      obj (
          object_of (
            ("mode", str "Active")
            ∷ ("actuation_enabled", bool true)
            ∷ ("cooldown_seconds", int (pos 900))
            ∷ [])),
    )
    ∷ ("activity_signals", obj (object_of (("idle", bool true) ∷ [])))
    ∷ ("monitor", obj (object_of (("last_nudge_at", str "2026-01-01T00:00:00Z") ∷ [])))
    ∷ []

abbrev action : Action
action = record {
  worker_id = "k1";
  eligible = true;
  will_send = true;
  dry_run = false;
  reason = "active monitor nudge";
  pane_id = "%1";
  message = "go on";
  command = str "python3" ∷ str "-c" ∷ str "paste" ∷ str "%1" ∷ str "go on" ∷ [];
}

decided : build_generic_actuation py tools workers observation answer true "now" "local" ≡ ok action
unfolding build_generic_actuation truthy lookup
decided = refl

sends-IsClear_example :
    (true ≡ true) × IsClear py tools workers observation answer "now" "local" action
sends-IsClear_example =
    sends-IsClear py tools workers observation answer true "now" "local" action decided refl

abbrev guarded_worker : Dict
guarded_worker =
    ("id", str "k1")
    ∷ ("flow", str "f")
    ∷ ("ssh_host", str "node")
    ∷ ("remote_root", str "/w")
    ∷ ("pane_id", str "%1")
    ∷ ("monitor_policy", str "p")
    ∷ ("read_only", bool true)
    ∷ []

abbrev seen : Dict
seen = elim (build_generic_observation py "now" flows policies guarded_worker []) [
  | ok d ↦ d
  | err e ↦ []
]

observed : build_generic_observation py "now" flows policies guarded_worker [] ≡ ok seen
unfolding build_generic_observation ker_sor_monitor.Generic.Policy.worker_flow lookup
    ker_sor_monitor.Generic.Policy.worker_policy truthy ker_sor_monitor.Json.with_defaults
    ker_sor_monitor.Json.assign
observed = refl

abbrev refusal : Action
refusal = elim (build_generic_actuation py tools workers seen answer true "now" "local") [
  | ok a ↦ a
  | err e ↦ action
]

refused_by : build_generic_actuation py tools workers seen answer true "now" "local" ≡ ok refusal
unfolding build_generic_actuation truthy lookup build_generic_observation
    ker_sor_monitor.Generic.Policy.worker_flow ker_sor_monitor.Generic.Policy.worker_policy
    ker_sor_monitor.Json.with_defaults ker_sor_monitor.Json.assign
    ker_sor_monitor.Generic.Pane.parse_tmux_identity
refused_by = refl

read_only_sends_none_example : refusal.will_send ≡ false
unfolding truthy lookup
read_only_sends_none_example =
    read_only_sends_none py tools "now" flows policies guarded_worker [] seen workers answer true
      "now" "local" refusal refl observed refused_by

abbrev monitored : Dict
monitored =
    ("control", obj (object_of (("managed_by", str "v2") ∷ [])))
    ∷ ("worker", obj (object_of (("pane_id", str "%1") ∷ [])))
    ∷ []

abbrev target : Dict
target = ("ssh_options", arr nil) ∷ ("ssh_host", str "node") ∷ []

abbrev sample_nudge : Nudge
sample_nudge = record {
  will_send = true;
  reason = "active monitor nudge";
  pane_id = str "%1";
  message = str "go on";
  command = str "ssh" ∷ str "node" ∷ str "python3 -c paste %1 go on" ∷ [];
}

nudged :
    build_monitor_actuation py tools target monitored (("nudge", str "go on") ∷ []) (str "ACTIVE")
    ≡ ok sample_nudge
unfolding build_monitor_actuation lookup truthy ker_sor_monitor.Prelude.Text.join
nudged = refl

build_monitor_sends_example :
    (control : Dict) × (worker : Dict) × (chosen : Value) × (active : Bool) × (dict_or_empty
        (get "control" monitored)
      ≡ ok control)
    × (dict_or_empty (get "worker" monitored) ≡ ok worker)
    × IsMode monitored (str "ACTIVE") chosen
    × (is_active chosen ≡ ok active)
    × (true ≡ (
        not (truthy (get_or "read_only" (bool false) control))
        && is_v2 (get_or "managed_by" (str "v2") control)
        && active
        && truthy (get_or "pane_id" (str "") worker)
        && truthy (get "nudge" (normalize_monitor_verdict (("nudge", str "go on") ∷ [])))))
build_monitor_sends_example =
    build_monitor_sends py tools target monitored (("nudge", str "go on") ∷ []) (str "ACTIVE")
      sample_nudge nudged
