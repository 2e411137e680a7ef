-- ===== src/Generic/Guarded.antt =====
-- The observation of a worker and the decision on it, in scripts/generic_control.py.
use ker_sor_monitor.Prelude.{◌≡◌, sym, String, Bool, true, false, Bool-cases, inl, inr, ◌∙◌, ◌++◌}
use mathlib.Core.Path.{subst}
use ker_sor_monitor.Result.{ok, bind_ok, ok-inj}
use ker_sor_monitor.Json.{
  Value, bool, arr, nil, Dict, get, get_or, truthy, or_value, lookup, list_of, array_of,
}
use ker_sor_monitor.Generic.Values.{Python, to_list, dict_or_empty}
use ker_sor_monitor.Generic.Policy.{worker_flow, worker_policy}
use ker_sor_monitor.Generic.Observation.{
  item, identity_of, worker_part, flow_part, policy_part, whole, build_generic_observation,
}
use ker_sor_monitor.Generic.Actuation.{Tools, Action, build_generic_actuation}
use ker_sor_monitor.Generic.Safe.{sends-IsClear}

-- The observation says that the worker is read-only.
abbrev Marked : Dict → Type 0
Marked observation =
    (seen : Dict)
    → dict_or_empty (get "worker" observation) ≡ ok seen
    → truthy (get_or "read_only" (bool false) seen) ≡ true

worker_part-Marked :
    (py : Python) (worker identity : Dict) (w : Value) (seen : Dict)
    → worker_part py worker identity ≡ ok w
    → truthy (get_or "read_only" (bool false) worker) ≡ true
    → dict_or_empty w ≡ ok seen
    → truthy (get_or "read_only" (bool false) seen) ≡ true
unfolding lookup truthy
worker_part-Marked py worker identity w seen h read_only e =
    let (wid, _, h1) = bind_ok (item "id" worker) _ w h in
    let (flow, _, h2) = bind_ok (item "flow" worker) _ w h1 in
    let here = ok-inj _ w h2 in
    let there = ok-inj _ seen (subst (λ x. dict_or_empty x ≡ ok seen) (sym here) e) in
    subst (λ x. truthy (get_or "read_only" (bool false) x) ≡ true) there read_only

observed-Marked :
    (py : Python) (now : String) (flows policies worker payload observation : Dict)
    → build_generic_observation py now flows policies worker payload ≡ ok observation
    → truthy (get_or "read_only" (bool false) worker) ≡ true
    → Marked observation
unfolding build_generic_observation lookup
observed-Marked py now flows policies worker payload observation h read_only =
    let (flow, _, h1) = bind_ok (worker_flow flows worker) _ observation h in
    let (policy, _, h2) = bind_ok (worker_policy policies worker) _ observation h1 in
    let (tmux, _, h3) = bind_ok (dict_or_empty (get "tmux" payload)) _ observation h2 in
    let (identity, _, h4) = bind_ok (identity_of py tmux) _ observation h3 in
    let (errors, _, h5) =
      bind_ok (to_list (or_value (get "errors" payload) (arr nil))) _ observation h4 in
    let (more, _, h6) =
      bind_ok (to_list (or_value (get "errors" tmux) (arr nil))) _ observation h5 in
    let (host, _, h7) = bind_ok (item "ssh_host" worker) _ observation h6 in
    let (root, _, h8) = bind_ok (item "remote_root" worker) _ observation h7 in
    let (w, marked, h9) = bind_ok (worker_part py worker identity) _ observation h8 in
    let (f, _, h10) = bind_ok (flow_part flow) _ observation h9 in
    let (p, _, h11) = bind_ok (policy_part py policy) _ observation h10 in
    let (git, _, h12) = bind_ok (dict_or_empty (get "git" payload)) _ observation h11 in
    let all =
      whole py now payload identity git (array_of (list_of errors ++ list_of more)) host root w f p
        tmux in
    subst Marked (ok-inj all observation h12)
      (λ seen e. worker_part-Marked py worker identity w seen marked read_only e)

-- A worker that the configuration marks as read-only is sent no nudge, whatever its pane shows, whatever
-- the verdict says and however the decision is asked for.
pub read_only_sends_none :
    (py : Python) (tools : Tools) (now : String)
    (flows policies worker payload observation workers : Dict) (verdict : Value) (send : Bool)
    (later transport : String) (a : Action)
    → truthy (get_or "read_only" (bool false) worker) ≡ true
    → build_generic_observation py now flows policies worker payload ≡ ok observation
    → build_generic_actuation py tools workers observation verdict send later transport ≡ ok a
    → a.will_send ≡ false
read_only_sends_none py tools now flows policies worker payload observation workers verdict send
      later transport a read_only h k =
    elim (Bool-cases a.will_send) [
      | inr quiet ↦ quiet
      | inl sends ↦
          let (_, clear) =
            sends-IsClear py tools workers observation verdict send later transport a k sends in
          let marked =
            observed-Marked py now flows policies worker payload observation h read_only clear.seen
              clear.seen_is in
          absurd (let no : true ≡ false = sym marked ∙ clear.writable in cc)
    ]
