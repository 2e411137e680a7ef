-- ===== src/Generic/Policy/Configured.antt =====
-- What the configuration of scripts/generic_control.py holds once it is normalised.
use ker_sor_monitor.Prelude.{
  refl, String, Bool, true, false, not, Option, none, some, ◌==◌, if◌then◌else◌, is_some, ◌≡◌,
  arith, or_else, ◌⊎◌, inl, inr, Bool-cases,
}
use ker_sor_monitor.Result.{bind_ok, ok-inj, ok}
use ker_sor_monitor.Json.{
  Value, null, bool, str, arr, Values, Dict, get, truthy, or_value, lookup, lookup-with_defaults,
  with_defaults_twice, lookup-assign,
}
use ker_sor_monitor.Lines.{strip}
use ker_sor_monitor.Generic.Values.{Python, text, text_of, to_list, has_key}
use mathlib.Core.Path.{subst}
use ker_sor_monitor.Generic.Policy.{
  chosen_policy, insist, normalize_monitor_policy, normalize_worker, policy_defaults,
  worker_defaults, worker_settings,
}

-- A key of a settings table that is there keeps its value, and a second normalisation changes nothing
-- that can be read.
pub normalize_policy_keeps :
    (raw : Dict) (k : String)
    → (lookup k (normalize_monitor_policy raw)
        ≡ (if has_key k raw then lookup k raw else lookup k policy_defaults))
      × (lookup k (normalize_monitor_policy (normalize_monitor_policy raw))
          ≡ lookup k (normalize_monitor_policy raw))
unfolding normalize_monitor_policy
normalize_policy_keeps raw k =
    (lookup-with_defaults k policy_defaults raw, with_defaults_twice k policy_defaults raw)

abbrev pub Refers : String → Dict → Dict → Type 0
Refers key worker table =
    (name : String) × (lookup key worker ≡ some (str name)) × (has_key name table ≡ true)

-- What a normalised worker has.
pub record IsConfigured (py : Python) (flows policies raw worker : Dict) : Type 0 where
  pub named : (wid : String) × (lookup "id" worker ≡ some (str wid)) × ((wid == "") ≡ false)
  pub of_flow : Refers "flow" worker flows
  pub of_policy : Refers "monitor_policy" worker policies
  pub on_host : truthy (get "ssh_host" worker) ≡ true
  pub in_root : truthy (get "remote_root" worker) ≡ true
  pub in_tmux :
      (given : Value) × ((given ≡ get "tmux_target" raw) ⊎ (given ≡ get "pane_id" raw))
      × (truthy given ≡ true)
      × (lookup "tmux_target" worker ≡ some (str (text py given)))
  pub guarded : has_key "read_only" worker ≡ true
  pub switchable : has_key "actuation_enabled" worker ≡ true

insist_ok : (b : Bool) → insist b ≡ ok tt → b ≡ true
insist_ok b h = ground (arith, h)

module _ (py : Python) (raw : Dict) (wid flow policy : String) (options : Values) where
  abbrev assigned : String → Option Value
  assigned k =
      if "tmux_target" == k
      then some (str (text py (or_value (get "tmux_target" raw) (get "pane_id" raw))))
      else if "ssh_options" == k
      then some (arr options)
      else if "monitor_policy" == k
      then some (str policy)
      else if "flow" == k
      then some (str flow)
      else if "id" == k
      then some (str wid)
      else lookup k raw

  settings_at :
      (k : String)
      → lookup k (worker_settings py raw wid flow policy options)
        ≡ (if is_some (assigned k) then assigned k else lookup k (worker_defaults wid))
  settings_at k =
      rw
        (
          lookup-with_defaults k (worker_defaults wid) _,
          lookup-assign k "tmux_target" _ _,
          lookup-assign k "ssh_options" _ _,
          lookup-assign k "monitor_policy" _ _,
          lookup-assign k "flow" _ _,
          lookup-assign k "id" _ _,
        )
        refl

kept :
    (o d : Option Value)
    → truthy (or_else o null) ≡ true
    → truthy (or_else (if is_some o then o else d) null) ≡ true
kept none d h = absurd (unfold truthy in cc)
kept (some v) d h = h

there : (o : Option Value) (v : Value) → is_some (if is_some o then o else some v) ≡ true
there none v = refl
there (some w) v = refl

one_of_two : (a b : Value) → (or_value a b ≡ a) ⊎ (or_value a b ≡ b)
one_of_two a b = elim (Bool-cases (truthy a)) [ inl e ↦ rw e (inl refl) | inr e ↦ rw e (inr refl) ]

-- A worker that the configuration accepts has an id that is not empty, refers to a flow and to a policy
-- that are there, has a truthy host and a truthy root, and its tmux target is the text of the raw entry's
-- tmux_target or pane_id, which is truthy; read_only and actuation_enabled are keys of it.
pub normalize_worker-IsConfigured :
    (py : Python) (flows policies : Dict) (options : Values) (raw worker : Dict)
    → normalize_worker py flows policies options raw ≡ ok worker
    → IsConfigured py flows policies raw worker
unfolding normalize_worker lookup
normalize_worker-IsConfigured py flows policies options raw worker h =
    let wid = strip (text_of py "id" raw) in
    let flow = strip (text_of py "flow" raw) in
    let named =
      strip
        (text py (or_value (or_value (get "monitor_policy" raw) (get "policy" raw)) (str ""))) in
    let policy = chosen_policy named policies in
    let (_, a1, h1) = bind_ok (insist (not (wid == ""))) _ worker h in
    let (_, a2, h2) = bind_ok (insist (has_key flow flows)) _ worker h1 in
    let (_, a3, h3) = bind_ok (insist (has_key policy policies)) _ worker h2 in
    let (_, a4, h4) = bind_ok (insist (truthy (get "ssh_host" raw))) _ worker h3 in
    let (_, a5, h5) = bind_ok (insist (truthy (get "remote_root" raw))) _ worker h4 in
    let (_, a6, h6) =
      bind_ok (insist (truthy (or_value (get "tmux_target" raw) (get "pane_id" raw)))) _ worker
        h5 in
    let (os, _, h7) =
      bind_ok (to_list (or_value (get "ssh_options" raw) (arr options))) _ worker h6 in
    let at = settings_at py raw wid flow policy os in
    subst (IsConfigured py flows policies raw) (ok-inj _ worker h7) (record {
      named = (wid, at "id", ground (arith, insist_ok _ a1));
      of_flow = (flow, at "flow", insist_ok _ a2);
      of_policy = (policy, at "monitor_policy", insist_ok _ a3);
      on_host = rw (at "ssh_host") (kept (lookup "ssh_host" raw) _ (insist_ok _ a4));
      in_root = rw (at "remote_root") (kept (lookup "remote_root" raw) _ (insist_ok _ a5));
      in_tmux = (
        or_value (get "tmux_target" raw) (get "pane_id" raw),
        one_of_two (get "tmux_target" raw) (get "pane_id" raw),
        insist_ok _ a6,
        at "tmux_target",
      );
      guarded = rw (at "read_only") (there (lookup "read_only" raw) (bool false));
      switchable = rw (at "actuation_enabled") (there (lookup "actuation_enabled" raw) (bool true));
    })
