-- ===== src/Monitor/Nudge.antt =====
-- `build_monitor_actuation` of scripts/monitor_state.py: whether the monitor pastes a nudge.
use ker_sor_monitor.Prelude.{
  ◌≡◌, refl, String, Bool, true, false, not, ◌&&◌, none, some, List, [], ◌∷◌, ◌++◌, ◌==◌,
  if◌then◌else◌, Bool-cases, inl, inr, ◌⊎◌, ap, sym,
}
use ker_sor_monitor.Prelude.Text.{codes, join, lower, same_codes}
use ker_sor_monitor.Result.{
  Result, ok, err, ◌>>=◌, bind_ok, ok-inj, key_error, attribute_error, type_error,
}
use ker_sor_monitor.Json.{
  Value, bool, str, arr, Dict, get, get_or, truthy, or_value, lookup, list_of,
}
use ker_sor_monitor.Generic.Values.{Python, text, to_list, dict_or_empty}
use ker_sor_monitor.Generic.Policy.{default_ssh_options}
use ker_sor_monitor.Generic.Actuation.{Tools}

pub record Nudge : Type 0 where
  pub will_send : Bool
  pub reason : String
  pub pane_id : Value
  pub message : Value
  pub command : List Value

-- `normalize_monitor_verdict`
unfoldable pub normalize_monitor_verdict : Dict → Dict
normalize_monitor_verdict verdict =
    ("phase", get_or "phase" (str "") verdict)
    ∷ ("activity", get_or "activity" (str "unknown") verdict)
    ∷ ("required_next_step", get_or "required_next_step" (str "") verdict)
    ∷ ("needs_human", bool (truthy (get_or "needs_human" (bool false) verdict)))
    ∷ ("nudge", or_value (get "nudge" verdict) (str ""))
    ∷ ("reason", get_or "reason" (str "") verdict)
    ∷ []

-- `ssh_command_prefix`
abbrev pub ssh_command_prefix : Dict → Result (List Value)
ssh_command_prefix config =
    to_list (get_or "ssh_options" (arr default_ssh_options) config) >>= λ options.
    elim (lookup "ssh_host" config) [
      | none ↦ err key_error
      | some host ↦ ok (str "ssh" ∷ list_of options ++ host ∷ [])
    ]

-- `build_tmux_pane_send_command`; `tools.script` is the script that it quotes.
abbrev pub send_command : Tools → Dict → Value → Value → Result (List Value)
send_command tools config (str pane) (str message) = ssh_command_prefix config >>= λ prefix. ok (
    prefix
    ++ str (
        join "python3 -c " (
          join (tools.quote tools.script)
            (join " " (join (tools.quote pane) (join " " (tools.quote (tools.encode message)))))))
      ∷ [])
send_command tools config pane (str message) = err type_error
send_command tools config pane message = err attribute_error

abbrev pub is_v2 : Value → Bool
is_v2 (str s) = s == "v2"
is_v2 v = false

-- `(mode or … or DEFAULT_MONITOR_MODE).lower() == "active"`
abbrev pub is_active : Value → Result Bool
is_active (str s) = ok (same_codes (lower s) (codes "active"))
is_active v = err attribute_error

abbrev quiet : String → Value → Value → Nudge
quiet reason pane message = record {
  will_send = false;
  reason = reason;
  pane_id = pane;
  message = message;
  command = [];
}

abbrev sent : Value → Value → List Value → Nudge
sent pane message command = record {
  will_send = true;
  reason = "active monitor nudge";
  pane_id = pane;
  message = message;
  command = command;
}

abbrev not_v2 : Python → Value → Bool → String
not_v2 py managed_by read_only =
    join "worker is read-only or not v2-managed (managed_by="
      (join (text py managed_by) (join ", read_only=" (join (text py (bool read_only)) ")")))

abbrev shown_mode : Python → Value → String
shown_mode py (str s) = py.lower s
shown_mode py v = ""

abbrev choose : Python → Tools → Dict → Value → Bool → Value → Bool → Value → Value → Result Nudge
choose py tools config managed_by read_only mode active pane nudge =
    if read_only
    then ok (quiet (not_v2 py managed_by read_only) pane nudge)
    else if not (is_v2 managed_by)
    then ok (quiet (not_v2 py managed_by read_only) pane nudge)
    else if not active
    then ok (quiet (join "monitor mode is " (shown_mode py mode)) pane nudge)
    else if not (truthy pane)
    then ok (quiet "missing pane_id" (str "") nudge)
    else if not (truthy nudge)
    then ok (quiet "verdict has no nudge" pane (str ""))
    else (send_command tools config pane nudge >>= λ command. ok (sent pane nudge command))

-- `mode or (observation.get("monitor") or {}).get("mode") or DEFAULT_MONITOR_MODE`
abbrev pub monitor_mode : Dict → Value → Result Value
monitor_mode observation mode =
    if truthy mode
    then ok mode
    else (dict_or_empty (get "monitor" observation) >>= λ monitor.
        ok (or_value (get "mode" monitor) (str "shadow")))

unfoldable pub build_monitor_actuation : Python → Tools → Dict → Dict → Dict → Value → Result Nudge
unfolding normalize_monitor_verdict
build_monitor_actuation py tools config observation verdict mode =
    dict_or_empty (get "control" observation) >>= λ control.
    monitor_mode observation mode >>= λ chosen. is_active chosen >>= λ active.
    dict_or_empty (get "worker" observation) >>= λ worker.
    choose py tools config (get_or "managed_by" (str "v2") control)
      (truthy (get_or "read_only" (bool false) control)) chosen active
      (get_or "pane_id" (str "") worker) (get "nudge" (normalize_monitor_verdict verdict))

-- The mode that counts: the one that is given, or else that of the observation, or else "shadow".
abbrev pub IsMode : Dict → Value → Value → Type 0
IsMode observation mode chosen =
    ((truthy mode ≡ true) × (chosen ≡ mode))
    ⊎ ((monitor : Dict) × (truthy mode ≡ false)
        × (dict_or_empty (get "monitor" observation) ≡ ok monitor)
        × (chosen ≡ or_value (get "mode" monitor) (str "shadow")))

monitor_mode-IsMode :
    (observation : Dict) (mode chosen : Value)
    → monitor_mode observation mode ≡ ok chosen
    → IsMode observation mode chosen
monitor_mode-IsMode observation mode chosen h = elim (Bool-cases (truthy mode)) [
  | inl e ↦ inl (e, sym (ok-inj mode chosen (rw e at h)))
  | inr e ↦
      let (monitor, found, left) =
        bind_ok (dict_or_empty (get "monitor" observation)) _ chosen (rw e at h) in
      inr (monitor, e, found, sym (ok-inj _ chosen left))
]

answer : (n q : Nudge) → ok q ≡ ok n → n.will_send ≡ q.will_send
answer n q h = ap Nudge.will_send (sym (ok-inj q n h))

choose_sends :
    (py : Python) (tools : Tools) (config : Dict) (managed_by : Value) (read_only : Bool)
    (mode : Value) (active : Bool) (pane nudge : Value) (n : Nudge)
    → choose py tools config managed_by read_only mode active pane nudge ≡ ok n
    → n.will_send ≡ (not read_only && is_v2 managed_by && active && truthy pane && truthy nudge)
choose_sends py tools config managed_by true mode active pane nudge n h = answer n _ h
choose_sends py tools config managed_by false mode active pane nudge n h =
    elim (Bool-cases (is_v2 managed_by)) [
      | inr e ↦ rw e (answer n (quiet (not_v2 py managed_by false) pane nudge) (rw e at h))
      | inl e ↦ rw e (by active (rw e at h))
    ]
  where
    last :
        (b c : Bool)
        → truthy pane ≡ b
        → truthy nudge ≡ c
        → (if not (truthy pane)
            then ok (quiet "missing pane_id" (str "") nudge)
            else if not (truthy nudge)
            then ok (quiet "verdict has no nudge" pane (str ""))
            else (send_command tools config pane nudge >>= λ command. ok (sent pane nudge command)))
          ≡ ok n
        → n.will_send ≡ (truthy pane && truthy nudge)
    last false c e f k = rw e (answer n (quiet "missing pane_id" (str "") nudge) (rw e at k))
    last true false e f k =
        rw (e, f) (answer n (quiet "verdict has no nudge" pane (str "")) (rw (e, f) at k))
    last true true e f k =
        let (command, _, done) =
          bind_ok (send_command tools config pane nudge) _ n (rw (e, f) at k) in
        rw (e, f) (answer n (sent pane nudge command) done)

    by :
        (a : Bool)
        → (if not a
            then ok (quiet (join "monitor mode is " (shown_mode py mode)) pane nudge)
            else if not (truthy pane)
            then ok (quiet "missing pane_id" (str "") nudge)
            else if not (truthy nudge)
            then ok (quiet "verdict has no nudge" pane (str ""))
            else (send_command tools config pane nudge >>= λ command. ok (sent pane nudge command)))
          ≡ ok n
        → n.will_send ≡ (a && truthy pane && truthy nudge)
    by false k = answer n _ k
    by true k = last (truthy pane) (truthy nudge) refl refl k

-- A nudge is sent exactly when the worker is not read-only and is managed by v2, the mode that is given,
-- or else that of the observation, or else "shadow", is active in letters of either case, and the pane and
-- the nudge are there.
pub build_monitor_sends :
    (py : Python) (tools : Tools) (config observation verdict : Dict) (mode : Value) (n : Nudge)
    → build_monitor_actuation py tools config observation verdict mode ≡ ok n
    → (control : Dict) × (worker : Dict) × (chosen : Value) × (active : Bool) × (dict_or_empty
          (get "control" observation)
        ≡ ok control)
      × (dict_or_empty (get "worker" observation) ≡ ok worker)
      × IsMode observation mode chosen
      × (is_active chosen ≡ ok active)
      × (n.will_send ≡ (
          not (truthy (get_or "read_only" (bool false) control))
          && is_v2 (get_or "managed_by" (str "v2") control)
          && active
          && truthy (get_or "pane_id" (str "") worker)
          && truthy (get "nudge" (normalize_monitor_verdict verdict))))
unfolding build_monitor_actuation
build_monitor_sends py tools config observation verdict mode n h =
    let (control, e1, h1) = bind_ok (dict_or_empty (get "control" observation)) _ n h in
    let (chosen, e2, h2) = bind_ok (monitor_mode observation mode) _ n h1 in
    let (active, e3, h3) = bind_ok (is_active chosen) _ n h2 in
    let (worker, e4, h4) = bind_ok (dict_or_empty (get "worker" observation)) _ n h3 in
    (
      control,
      worker,
      chosen,
      active,
      e1,
      e4,
      monitor_mode-IsMode observation mode chosen e2,
      e3,
      choose_sends py tools config (get_or "managed_by" (str "v2") control)
          (truthy (get_or "read_only" (bool false) control)) chosen active
          (get_or "pane_id" (str "") worker) (get "nudge" (normalize_monitor_verdict verdict)) n h4,
    )
