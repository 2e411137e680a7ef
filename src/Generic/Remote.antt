-- ===== src/Generic/Remote.antt =====
-- The settings and the bundle of a remote monitor, in scripts/generic_control.py.
use ker_sor_monitor.Prelude.{
  ◌≡◌, refl, Bool-cases, inl, inr, ℕ, String, Bool, true, false, ◌&&◌, ◌||◌, [], ◌∷◌, ◌==◌,
  if◌then◌else◌, nat_beq, leb, arith,
}
use ker_sor_monitor.Prelude.Text.{join}
use ker_sor_monitor.Result.{Result, ok, ◌>>=◌}
use ker_sor_monitor.Json.{
  Value, str, arr, obj, nil, cons, end, field, Dict, get, truthy, or_value, assign, object_of,
}
use ker_sor_monitor.Generic.Values.{Python, text, dict_or_empty}
use ker_sor_monitor.Generic.Policy.{generic_worker, worker_flow, worker_policy}
use ker_sor_monitor.Generic.Observation.{item}
use ker_sor_monitor.SafeId.{IsInert}
use Prim.Native.Char.{code}

-- `[A-Za-z0-9_.-]`
abbrev pub is_filename_char : ℕ → Bool
is_filename_char c =
    (leb b'A' c && leb c b'Z')
    || (leb b'a' c && leb c b'z')
    || (leb b'0' c && leb c b'9')
    || nat_beq c b'_'
    || nat_beq c b'.'
    || nat_beq c b'-'

-- `re.sub(r"[^A-Za-z0-9_.-]+", "-", value)`; `replaced` says that the character before was replaced.
abbrev pub replace_others : Bool → String → String
replace_others replaced String.[] = String.[]
replace_others replaced (String.◌∷◌ c s) =
    let plain = replace_others false s in
    let dashed = replace_others true s in
    if is_filename_char (code c)
    then String.◌∷◌ c plain
    else if replaced
    then dashed
    else join "-" dashed

-- `s.lstrip(c)`
abbrev lstrip_char : ℕ → String → String
lstrip_char d String.[] = String.[]
lstrip_char d (String.◌∷◌ c s) =
    let rest = lstrip_char d s in if nat_beq (code c) d then rest else String.◌∷◌ c s

-- `s.rstrip(c)`
abbrev pub rstrip_char : ℕ → String → String
rstrip_char d String.[] = String.[]
rstrip_char d (String.◌∷◌ c s) =
    let rest = rstrip_char d s in
    if nat_beq (code c) d && (rest == "") then String.[] else String.◌∷◌ c rest

unfoldable pub safe_filename : String → String
safe_filename value =
    let safe = rstrip_char b'-' (lstrip_char b'-' (replace_others false value)) in
    if safe == "" then "worker" else safe

abbrev base_dir : String
base_dir = "/home/Agent-lsh/.local/share/kda-monitor"

abbrev configured_dir : Python → Dict → Result String
configured_dir py worker =
    if truthy (get "remote_monitor_dir" worker)
    then ok (rstrip_char b'/' (text py (get "remote_monitor_dir" worker)))
    else (item "id" worker >>= λ wid. ok (join base_dir (join "/" (safe_filename (text py wid)))))

-- `override` is the empty text where it is None.
unfoldable pub remote_monitor_dir : Python → Dict → String → Result String
unfolding safe_filename
remote_monitor_dir py worker override =
    if override == "" then configured_dir py worker else ok (rstrip_char b'/' override)

abbrev given_or : Python → Value → String → String
given_or py v other = if truthy v then text py v else other

abbrev settings_of : Python → Dict → String → String → Dict
settings_of py worker root wid =
    ("dir", str root)
    ∷ ("session", str (given_or py (get "monitor_tmux_session" worker) "newkw"))
    ∷ (
      "window",
      str (given_or py (get "monitor_window" worker) (join "monitor-" (safe_filename wid))),
    )
    ∷ ("bundle_path", str (join root "/bundle.json"))
    ∷ ("state_path", str (join root "/state.json"))
    ∷ ("log_path", str (join root "/logs/monitor.log"))
    ∷ ("artifact_dir", str (join root "/artifacts"))
    ∷ []

unfoldable pub remote_monitor_settings : Python → Dict → String → Result Dict
unfolding remote_monitor_dir safe_filename
remote_monitor_settings py worker override = remote_monitor_dir py worker override >>= λ root.
    item "id" worker >>= λ wid. ok (settings_of py worker root (text py wid))

abbrev single : Python → Value → Dict → Dict
single py key d = (text py key, obj (object_of d)) ∷ []

abbrev bundle_of : Python → Dict → Value → String → Value → Dict → Value → Dict → Dict → Dict → Dict
bundle_of py settings directory wid flow_id flow policy_id policy worker runner =
    let remote_worker = assign "remote_monitor_dir" directory worker in
    ("schema", str "generic-remote-monitor-bundle/v1")
    ∷ ("output_dir", or_value (get "artifact_dir" settings) (str ""))
    ∷ ("flows_by_id", obj (object_of (single py flow_id flow)))
    ∷ ("policies_by_id", obj (object_of (single py policy_id policy)))
    ∷ ("workers", arr (cons (obj (object_of remote_worker)) nil))
    ∷ ("workers_by_id", obj (field wid (obj (object_of remote_worker)) end))
    ∷ ("verdict_runner", obj (object_of runner))
    ∷ ("remote_monitor", obj (object_of (("worker_id", str wid) ∷ settings)))
    ∷ []

-- `build_remote_monitor_bundle`, on the tables of the configuration
unfoldable pub build_remote_monitor_bundle :
    Python → Dict → Dict → Dict → Dict → String → String → Result Dict
unfolding remote_monitor_settings
build_remote_monitor_bundle py workers flows policies config wid override =
    generic_worker workers wid >>= λ worker. worker_flow flows worker >>= λ flow.
    worker_policy policies worker >>= λ policy.
    remote_monitor_settings py worker override >>= λ settings. item "id" flow >>= λ flow_id.
    item "id" policy >>= λ policy_id. dict_or_empty (get "verdict_runner" config) >>= λ runner.
    ok (bundle_of py settings (get "dir" settings) wid flow_id flow policy_id policy worker runner)

-- Every character of the name is inert: no separator of paths, no sign of a shell.
abbrev pub IsFilename : String → Type 0
IsFilename String.[] = Unit
IsFilename (String.◌∷◌ c s) = IsInert (code c) × IsFilename s

filename-IsInert : (c : ℕ) → is_filename_char c ≡ true → IsInert c
filename-IsInert c h = ground arith

replaced-IsFilename : (b : Bool) (s : String) → IsFilename (replace_others b s)
unfolding join
replaced-IsFilename b String.[] = tt
replaced-IsFilename b (String.◌∷◌ c s) = elim (Bool-cases (is_filename_char (code c))) [
  | inl e ↦ rw e (filename-IsInert (code c) e, replaced-IsFilename false s)
  | inr e ↦ rw e (dashed b (replaced-IsFilename true s))
]
  where
    dashed :
        (d : Bool)
        → IsFilename (replace_others true s)
        → IsFilename (if d then replace_others true s else join "-" (replace_others true s))
    dashed true h = h
    dashed false h = (filename-IsInert b'-' refl, h)

lstrip-IsFilename : (d : ℕ) (s : String) → IsFilename s → IsFilename (lstrip_char d s)
lstrip-IsFilename d String.[] h = tt
lstrip-IsFilename d (String.◌∷◌ c s) h = elim (Bool-cases (nat_beq (code c) d)) [
  | inl e ↦ rw e (lstrip-IsFilename d s h.1)
  | inr e ↦ rw e h
]

rstrip-IsFilename : (d : ℕ) (s : String) → IsFilename s → IsFilename (rstrip_char d s)
rstrip-IsFilename d String.[] h = tt
rstrip-IsFilename d (String.◌∷◌ c s) h =
    elim (Bool-cases (nat_beq (code c) d && (rstrip_char d s == ""))) [
      | inl e ↦ rw e tt
      | inr e ↦ rw e (h.0, rstrip-IsFilename d s h.1)
    ]

worker-IsFilename : IsFilename "worker"
worker-IsFilename = (
  filename-IsInert b'w' refl,
  (
    filename-IsInert b'o' refl,
    (
      filename-IsInert b'r' refl,
      (filename-IsInert b'k' refl, (filename-IsInert b'e' refl, (filename-IsInert b'r' refl, tt))),
    ),
  ),
)

-- Whatever text it is made from, the name is not empty, and every character of it is printable and
-- none of the ASCII signs with a meaning to a shell or of the separator of paths. The names "." and ".."
-- come out as they are.
pub safe_filename-IsFilename :
    (value : String) → IsFilename (safe_filename value) × ((safe_filename value == "") ≡ false)
unfolding safe_filename
safe_filename-IsFilename value = elim (Bool-cases (safe == "")) [
  | inl e ↦ rw e (worker-IsFilename, refl)
  | inr e ↦ rw e (
    rstrip-IsFilename b'-' (lstrip_char b'-' (replace_others false value))
        (lstrip-IsFilename b'-' (replace_others false value) (replaced-IsFilename false value)),
    e,
  )
]
  where
    safe : String
    safe = rstrip_char b'-' (lstrip_char b'-' (replace_others false value))
