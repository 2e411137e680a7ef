-- ===== src/Generic/Verdict.antt =====
-- `validate_generic_verdict` and `parse_verdict_runner_output` of scripts/generic_control.py: what a
-- model answers about a worker, brought into form.
use ker_sor_monitor.Prelude.{
  String, ◌≡◌, refl, Bool, true, List, [], ◌∷◌, ◌==◌, if◌then◌else◌, any_of, Bool-cases, inl, inr,
}
use mathlib.Core.Path.{subst}
use ker_sor_monitor.Prelude.Int.{ℤ, pos}
use ker_sor_monitor.Result.{Result, ok, err, ◌>>=◌, value_error}
use ker_sor_monitor.Json.{
  Value, null, bool, float, arr, int, str, obj, Dict, get, truthy, dict_of, or_value,
}
use ker_sor_monitor.Generic.Values.{Python, text_of, to_int, has_key}

pub record Verdict : Type 0 where
  pub activity : String
  pub phase : String
  pub progress : String
  pub blocked_on : String
  pub required_next_step : String
  pub needs_human : Bool
  pub nudge : String
  pub confidence : String
  pub reason : String
  pub next_check_seconds : ℤ

abbrev pub activities : List String
activities =
    "running" ∷ "idle" ∷ "stalled" ∷ "waiting" ∷ "needs_human" ∷ "complete" ∷ "unknown" ∷ []

abbrev pub confidences : List String
confidences = "low" ∷ "medium" ∷ "high" ∷ []

-- `s in …`
abbrev pub is_one_of : List String → String → Bool
is_one_of names s = any_of (λ n. n == s) names

abbrev pub or_name : List String → String → String → String
or_name names other s = if is_one_of names s then s else other

-- `str(d.get(k) or other)`
abbrev pub named_text : Python → String → String → Dict → String
named_text py k other d = if truthy (get k d) then text_of py k d else other

abbrev normalized : Python → Dict → ℤ → Verdict
normalized py d seconds = record {
  activity = or_name activities "unknown" (named_text py "activity" "unknown" d);
  phase = text_of py "phase" d;
  progress = text_of py "progress" d;
  blocked_on = text_of py "blocked_on" d;
  required_next_step = text_of py "required_next_step" d;
  needs_human = truthy (get "needs_human" d);
  nudge = text_of py "nudge" d;
  confidence = or_name confidences "low" (named_text py "confidence" "low" d);
  reason = text_of py "reason" d;
  next_check_seconds = seconds;
}

unfoldable pub validate_generic_verdict : Python → Value → Result Verdict
validate_generic_verdict py (obj fs) =
    let d = dict_of fs in
    to_int py (or_value (get "next_check_seconds" d) (int (pos 0))) >>= λ seconds.
    ok (normalized py d seconds)
validate_generic_verdict py _ = err value_error

abbrev loaded : Python → (String → Result Value) → String → Result Verdict
loaded py loads s = loads s >>= validate_generic_verdict py

abbrev inner : Python → (String → Result Value) → Dict → Value → Value → Result Verdict
inner py loads d (str s) _ = loaded py loads s
inner py loads d _ (str s) = loaded py loads s
inner py loads d _ _ = err value_error

abbrev pub in_answer : Python → (String → Result Value) → Value → Result Verdict
in_answer py loads (obj fs) =
    if has_key "activity" (dict_of fs)
    then validate_generic_verdict py (obj fs)
    else inner py loads (dict_of fs) (get "result" (dict_of fs)) (get "content" (dict_of fs))
in_answer py loads _ = err value_error

-- `loads` is `json.loads`.
unfoldable pub parse_verdict_runner_output :
    Python → (String → Result Value) → String → Result Verdict
unfolding validate_generic_verdict
parse_verdict_runner_output py loads stdout = loads stdout >>= in_answer py loads

-- The names are those of the schema.
abbrev pub IsNamed : Verdict → Type 0
IsNamed v = (is_one_of activities v.activity ≡ true) × (is_one_of confidences v.confidence ≡ true)

or_name_lem :
    (names : List String) (other s : String)
    → is_one_of names other ≡ true
    → is_one_of names (or_name names other s) ≡ true
or_name_lem names other s h = elim (Bool-cases (is_one_of names s)) [
  | inl e ↦ rw e e
  | inr e ↦ rw e h
]

abbrev Names : Result Verdict → Type 0
Names (ok v) = IsNamed v
Names (err e) = Unit

validate-Names : (py : Python) (v : Value) → Names (validate_generic_verdict py v)
unfolding validate_generic_verdict
validate-Names py (obj fs) =
    go (to_int py (or_value (get "next_check_seconds" (dict_of fs)) (int (pos 0))))
  where
    go : (r : Result ℤ) → Names (r >>= λ seconds. ok (normalized py (dict_of fs) seconds))
    go (ok seconds) = (
      or_name_lem activities "unknown" (named_text py "activity" "unknown" (dict_of fs)) refl,
      or_name_lem confidences "low" (named_text py "confidence" "low" (dict_of fs)) refl,
    )
    go (err e) = tt
validate-Names py null = tt
validate-Names py (bool b) = tt
validate-Names py (int n) = tt
validate-Names py (float x) = tt
validate-Names py (str s) = tt
validate-Names py (arr vs) = tt

loaded-Names :
    (py : Python) (loads : String → Result Value) (r : Result Value)
    → Names (r >>= validate_generic_verdict py)
loaded-Names py loads (ok v) = validate-Names py v
loaded-Names py loads (err e) = tt

inner-Names :
    (py : Python) (loads : String → Result Value) (d : Dict) (v w : Value)
    → Names (inner py loads d v w)
inner-Names py loads d (str s) w = loaded-Names py loads (loads s)
inner-Names py loads d null (str s) = loaded-Names py loads (loads s)
inner-Names py loads d null null = tt
inner-Names py loads d null (bool b') = tt
inner-Names py loads d null (int n') = tt
inner-Names py loads d null (float x') = tt
inner-Names py loads d null (arr vs') = tt
inner-Names py loads d null (obj fs') = tt
inner-Names py loads d (bool b) (str s) = loaded-Names py loads (loads s)
inner-Names py loads d (bool b) null = tt
inner-Names py loads d (bool b) (bool b') = tt
inner-Names py loads d (bool b) (int n') = tt
inner-Names py loads d (bool b) (float x') = tt
inner-Names py loads d (bool b) (arr vs') = tt
inner-Names py loads d (bool b) (obj fs') = tt
inner-Names py loads d (int n) (str s) = loaded-Names py loads (loads s)
inner-Names py loads d (int n) null = tt
inner-Names py loads d (int n) (bool b') = tt
inner-Names py loads d (int n) (int n') = tt
inner-Names py loads d (int n) (float x') = tt
inner-Names py loads d (int n) (arr vs') = tt
inner-Names py loads d (int n) (obj fs') = tt
inner-Names py loads d (float x) (str s) = loaded-Names py loads (loads s)
inner-Names py loads d (float x) null = tt
inner-Names py loads d (float x) (bool b') = tt
inner-Names py loads d (float x) (int n') = tt
inner-Names py loads d (float x) (float x') = tt
inner-Names py loads d (float x) (arr vs') = tt
inner-Names py loads d (float x) (obj fs') = tt
inner-Names py loads d (arr vs) (str s) = loaded-Names py loads (loads s)
inner-Names py loads d (arr vs) null = tt
inner-Names py loads d (arr vs) (bool b') = tt
inner-Names py loads d (arr vs) (int n') = tt
inner-Names py loads d (arr vs) (float x') = tt
inner-Names py loads d (arr vs) (arr vs') = tt
inner-Names py loads d (arr vs) (obj fs') = tt
inner-Names py loads d (obj fs) (str s) = loaded-Names py loads (loads s)
inner-Names py loads d (obj fs) null = tt
inner-Names py loads d (obj fs) (bool b') = tt
inner-Names py loads d (obj fs) (int n') = tt
inner-Names py loads d (obj fs) (float x') = tt
inner-Names py loads d (obj fs) (arr vs') = tt
inner-Names py loads d (obj fs) (obj fs') = tt

answer-Names :
    (py : Python) (loads : String → Result Value) (v : Value) → Names (in_answer py loads v)
answer-Names py loads (obj fs) = elim (Bool-cases (has_key "activity" (dict_of fs))) [
  | inl e ↦ rw e (validate-Names py (obj fs))
  | inr e ↦
      rw e
        (inner-Names py loads (dict_of fs) (get "result" (dict_of fs)) (get "content" (dict_of fs)))
]
answer-Names py loads null = tt
answer-Names py loads (bool b) = tt
answer-Names py loads (int n) = tt
answer-Names py loads (float x) = tt
answer-Names py loads (str s) = tt
answer-Names py loads (arr vs) = tt

-- A verdict that is taken from the answer of the model, wherever it stands in it and whatever it says,
-- has an activity and a confidence that the schema names.
pub parse_verdict-IsNamed :
    (py : Python) (loads : String → Result Value) (stdout : String) (v : Verdict)
    → parse_verdict_runner_output py loads stdout ≡ ok v
    → IsNamed v
unfolding parse_verdict_runner_output
parse_verdict-IsNamed py loads stdout v h = subst Names h (go (loads stdout))
  where
    go : (r : Result Value) → Names (r >>= in_answer py loads)
    go (ok a) = answer-Names py loads a
    go (err e) = tt
