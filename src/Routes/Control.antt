-- ===== src/Routes/Control.antt =====
-- `actuate` of flotilla/routes.py: a user's request to a task, and its record.
use ker_sor_monitor.Prelude.{
  ℕ, String, Bool, false, not, ◌||◌, Option, none, some, [], ◌∷◌, ◌==◌, if◌then◌else◌, is_some,
  any_of, leb, or_else,
}
use ker_sor_monitor.Result.{Result, ok, err, ◌>>=◌, http_error, type_error}
use ker_sor_monitor.Json.{Value, str, obj, end, Dict, get, lookup, arr, dict_of, object_of}
use ker_sor_monitor.Runtime.Shell.{is_blank}
use ker_sor_monitor.Store.Tasks.{get_task}
use ker_sor_monitor.World.{World, Outside}
use ker_sor_monitor.Actuator.{event}
use ker_sor_monitor.Actuator.Steer.{Reply, accepted, refused, actuate}
use ker_sor_monitor.Routes.Create.{require}
use ker_sor_monitor.Routes.Ping.{append}

-- `action not in {…}`; a list or a dict cannot be looked up in a set.
abbrev action_of : Value → Result String
action_of (str s) =
    if any_of (λ a. s == a) ("nudge" ∷ "pause" ∷ "resume" ∷ "stop" ∷ [])
    then ok s
    else err (http_error 400)
action_of (arr _) = err type_error
action_of (obj _) = err type_error
action_of _ = err (http_error 400)

abbrev object_payload : Value → Option Dict
object_payload (obj fs) = some (dict_of fs)
object_payload _ = none

abbrev has_text : Value → Bool
has_text (str s) = not (is_blank s)
has_text _ = false

abbrev checked_payload : (Dict → ℕ) → String → Option Dict → Result (String × Dict)
checked_payload json_length action none = err (http_error 400)
checked_payload json_length action (some payload) =
    require (leb (json_length payload) 16384) 413 >>= λ _.
    require (not (action == "nudge") || has_text (get "text" payload)) 400 >>= λ _.
    ok (action, payload)

-- The action and the payload of a request.
unfoldable pub check_request : (Dict → ℕ) → Dict → Result (String × Dict)
check_request json_length body = action_of (or_else (lookup "action" body) (str "")) >>= λ action.
    checked_payload json_length action (object_payload (or_else (lookup "payload" body) (obj end)))

abbrev pub actuation : String → Dict → Dict
actuation action payload = ("action", str action) ∷ ("payload", obj (object_of payload)) ∷ []

abbrev pub steered :
    Outside → String → String → Dict → Result Reply × World → Result (Unit {0}) × World
steered out tid action payload (ok (accepted a), w) =
    append out (event out tid "actuation" (actuation action payload)) w
steered out tid action payload (ok refused, w) = (err (http_error 409), w)
steered out tid action payload (err e, w) = (err e, w)

abbrev pub requested : Outside → String → World → Result (String × Dict) → Result (Unit {0}) × World
requested out tid w (err e) = (err e, w)
requested out tid w (ok (action, payload)) =
    steered out tid action payload (actuate out tid action payload w)

-- The handler, without its publication.
unfoldable pub post_actuate :
    Outside → (Dict → ℕ) → String → Dict → World → Result (Unit {0}) × World
unfolding check_request append
post_actuate out json_length tid body w =
    if is_some (get_task w.db tid)
    then requested out tid w (check_request json_length body)
    else (err (http_error 404), w)
