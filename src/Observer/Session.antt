-- ===== src/Observer/Session.antt =====
-- `_session_activity` of flotilla/observer.py: what the end of a session log says of a worker. The lines
-- are those of `_tail_lines`; `loads` is `json.loads`, with None where it raises.
use ker_sor_monitor.Prelude.{
  String, Bool, false, ◌&&◌, Option, none, some, List, [], ◌∷◌, ◌==◌, if◌then◌else◌,
}
use ker_sor_monitor.Prelude.Int.{ℤ, pos, ◌+ℤ◌}
use ker_sor_monitor.Prelude.Text.{cut}
use ker_sor_monitor.Result.{Result, ok, err, ◌>>=◌, attribute_error}
use ker_sor_monitor.Json.{
  Value, null, int, str, arr, obj, Values, nil, cons, Dict, get, truthy, or_value, dict_of,
}
use ker_sor_monitor.Lines.{strip, split}
use ker_sor_monitor.Generic.Values.{Python, to_int, dict_or_empty}

pub record Activity : Type 0 where
  pub last_activity : String
  pub last_tool : Value
  pub tokens : ℤ

abbrev first_line : List String → String
first_line [] = ""
first_line (s ∷ ss) = s

-- `text.strip().split("\n")[0][:140]`
abbrev pub headline : String → String
headline s = cut 140 (first_line (split 10 (strip s)))

abbrev is_type : String → Dict → Bool
is_type name d = elim (get "type" d) [ str s ↦ s == name | _ ↦ false ]

abbrev with_text : Activity → Value → Result Activity
with_text a (str s) = ok (record a { last_activity = headline s })
with_text a v = err attribute_error

-- One block of an assistant's message.
abbrev pub add_block : Activity → Value → Result Activity
add_block a (obj fs) =
    let d = dict_of fs in
    if is_type "text" d && truthy (get "text" d)
    then with_text a (get "text" d)
    else if is_type "tool_use" d
    then ok (record a { last_tool = get "name" d })
    else ok a
add_block a _ = ok a

abbrev pub add_blocks : Activity → Values → Result Activity
add_blocks a nil = ok a
add_blocks a (cons b bs) = add_block a b >>= λ next. add_blocks next bs

abbrev add_content : Activity → Value → Result Activity
add_content a (arr bs) = add_blocks a bs
add_content a _ = ok a

abbrev add_message : Dict → Dict → Activity → Result Activity
add_message ev message a =
    if is_type "assistant" ev then add_content a (get "content" message) else ok a

abbrev add_usage : Python → Dict → Activity → Result Activity
add_usage py usage a = to_int py (or_value (get "input_tokens" usage) (int (pos 0))) >>= λ i.
    to_int py (or_value (get "output_tokens" usage) (int (pos 0))) >>= λ o.
    ok (record a { tokens = a.tokens +ℤ (i +ℤ o) })

-- One line of the log; what is no dict has no `get`.
abbrev pub add_line : Python → Activity → Option Value → Result Activity
add_line py a none = ok a
add_line py a (some (obj fs)) = dict_or_empty (get "message" (dict_of fs)) >>= λ message.
    add_message (dict_of fs) message a >>= λ b.
    dict_or_empty (get "usage" message) >>= λ usage. add_usage py usage b
add_line py a (some v) = err attribute_error

abbrev pub add_lines : Python → (String → Option Value) → Activity → List String → Result Activity
add_lines py loads a [] = ok a
add_lines py loads a (line ∷ lines) =
    add_line py a (loads line) >>= λ next. add_lines py loads next lines

unfoldable pub session_activity : Python → (String → Option Value) → List String → Result Activity
session_activity py loads lines =
    add_lines py loads (record { last_activity = ""; last_tool = null; tokens = pos 0 }) lines
