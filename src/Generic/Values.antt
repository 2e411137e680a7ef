-- ===== src/Generic/Values.antt =====
-- Python's conversions of the values that scripts/generic_control.py reads.
use ker_sor_monitor.Prelude.{String, Bool, true, false, [], if◌then◌else◌, is_some}
use ker_sor_monitor.Prelude.Int.{ℤ, pos}
use ker_sor_monitor.Result.{Result, ok, err, type_error, attribute_error}
use ker_sor_monitor.Json.{
  Value, bool, int, float, str, arr, obj, Values, nil, cons, Fields, end, field, Dict, get, truthy,
  dict_of, or_value, lookup,
}

-- What the interpreter answers.
pub record Python : Type 0 where
  -- `str(v)`, for a value that is no text
  pub show : Value → String
  -- `int(v)`, for a text or a float
  pub number : Value → Result ℤ
  -- `s.upper()`
  pub upper : String → String
  -- `s.lower()`, where the result is shown
  pub lower : String → String

-- `str(v)`
abbrev pub text : Python → Value → String
text py (str s) = s
text py v = py.show v

-- `str(d.get(k) or "")`
abbrev pub text_of : Python → String → Dict → String
text_of py k d = text py (or_value (get k d) (str ""))

-- `int(v)`
abbrev pub to_int : Python → Value → Result ℤ
to_int py (int n) = ok n
to_int py (bool true) = ok (pos 1)
to_int py (bool false) = ok (pos 0)
to_int py (str s) = py.number (str s)
to_int py (float x) = py.number (float x)
to_int py _ = err type_error

-- `v or {}`, where a method of dict is called on it
abbrev pub dict_or_empty : Value → Result Dict
dict_or_empty (obj fs) = ok (dict_of fs)
dict_or_empty v = if truthy v then err attribute_error else ok []

-- The characters of a text, as texts.
abbrev letters : String → Values
letters String.[] = nil
letters (String.◌∷◌ c s) = cons (str (String.◌∷◌ c String.[])) (letters s)

abbrev keys_of : Fields → Values
keys_of end = nil
keys_of (field k v fs) = cons (str k) (keys_of fs)

-- `list(v)`
abbrev pub to_list : Value → Result Values
to_list (arr vs) = ok vs
to_list (str s) = ok (letters s)
to_list (obj fs) = ok (keys_of fs)
to_list _ = err type_error

-- `k in d`
abbrev pub has_key : String → Dict → Bool
has_key k d = is_some (lookup k d)
