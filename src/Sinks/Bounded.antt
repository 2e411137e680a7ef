-- ===== src/Sinks/Bounded.antt =====
-- The limits on what `normalize_status_record` of flotilla/sinks/__init__.py lets through.
use ker_sor_monitor.Prelude.{
  ℕ, ◌≤◌, ◌≡◌, refl, String, Bool, true, false, Option, none, some, leb, if◌then◌else◌, length,
  arith, ◌==◌, length-take, Bool-cases, inl, tests, inr,
}
use ker_sor_monitor.Prelude.Int.{ℤ, pos, negsuc}
use ker_sor_monitor.Prelude.Text.{codes, codes-cut}
use ker_sor_monitor.Json.{
  Float, finite, infinity, nan, Value, null, bool, int, float, str, arr, obj, Dict, lookup, assign,
  get, lookup-assign,
}
use ker_sor_monitor.Sinks.Status.{
  normalize_status_record, speedup_value, counter_value, text_value, bound_counter, bound_text,
  finite_value,
}

abbrev pub IsFinite : Option Value → Type 0
IsFinite (some null) = Unit
IsFinite (some (float (finite m e))) = Unit
IsFinite _ = ⊥

-- Absent, or a natural number up to the limit.
abbrev pub IsCounter : ℕ → Option Value → Type 0
IsCounter limit none = Unit
IsCounter limit (some (int (pos n))) = n ≤ limit
IsCounter limit (some _) = ⊥

-- A text of at most so many characters, or None where that is allowed.
abbrev pub IsText : ℕ → Bool → Option Value → Type 0
IsText limit nullable (some (str s)) = length (codes s) ≤ limit
IsText limit nullable (some null) = nullable ≡ true
IsText limit nullable _ = ⊥

abbrev pub IsFlag : Option Value → Type 0
IsFlag (some (bool b)) = Unit
IsFlag _ = ⊥

pub record IsNormal (d : Dict) : Type 0 where
  pub speedup : IsFinite (lookup "speedup" d)
  pub rounds : IsCounter 10000000 (lookup "rounds" d)
  pub candidates : IsCounter 10000000 (lookup "candidates" d)
  pub tokens : IsCounter 1000000000000000 (lookup "tokens" d)
  pub status_state : IsText 64 true (lookup "status_state" d)
  pub best_candidate : IsText 1024 true (lookup "best_candidate" d)
  pub timestamp : IsText 128 false (lookup "timestamp" d)
  pub pane_tail : IsText 16384 false (lookup "pane_tail" d)
  pub session_uuid : IsText 256 true (lookup "session_uuid" d)
  pub last_activity : IsText 2048 false (lookup "last_activity" d)
  pub last_tool : IsText 256 true (lookup "last_tool" d)
  pub source : IsText 128 true (lookup "source" d)
  pub exited : IsFlag (lookup "exited" d)

finite_value-IsFinite : (x : Option Float) → IsFinite (some (finite_value x))
finite_value-IsFinite none = tt
finite_value-IsFinite (some (finite m e)) = tt
finite_value-IsFinite (some (infinity b)) = tt
finite_value-IsFinite (some nan) = tt

speedup_value-IsFinite : (f : ℤ → Option Float) (v : Value) → IsFinite (some (speedup_value f v))
speedup_value-IsFinite f (int n) = finite_value-IsFinite (f n)
speedup_value-IsFinite f (float x) = finite_value-IsFinite (some x)
speedup_value-IsFinite f null = tt
speedup_value-IsFinite f (bool b) = tt
speedup_value-IsFinite f (str s) = tt
speedup_value-IsFinite f (arr vs) = tt
speedup_value-IsFinite f (obj fs) = tt

blank-IsText :
    (limit : ℕ) (nullable : Bool) → IsText limit nullable (some (if nullable then null else str ""))
blank-IsText limit true = refl
blank-IsText limit false = omega arith

text_value-IsText :
    (limit : ℕ) (nullable : Bool) (v : Value)
    → IsText limit nullable (some (text_value limit nullable v))
text_value-IsText limit nullable (str s) =
    rw (codes-cut limit s) (omega (arith, length-take limit (codes s)))
text_value-IsText limit nullable null = blank-IsText limit nullable
text_value-IsText limit nullable (bool b) = blank-IsText limit nullable
text_value-IsText limit nullable (int n) = blank-IsText limit nullable
text_value-IsText limit nullable (float x) = blank-IsText limit nullable
text_value-IsText limit nullable (arr vs) = blank-IsText limit nullable
text_value-IsText limit nullable (obj fs) = blank-IsText limit nullable

capped-IsCounter :
    (limit n : ℕ) → IsCounter limit (some (if leb n limit then int (pos n) else int (pos 0)))
capped-IsCounter limit n = elim (Bool-cases (leb n limit)) [
  | inl e ↦ rw e (omega (tests, e))
  | inr e ↦ rw e (omega arith)
]

counter_value-IsCounter : (limit : ℕ) (v : Value) → IsCounter limit (some (counter_value limit v))
counter_value-IsCounter limit (int (pos n)) = capped-IsCounter limit n
counter_value-IsCounter limit (int (negsuc n)) = omega arith
counter_value-IsCounter limit null = omega arith
counter_value-IsCounter limit (bool b) = omega arith
counter_value-IsCounter limit (float x) = omega arith
counter_value-IsCounter limit (str s) = omega arith
counter_value-IsCounter limit (arr vs) = omega arith
counter_value-IsCounter limit (obj fs) = omega arith

pub lookup-bound_text :
    (k : String) (source : Dict) (key : String) (limit : ℕ) (nullable : Bool) (result : Dict)
    → lookup k (bound_text source key limit nullable result)
      ≡ (if key == k then some (text_value limit nullable (get key source)) else lookup k result)
unfolding bound_text
lookup-bound_text k source key limit nullable result =
    lookup-assign k key (text_value limit nullable (get key source)) result

-- A counter where the source has one.
abbrev pub counter : ℕ → Option Value → Option Value → Option Value
counter limit none before = before
counter limit (some v) before = some (counter_value limit v)

pub lookup-bound_counter :
    (k : String) (source : Dict) (key : String) (limit : ℕ) (result : Dict)
    → lookup k (bound_counter source key limit result)
      ≡ (if key == k then counter limit (lookup key source) (lookup k result) else lookup k result)
unfolding bound_counter
lookup-bound_counter k source key limit result = by (lookup key source)
  where
    by :
        (o : Option Value)
        → lookup k (elim o [ none ↦ result | some v ↦ assign key (counter_value limit v) result ])
          ≡ (if key == k then counter limit o (lookup k result) else lookup k result)
    by none = ground arith
    by (some v) = lookup-assign k key (counter_value limit v) result

counter-IsCounter : (limit : ℕ) (o : Option Value) → IsCounter limit (counter limit o o)
counter-IsCounter limit none = tt
counter-IsCounter limit (some v) = counter_value-IsCounter limit v

pub ruleset looked_up = (lookup-assign, lookup-bound_text, lookup-bound_counter)

-- Whatever the worker wrote, the record that is stored and published has the documented type and
-- limit at every key.
pub normalize-IsNormal :
    (float_of : ℤ → Option Float) (d : Dict) → IsNormal (normalize_status_record float_of d)
unfolding normalize_status_record
normalize-IsNormal f d = record {
  speedup = simp looked_up (speedup_value-IsFinite f (get "speedup" d));
  rounds = simp looked_up (counter-IsCounter 10000000 (lookup "rounds" d));
  candidates = simp looked_up (counter-IsCounter 10000000 (lookup "candidates" d));
  tokens = simp looked_up (counter-IsCounter 1000000000000000 (lookup "tokens" d));
  status_state = simp looked_up (text_value-IsText 64 true (get "status_state" d));
  best_candidate = simp looked_up (text_value-IsText 1024 true (get "best_candidate" d));
  timestamp = simp looked_up (text_value-IsText 128 false (get "timestamp" d));
  pane_tail = simp looked_up (text_value-IsText 16384 false (get "pane_tail" d));
  session_uuid = simp looked_up (text_value-IsText 256 true (get "session_uuid" d));
  last_activity = simp looked_up (text_value-IsText 2048 false (get "last_activity" d));
  last_tool = simp looked_up (text_value-IsText 256 true (get "last_tool" d));
  source = simp looked_up (text_value-IsText 128 true (get "source" d));
  exited = simp looked_up tt;
}
