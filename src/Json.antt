-- ===== src/Json.antt =====
-- The values of Python's `dict[str, Any]` as `json` reads and writes them, and the operations on
-- them that flotilla/ uses.
use ker_sor_monitor.Prelude.{
  ◌≡◌, refl, ap, arith, eq_iff, zero, suc, String, Bool, true, false, not, Option, none, some, List,
  [], ◌∷◌, ◌==◌, if◌then◌else◌, or_else, is_some, Bool-cases, inl, inr,
}
use ker_sor_monitor.Prelude.Int.{ℤ, pos, negsuc}

-- An IEEE double: mantissa and exponent of two, an infinity with its sign, or not a number.
pub data Float : Type 0 where
  finite : ℤ → ℤ → Float
  infinity : Bool → Float
  nan : Float

mutual
  pub data Value : Type 0 where
    null : Value
    bool : Bool → Value
    int : ℤ → Value
    float : Float → Value
    str : String → Value
    arr : Values → Value
    obj : Fields → Value

  pub data Values : Type 0 where
    nil : Values
    cons : Value → Values → Values

  pub data Fields : Type 0 where
    end : Fields
    field : String → Value → Fields → Fields

-- A dict in the order of insertion.
abbrev pub Dict : Type 0
Dict = List (String × Value)

-- `d.get(k)`
unfoldable pub lookup : String → Dict → Option Value
lookup k [] = none
lookup k ((j, v) ∷ d) = if j == k then some v else lookup k d

-- `d[k] = v`: a key that is there keeps its place.
unfoldable pub assign : String → Value → Dict → Dict
assign k v [] = (k, v) ∷ []
assign k v ((j, w) ∷ d) = if j == k then (j, v) ∷ d else (j, w) ∷ assign k v d

pub lookup-assign :
    (k j : String) (v : Value) (d : Dict)
    → lookup k (assign j v d) ≡ (if j == k then some v else lookup k d)
unfolding lookup assign
lookup-assign k j v [] = refl
lookup-assign k j v ((i, w) ∷ d) =
    ground (arith, lookup-assign k j v d, eq_iff i j, eq_iff i k, eq_iff j k)

-- `d.get(k)`, with None for a key that is not there.
abbrev pub get : String → Dict → Value
get k d = or_else (lookup k d) null

abbrev pub opt_str : Option String → Value
opt_str none = null
opt_str (some s) = str s

-- `bool(v)`
unfoldable pub truthy : Value → Bool
truthy null = false
truthy (bool b) = b
truthy (int (pos zero)) = false
truthy (int (pos (suc _))) = true
truthy (int (negsuc _)) = true
truthy (float (finite (pos zero) _)) = false
truthy (float _) = true
truthy (str s) = not (s == "")
truthy (arr nil) = false
truthy (arr (cons _ _)) = true
truthy (obj end) = false
truthy (obj (field _ _ _)) = true

-- An object as a dict, and back.
abbrev pub dict_of : Fields → Dict
dict_of end = []
dict_of (field k v more) = (k, v) ∷ dict_of more

abbrev pub object_of : Dict → Fields
object_of [] = end
object_of ((k, v) ∷ d) = field k v (object_of d)

-- A list as an array, and back.
abbrev pub array_of : List Value → Values
array_of [] = nil
array_of (v ∷ vs) = cons v (array_of vs)

abbrev pub list_of : Values → List Value
list_of nil = []
list_of (cons v vs) = v ∷ list_of vs

-- `d.setdefault(k, v)`
unfoldable pub setdefault : String → Value → Dict → Dict
setdefault k v d = if is_some (lookup k d) then d else assign k v d

-- A row of `setdefault` calls.
unfoldable pub with_defaults : Dict → Dict → Dict
unfolding setdefault
with_defaults [] d = d
with_defaults ((k, v) ∷ defaults) d = with_defaults defaults (setdefault k v d)

-- `d.get(k, v)`
abbrev pub get_or : String → Value → Dict → Value
get_or k v d = or_else (lookup k d) v

-- `v or w`
abbrev pub or_value : Value → Value → Value
or_value v w = if truthy v then v else w

pub lookup-setdefault :
    (k j : String) (v : Value) (d : Dict)
    → lookup k (setdefault j v d)
      ≡ (if is_some (lookup k d) then lookup k d else if j == k then some v else none)
unfolding setdefault
lookup-setdefault k j v d = elim (Bool-cases (j == k)) [
  | inl e ↦
      let same : j ≡ k = (eq_iff j k).0 e in
      ground (arith, lookup-assign k j v d, ap (λ x. lookup x d) same, e)
  | inr e ↦ ground (arith, lookup-assign k j v d, e)
]

-- A key that is there keeps its value, another takes that of the first default for it.
pub lookup-with_defaults :
    (k : String) (defaults d : Dict)
    → lookup k (with_defaults defaults d)
      ≡ (if is_some (lookup k d) then lookup k d else lookup k defaults)
unfolding with_defaults lookup
lookup-with_defaults k [] d = ground arith
lookup-with_defaults k ((j, v) ∷ defaults) d =
    ground (arith, lookup-with_defaults k defaults (setdefault j v d), lookup-setdefault k j v d)

-- A second row of the same defaults changes nothing that can be read.
pub with_defaults_twice :
    (k : String) (defaults d : Dict)
    → lookup k (with_defaults defaults (with_defaults defaults d))
      ≡ lookup k (with_defaults defaults d)
with_defaults_twice k defaults d = ground (
  arith,
  lookup-with_defaults k defaults d,
  lookup-with_defaults k defaults (with_defaults defaults d),
)
