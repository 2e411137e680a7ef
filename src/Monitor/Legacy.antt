-- ===== src/Monitor/Legacy.antt =====
-- `merge_legacy_feishu_rows` of scripts/monitor_state.py: rows of an older monitor beside the present
-- ones. A row is a dict.
pub mod Kept
use ker_sor_monitor.Prelude.{
  ℕ, zero, suc, ◌-◌, ◌≡◌, String, Bool, true, false, not, ◌&&◌, ◌||◌, Option, none, some, List, [],
  ◌∷◌, ◌++◌, ◌==◌, if◌then◌else◌, any_of, filter_if, is_some, length, nat_beq, leb,
}
use ker_sor_monitor.Prelude.Text.{codes, join, is_prefix}
use ker_sor_monitor.Prelude.Rows.{one}
use ker_sor_monitor.Json.{Value, null, str, Dict, get, get_or, truthy, or_value, assign}
use ker_sor_monitor.Lines.{strip}
use ker_sor_monitor.Generic.Values.{Python, text}

-- A dict of rows, in the order of insertion.
abbrev pub Rows : Type 0
Rows = List (String × Dict)

unfoldable pub row_at : String → Rows → Option Dict
row_at k [] = none
row_at k ((j, row) ∷ rows) = if j == k then some row else row_at k rows

unfoldable pub put_row : String → Dict → Rows → Rows
put_row k row [] = (k, row) ∷ []
put_row k row ((j, old) ∷ rows) = if j == k then (j, row) ∷ rows else (j, old) ∷ put_row k row rows

-- `str(row.get("Task ID", ""))`
abbrev pub task_id_of : Python → Dict → String
task_id_of py row = text py (get_or "Task ID" (str "") row)

abbrev is_digit : ℕ → Bool
is_digit c = leb b'0' c && leb c b'9'

abbrev all_digits : List ℕ → Bool
all_digits [] = true
all_digits (c ∷ cs) = is_digit c && all_digits cs

-- `s.isdigit()`, for ASCII
abbrev pub is_number : String → Bool
is_number s = not (s == "") && all_digits (codes s)

abbrev without_zeros : String → String
without_zeros String.[] = String.[]
without_zeros (String.◌∷◌ c s) =
    let rest = without_zeros s in
    if nat_beq (Prim.Native.Char.code c) b'0' then rest else String.◌∷◌ c s

abbrev padded : String → String
padded s =
    if nat_beq (length (codes s)) 0
    then "000"
    else if nat_beq (length (codes s)) 1
    then join "00" s
    else if nat_beq (length (codes s)) 2
    then join "0" s
    else s

-- `f"FI-{int(task_id):03d}"`
abbrev pub flashinfer_id : String → String
flashinfer_id s = join "FI-" (padded (without_zeros s))

-- The dict from upper-cased ids to ids; of two entries the later one counts.
abbrev pub Ids : Type 0
Ids = List (String × String)

unfoldable pub id_at : String → Ids → Option String
id_at k [] = none
id_at k ((j, i) ∷ ids) =
    let rest = id_at k ids in
    elim rest [ some later ↦ some later | none ↦ if j == k then some i else none ]

abbrev pub ids_of : Python → List Dict → Ids
ids_of py [] = []
ids_of py (row ∷ rows) = (py.upper (task_id_of py row), task_id_of py row) ∷ ids_of py rows

abbrev as_flashinfer : Python → String → Ids → Option String
as_flashinfer py s ids = if is_number s then id_at (py.upper (flashinfer_id s)) ids else none

abbrev pub first_of : Option String → Option String → String → String
first_of (some s) o other = s
first_of none (some s) other = s
first_of none none other = other

-- `canonical_legacy_feishu_task_id`, of the stripped id
unfoldable pub canonical_id : Python → String → Ids → String
unfolding id_at
canonical_id py s ids =
    if s == "" then s else first_of (id_at (py.upper s) ids) (as_flashinfer py s ids) s

-- The rows so far, with the order of their keys.
pub record Merge : Type 0 where
  pub order : List String
  pub merged : Rows

-- One round of the loop over the primary rows.
abbrev pub add_primary : Python → Merge → Dict → Merge
add_primary py m row =
    let key = py.upper (task_id_of py row) in
    if key == ""
    then m
    else record { order = m.order ++ key ∷ []; merged = put_row key row m.merged }

abbrev pub add_primaries : Python → Merge → List Dict → Merge
add_primaries py m [] = m
add_primaries py m (row ∷ rows) = add_primaries py (add_primary py m row) rows

-- `v in (None, "")`
abbrev pub is_missing : Value → Bool
is_missing null = true
is_missing (str s) = s == ""
is_missing _ = false

abbrev pub metric_fields : List String
metric_fields = "Speedup" ∷ "Latency (ms)" ∷ "MFU" ∷ []

abbrev pub fill : Dict → Dict → String → Dict
fill row old metric =
    if is_missing (get metric old) && not (is_missing (get metric row))
    then assign metric (get metric row) old
    else old

abbrev pub fill_all : Dict → Dict → List String → Dict
fill_all row old [] = old
fill_all row old (m ∷ ms) = fill_all row (fill row old m) ms

-- A row whose status is none of the replaceable ones.
abbrev pub is_settled : Python → Dict → Bool
is_settled py row =
    let status =
      text py (or_value (or_value (get "_raw_status" row) (get "Status" row)) (str "")) in
    not (any_of (λ s. s == status) ("no_workspace" ∷ "pending" ∷ "queued" ∷ "unknown" ∷ []))

abbrev takes_name : Python → String → Dict → Dict → Bool
takes_name py legacy_id old row =
    truthy (get "Task Name" old)
    && (not (truthy (get "Task Name" row))
        || is_prefix (codes (join legacy_id "_"))
            (codes (text py (get_or "Task Name" (str "") row))))

abbrev pub renamed : Python → String → Dict → Dict → Dict
renamed py legacy_id old row =
    if takes_name py legacy_id old row then assign "Task Name" (get "Task Name" old) row else row

abbrev pub beside : Python → String → String → Dict → Merge → Option Dict → Merge
beside py key legacy_id row m none = record {
  order = m.order ++ key ∷ [];
  merged = put_row key row m.merged;
}
beside py key legacy_id row m (some []) = record {
  order = m.order ++ key ∷ [];
  merged = put_row key row m.merged;
}
beside py key legacy_id row m (some (f ∷ fs)) =
    let old = f ∷ fs in
    if is_settled py old
    then record {
      order = m.order;
      merged = put_row key (fill_all (renamed py legacy_id old row) old metric_fields) m.merged;
    }
    else record { order = m.order; merged = put_row key (renamed py legacy_id old row) m.merged }

-- One round of the loop over the legacy rows.
abbrev pub add_legacy : Python → Ids → Merge → Dict → Merge
add_legacy py ids m legacy_row =
    let legacy_id = strip (task_id_of py legacy_row) in
    let task_id = canonical_id py legacy_id ids in
    let key = py.upper task_id in
    let row =
      assign "_legacy_task_id" (str legacy_id) (assign "Task ID" (str task_id) legacy_row) in
    if key == "" then m else beside py key legacy_id row m (row_at key m.merged)

abbrev pub add_legacies : Python → Ids → Merge → List Dict → Merge
add_legacies py ids m [] = m
add_legacies py ids m (row ∷ rows) = add_legacies py ids (add_legacy py ids m row) rows

abbrev pub in_order : Rows → List String → List Dict
in_order merged [] = []
in_order merged (k ∷ ks) = one (row_at k merged) ++ in_order merged ks

abbrev is_wanted : Python → String → Dict → Bool
is_wanted py wanted row =
    py.upper (task_id_of py row) == wanted
    || py.upper (text py (get_or "_legacy_task_id" (str "") row)) == wanted

-- `filter_feishu_rows`; no filter is the empty text.
abbrev pub filter_feishu_rows : Python → List Dict → String → List Dict
filter_feishu_rows py rows task_filter =
    if task_filter == "" then rows else filter_if (is_wanted py (py.upper task_filter)) rows

unfoldable pub merge_legacy_feishu_rows : Python → List Dict → List Dict → String → List Dict
unfolding canonical_id row_at put_row
merge_legacy_feishu_rows py primary legacy task_filter =
    let start = add_primaries py (record { order = []; merged = [] }) primary in
    let final = add_legacies py (ids_of py primary) start legacy in
    filter_feishu_rows py (in_order final.merged final.order) task_filter
