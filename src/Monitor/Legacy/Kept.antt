-- ===== src/Monitor/Legacy/Kept.antt =====
-- What `merge_legacy_feishu_rows` of scripts/monitor_state.py leaves of a row that is in progress.
use ker_sor_monitor.Prelude.{
  ◌++◌, ◌≡◌, refl, sym, ◌∙◌, String, true, false, not, ◌&&◌, Option, none, some, List, [], ◌∷◌,
  ◌==◌, if◌then◌else◌, any_of, arith, eq_iff, Bool-cases, inl, inr, or_else,
}
use mathlib.Core.Path.{subst}
use ker_sor_monitor.Json.{null, str, Dict, get, truthy, assign, lookup, lookup-assign}
use ker_sor_monitor.Lines.{strip}
use ker_sor_monitor.Generic.Values.{Python}
use ker_sor_monitor.Monitor.Legacy.{
  Rows, Ids, Merge, row_at, put_row, task_id_of, canonical_id, is_missing, metric_fields, fill,
  fill_all, is_settled, renamed, beside, add_legacy, add_legacies,
}

row_at-put_row :
    (k j : String) (row : Dict) (rows : Rows)
    → row_at k (put_row j row rows) ≡ (if j == k then some row else row_at k rows)
unfolding row_at put_row
row_at-put_row k j row [] = refl
row_at-put_row k j row ((i, old) ∷ rows) =
    ground (arith, row_at-put_row k j row rows, eq_iff i j, eq_iff i k, eq_iff j k)

-- A field is lost only where it is a metric that was missing.
abbrev Keeps : Dict → Dict → Type 0
Keeps old new =
    (f : String)
    → (any_of (λ m. m == f) metric_fields && is_missing (get f old)) ≡ false
    → lookup f new ≡ lookup f old

fill_keeps :
    (row old : Dict) (m f : String)
    → (m == f && is_missing (get f old)) ≡ false
    → lookup f (fill row old m) ≡ lookup f old
fill_keeps row old m f h =
    elim (Bool-cases (is_missing (get m old) && not (is_missing (get m row)))) [
      | inr e ↦ rw e refl
      | inl e ↦ elim (Bool-cases (m == f)) [
        | inr other ↦ rw e (lookup-assign f m (get m row) old ∙ rw other refl)
        | inl same ↦
            let here : m ≡ f = (eq_iff m f).0 same in
            let missing : is_missing (get f old) ≡ true =
              subst (λ x. is_missing (get x old) ≡ true) here (ground (arith, e)) in
            absurd (ground (arith, h, same, missing))
      ]
    ]

fill_all-Keeps : (row old : Dict) → Keeps old (fill_all row old metric_fields)
fill_all-Keeps row old f h =
    let one = fill row old "Speedup" in
    let two = fill row one "Latency (ms)" in
    let same_one : lookup f one ≡ lookup f old =
      fill_keeps row old "Speedup" f (ground (arith, h)) in
    let same_two : lookup f two ≡ lookup f one = fill_keeps row one "Latency (ms)" f (
      subst (λ x. ("Latency (ms)" == f && is_missing (or_else x null)) ≡ false) (sym same_one)
        (ground (arith, h))) in
    let same_three : lookup f (fill row two "MFU") ≡ lookup f two = fill_keeps row two "MFU" f (
      subst (λ x. ("MFU" == f && is_missing (or_else x null)) ≡ false) (sym (same_two ∙ same_one))
        (ground (arith, h))) in
    same_three ∙ same_two ∙ same_one

Keeps-trans : (a b c : Dict) → Keeps a b → Keeps b c → Keeps a c
Keeps-trans a b c h k f e =
    let same = h f e in
    k f (
      subst (λ x. (any_of (λ m. m == f) metric_fields && is_missing (or_else x null)) ≡ false)
        (sym same) e)
    ∙ same

settled_stays : (py : Python) (a b : Dict) → Keeps a b → is_settled py a ≡ is_settled py b
settled_stays py a b h =
    let raw : lookup "_raw_status" b ≡ lookup "_raw_status" a = h "_raw_status" refl in
    let status : lookup "Status" b ≡ lookup "Status" a = h "Status" refl in rw (raw, status) refl

-- The row at a key that is in progress.
record IsHeld (key : String) (old : Dict) (m : Merge) : Type 0 where
  row : Dict
  there : row_at key m.merged ≡ some row
  keeps : Keeps old row

module _ (py : Python) (key : String) (old : Dict) (has_status : truthy (get "Status" old) ≡ true)
    (settled : is_settled py old ≡ true) where
  elsewhere :
      (m : Merge) (j : String) (row : Dict) (order : List String)
      → (j == key) ≡ false
      → IsHeld key old m
      → IsHeld key old (record { order = order; merged = put_row j row m.merged })
  elsewhere m j row order other h = record {
    row = h.row;
    there = row_at-put_row key j row m.merged ∙ rw other h.there;
    keeps = h.keeps;
  }

  not_empty : (row : Dict) → Keeps old row → row ≡ [] → ⊥
  unfolding lookup truthy
  not_empty row k e =
      let none_there : lookup "Status" row ≡ none = rw e refl in
      let gone : truthy (or_else (lookup "Status" old) null) ≡ false =
        rw (sym (k "Status" refl), none_there) refl in
      cc

  filled :
      (m : Merge) (h : IsHeld key old m) (row : Dict)
      → IsHeld key old (record {
        order = m.order;
        merged = put_row key (fill_all row h.row metric_fields) m.merged;
      })
  filled m h row = record {
    row = fill_all row h.row metric_fields;
    there = row_at-put_row key key _ m.merged ∙ rw ((eq_iff key key).1 refl) refl;
    keeps =
        Keeps-trans old h.row (fill_all row h.row metric_fields) h.keeps (fill_all-Keeps row h.row);
  }

  beside-IsHeld :
      (j legacy_id : String) (row : Dict) (m : Merge) (o : Option Dict)
      → row_at j m.merged ≡ o
      → IsHeld key old m
      → IsHeld key old (beside py j legacy_id row m o)
  beside-IsHeld j legacy_id row m o at h = elim (Bool-cases (j == key)) [
    | inr other ↦ others o other
    | inl same ↦
        ours o ((eq_iff j key).0 same)
          (sym (subst (λ x. row_at x m.merged ≡ o) ((eq_iff j key).0 same) at) ∙ h.there)
  ]
    where
      others :
          (o : Option Dict) → (j == key) ≡ false → IsHeld key old (beside py j legacy_id row m o)
      others none other = elsewhere m j row (m.order ++ j ∷ []) other h
      others (some []) other = elsewhere m j row (m.order ++ j ∷ []) other h
      others (some (f ∷ fs)) other = elim (Bool-cases (is_settled py (f ∷ fs))) [
        | inl e ↦ rw e (
            elsewhere m j (fill_all (renamed py legacy_id (f ∷ fs) row) (f ∷ fs) metric_fields)
              m.order other h)
        | inr e ↦ rw e (elsewhere m j (renamed py legacy_id (f ∷ fs) row) m.order other h)
      ]

      ours :
          (o : Option Dict)
          → j ≡ key
          → o ≡ some h.row
          → IsHeld key old (beside py j legacy_id row m o)
      ours none here e = absurd (cc)
      ours (some []) here e = let gone : h.row ≡ [] = cc in absurd (not_empty h.row h.keeps gone)
      ours (some (f ∷ fs)) here e =
          let it : h.row ≡ f ∷ fs = cc in
          let still : is_settled py (f ∷ fs) ≡ true =
            subst (λ x. is_settled py x ≡ true) it
              (sym (settled_stays py old h.row h.keeps) ∙ settled) in
          rw (still, here)
            (subst
              (λ x. IsHeld key old (record {
                order = m.order;
                merged =
                    put_row key (fill_all (renamed py legacy_id (f ∷ fs) row) x metric_fields)
                      m.merged;
              }))
              it (filled m h (renamed py legacy_id (f ∷ fs) row)))

  add_legacy-IsHeld :
      (ids : Ids) (m : Merge) (legacy_row : Dict)
      → IsHeld key old m
      → IsHeld key old (add_legacy py ids m legacy_row)
  add_legacy-IsHeld ids m legacy_row h =
      let legacy_id = strip (task_id_of py legacy_row) in
      let task_id = canonical_id py legacy_id ids in
      let j = py.upper task_id in
      let row =
        assign "_legacy_task_id" (str legacy_id) (assign "Task ID" (str task_id) legacy_row) in
      elim (Bool-cases (j == "")) [
        | inl e ↦ rw e h
        | inr e ↦ rw e (beside-IsHeld j legacy_id row m (row_at j m.merged) refl h)
      ]

  all-IsHeld :
      (ids : Ids) (m : Merge) (rows : List Dict)
      → IsHeld key old m
      → IsHeld key old (add_legacies py ids m rows)
  all-IsHeld ids m [] h = h
  all-IsHeld ids m (row ∷ rows) h =
      all-IsHeld ids (add_legacy py ids m row) rows (add_legacy-IsHeld ids m row h)

-- A present row with a status that is not replaceable stands at its key after any legacy rows, and a field
-- of it is unchanged unless it is a metric that was missing.
pub merge_keeps :
    (py : Python) (ids : Ids) (m : Merge) (legacy : List Dict) (key : String) (old : Dict)
    (f : String)
    → row_at key m.merged ≡ some old
    → truthy (get "Status" old) ≡ true
    → is_settled py old ≡ true
    → (any_of (λ x. x == f) metric_fields && is_missing (get f old)) ≡ false
    → (row : Dict) × (row_at key (add_legacies py ids m legacy).merged ≡ some row)
      × (lookup f row ≡ lookup f old)
merge_keeps py ids m legacy key old f there has_status settled unmissed =
    let held =
      all-IsHeld py key old has_status settled ids m legacy
        (record { row = old; there = there; keeps = λ f h. refl }) in
    (held.row, held.there, held.keeps f unmissed)
