-- ===== src/Tests/Published.antt =====
-- The theorems on what is stored and published, at sample data.
use ker_sor_monitor.Prelude.{
  ℕ, zero, suc, ◌+◌, ◌-◌, ◌*◌, ◌^◌, ◌≤◌, ◌<◌, min, max, String, ◌≡◌, refl, sym, ap, ◌∙◌, ◌≢◌, ◌↔◌,
  ◌⊎◌, inl, inr, Bool, true, false, not, ◌&&◌, ◌||◌, Option, none, some, List, [], ◌∷◌, ◌++◌, map,
  foldl, arith, ◌==◌, eq_iff, eq_refl, ltb, leb, nat_beq, if◌then◌else◌, Bool-cases, Option-cases,
  is_some, or_else, length, take, drop, count_if, filter_if, any_of, All,
}
use ker_sor_monitor.Prelude.Int.{pos}
use ker_sor_monitor.State.{failed, name}
use ker_sor_monitor.Json.{Dict, str, obj, bool, lookup, finite, object_of}
use ker_sor_monitor.Observer.Case.{end_of, cased_end_fails}
use ker_sor_monitor.Sinks.Status.{normalize_status_record}
use ker_sor_monitor.Sinks.Bounded.{IsNormal, normalize-IsNormal}
use ker_sor_monitor.Sinks.View.{build_task_view, public_metadata, view_authoritative}
use ker_sor_monitor.Sinks.Queue.{offers, newest, offers_keep_newest}
use ker_sor_monitor.Tests.Samples.{db, live, telemetry}

normalize-IsNormal_example :
    IsNormal (normalize_status_record (λ n. some (finite n (pos 0))) telemetry)
normalize-IsNormal_example = normalize-IsNormal (λ n. some (finite n (pos 0))) telemetry

cased_end_fails_example :
    end_of (λ n. none) (("state", str "Promoted") ∷ []) 2 "all good" ≡ some failed
unfolding lookup ker_sor_monitor.Prelude.Text.cut
cased_end_fails_example =
    cased_end_fails (λ n. none) (("state", str "Promoted") ∷ []) 2 "all good" "Promoted" refl refl
      refl refl

view_authoritative_example :
    let view =
      build_task_view
        (λ n. none)
        db
        live
        (some (("state", str "DONE") ∷ ("id", str "other") ∷ []))
        false
        true in
    (lookup "id" view ≡ some (str live.id))
    × (lookup "project_id" view ≡ some (str live.project_id))
    × (lookup "state" view ≡ some (str (name live.state)))
    × (lookup "created_at" view ≡ some (str live.created_at))
    × (lookup "updated_at" view ≡ some (str live.updated_at))
    × (lookup "metadata" view ≡ some (obj (object_of (public_metadata live.metadata))))
    × (lookup "deleted" view ≡ some (bool false))
    × (lookup "spec" view ≡ (if true then some (str live.spec) else none))
view_authoritative_example =
    view_authoritative (λ n. none) db live (some (("state", str "DONE") ∷ ("id", str "other") ∷ []))
      false true

abbrev updates : List Dict
updates = [] ∷ (("id", str "a") ∷ []) ∷ (("id", str "b") ∷ []) ∷ []

offers_keep_newest_example :
    offers updates (record { id = 1; maxsize = 2; items = [] })
    ≡ record { id = 1; maxsize = 2; items = newest 2 updates }
offers_keep_newest_example = offers_keep_newest 1 2 updates (omega arith)
