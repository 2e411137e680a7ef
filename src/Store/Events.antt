-- ===== src/Store/Events.antt =====
-- The event methods of flotilla/store.py. `limit` is `SETTINGS.status_event_retention`.
pub mod Newest
pub mod Retention
use ker_sor_monitor.Prelude.{
  ℕ, String, Bool, false, ◌&&◌, List, [], ◌∷◌, ◌==◌, if◌then◌else◌, leb, max, filter_if, take, drop,
}
use mathlib.Core.List.{reverse}
use ker_sor_monitor.Prelude.Rows.{delete}
use ker_sor_monitor.Prelude.Sort.{order_by}
use ker_sor_monitor.Result.{ok, ◌>>=◌}
use ker_sor_monitor.Json.{Dict}
use ker_sor_monitor.Models.{Task, Event}
use ker_sor_monitor.Store.Db.{Db, StoredEvent, Tx, insert_event}

abbrev pub is_status : String → StoredEvent → Bool
is_status tid e = e.event.task_id == tid && e.event.type == "status"

abbrev pub newer : StoredEvent → StoredEvent → Bool
newer a b = leb b.id a.id

abbrev pub older : StoredEvent → StoredEvent → Bool
older a b = leb a.id b.id

-- `WHERE task_id=? AND type='status' ORDER BY id DESC`
unfoldable pub newest_status : String → List StoredEvent → List StoredEvent
newest_status tid events = order_by newer (filter_if (is_status tid) events)

-- `id <= COALESCE(…, -1)` at what the subquery found.
abbrev pub up_to : List StoredEvent → StoredEvent → Bool
up_to [] e = false
up_to (bound ∷ _) e = leb e.id bound.id

-- The DELETE of `append_event`.
unfoldable pub prune : ℕ → String → List StoredEvent → List StoredEvent
unfolding newest_status
prune retention tid events =
    let bound = drop retention (newest_status tid events) in
    delete (λ e. is_status tid e && up_to bound e) events

unfoldable pub append_event : ℕ → Event → Tx (Unit {0})
unfolding insert_event prune
append_event limit e db = insert_event e db >>= λ r.
    if e.type == "status"
    then ok (tt, record r.1 { events = prune (max 1 limit) e.task_id r.1.events })
    else ok (tt, r.1)

unfoldable pub events_for : Db → String → List StoredEvent
events_for db tid = order_by older (filter_if (λ e. e.event.task_id == tid) db.events)

unfoldable pub status_events : Db → String → ℕ → List StoredEvent
unfolding newest_status
status_events db tid limit = reverse (take limit (newest_status tid db.events))

abbrev newest : List StoredEvent → List Dict
newest [] = []
newest (e ∷ _) = e.event.payload ∷ []

abbrev tagged : String → List Dict → List (String × Dict)
tagged tid [] = []
tagged tid (payload ∷ _) = (tid, payload) ∷ []

-- The newest status of each task of the list that has one.
unfoldable pub latest_of : Db → List Task → List (String × Dict)
unfolding newest_status
latest_of db [] = []
latest_of db (t ∷ ts) =
    let rest = latest_of db ts in
    elim (newest (newest_status t.id db.events)) [
      | [] ↦ rest
      | payload ∷ _ ↦ (t.id, payload) ∷ rest
    ]

unfoldable pub latest_status_by_project : Db → String → List (String × Dict)
unfolding latest_of
latest_status_by_project db pid = latest_of db (filter_if (λ t. t.project_id == pid) db.tasks)
