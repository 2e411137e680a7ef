-- ===== src/Store/Events/Retention.antt =====
-- Which events `append_event` of flotilla/store.py keeps.
use ker_sor_monitor.Prelude.{
  ℕ, zero, suc, ◌+◌, max, String, ◌≡◌, refl, sym, ap, ◌∙◌, true, false, not, List, [], ◌∷◌, ◌++◌,
  arith, ◌==◌, eq_refl, leb, take, drop, filter_if, All, All-map, All-drop, lt→ltb,
}
use ker_sor_monitor.Models.{Event, Task}
use ker_sor_monitor.Prelude.Sort.{Sorted, order_by, Sorted-filter_if, Sorted-append}
use ker_sor_monitor.Store.Events.{newest_status, prune, up_to, is_status, newer, append_event}
use ker_sor_monitor.Store.Db.{Db, StoredEvent, insert_event}
use ker_sor_monitor.Store.Integrity.{IsWellFormed, event_lt}
use ker_sor_monitor.Store.Events.Newest.{
  event_gt, filter-newest, filter_if-none, order_by-snoc, filter_if-delete, descending,
  others-delete, filter_if-append, Sorted-front,
}
use ker_sor_monitor.Prelude.Rows.{has}
use ker_sor_monitor.Result.{ok}
use mathlib.Core.List.{append-nil}

-- Of a strictly descending list, what is above the bound is what stands before it.
above_bound :
    (n : ℕ) (xs : List StoredEvent)
    → Sorted event_gt xs
    → filter_if (λ e. not (up_to (drop n xs) e)) xs ≡ take n xs
unfolding Sorted
above_bound zero [] s = refl
above_bound zero (x ∷ xs) s =
    ground
      (arith, filter_if-none (λ e. not (leb e.id x.id)) xs (All-map (λ y h. below x y h) xs s.0))
  where
    below : (x y : StoredEvent) → event_gt x y ≡ true → not (leb y.id x.id) ≡ false
    below x y h = ground arith
above_bound (suc n) [] s = refl
above_bound (suc n) (x ∷ xs) s =
    rw (first (drop n xs) (All-drop (λ y. event_gt x y ≡ true) n xs s.0))
      (ap (λ l. x ∷ l) (above_bound n xs s.1))
  where
    first : (ys : List StoredEvent) → All (λ y. event_gt x y ≡ true) ys → not (up_to ys x) ≡ true
    first [] a = refl
    first (y ∷ ys) a = ground (arith, a.0)

-- What `prune` leaves of an ascending table: the newest status events of the task, and all else.
newest_status-prune :
    (n : ℕ) (tid : String) (es : List StoredEvent)
    → Sorted event_lt es
    → newest_status tid (prune n tid es) ≡ take n (newest_status tid es)
unfolding newest_status prune
newest_status-prune n tid es s =
    let statuses = filter_if (is_status tid) es in
    let ranked = order_by newer statuses in
    let bound = drop n ranked in
    let s' : Sorted event_lt statuses = Sorted-filter_if event_lt (is_status tid) es s in
    ap (order_by newer) (filter_if-delete (is_status tid) (up_to bound) es)
    ∙ filter-newest (λ e. not (up_to bound e)) statuses s'
    ∙ above_bound n ranked (descending statuses s')

others-prune :
    (n : ℕ) (tid : String) (es : List StoredEvent)
    → filter_if (λ x. not (is_status tid x)) (prune n tid es)
      ≡ filter_if (λ x. not (is_status tid x)) es
unfolding prune
others-prune n tid es = others-delete (is_status tid) (up_to (drop n (newest_status tid es))) es

-- What `append_event` adds to the table.
abbrev pub stored : Event → Db → StoredEvent
stored e db = record { id = db.next_event; event = e }

newest_status-snoc :
    (e : Event) (db : Db) (tid : String)
    → Sorted event_lt (db.events ++ stored e db ∷ [])
    → is_status tid (stored e db) ≡ true
    → newest_status tid (db.events ++ stored e db ∷ []) ≡ stored e db ∷ newest_status tid db.events
unfolding newest_status
newest_status-snoc e db tid s is_new =
    filter-newest (is_status tid) (db.events ++ stored e db ∷ []) s
    ∙ ap (filter_if (is_status tid)) (order_by-snoc db.events (stored e db) s)
    ∙ (rw is_new (
        ap (λ l. stored e db ∷ l)
          (sym (filter-newest (is_status tid) db.events (Sorted-front db.events (stored e db) s)))))

-- Recording a status event keeps the newest of the task's status events, as many as the retention
-- says and at least one, the new one first; no other event is lost, and it is only refused for a
-- task that does not exist.
pub append_event-retains :
    (limit : ℕ) (e : Event) (db : Db)
    → IsWellFormed db
    → (e.type == "status") ≡ true
    → has Task.id e.task_id db.tasks ≡ true
    → let kept = prune (max 1 limit) e.task_id (db.events ++ stored e db ∷ []) in
      (append_event limit e db
        ≡ ok (tt, record db { events = kept; next_event = db.next_event + 1 }))
      × (newest_status e.task_id kept
          ≡ take (max 1 limit) (stored e db ∷ newest_status e.task_id db.events))
      × (filter_if (λ x. not (is_status e.task_id x)) kept
          ≡ filter_if (λ x. not (is_status e.task_id x)) db.events)
append_event-retains limit e db h status there =
    let all : List StoredEvent = db.events ++ stored e db ∷ [] in
    let new : is_status e.task_id (stored e db) ≡ true =
      ground (arith, eq_refl e.task_id, status) in
    let s : Sorted event_lt all =
      Sorted-append event_lt db.events (stored e db) h.events_ascend
        (All-map (λ x below. lt→ltb x.id db.next_event below) db.events h.events_below) in
    (
      unfold append_event insert_event in rw (there, status) refl,
      newest_status-prune (max 1 limit) e.task_id all s
          ∙ ap (take (max 1 limit)) (newest_status-snoc e db e.task_id s new),
      others-prune (max 1 limit) e.task_id all
          ∙ filter_if-append (λ x. not (is_status e.task_id x)) db.events (stored e db ∷ [])
          ∙ (rw new (append-nil (filter_if (λ x. not (is_status e.task_id x)) db.events))),
    )
