-- ===== src/Store/Tasks/Queue.antt =====
-- The order in which flotilla/store.py claims queued tasks.
use ker_sor_monitor.Prelude.{
  ℕ, ◌-◌, String, ◌≡◌, sym, ap, ◌∙◌, true, false, some, List, if◌then◌else◌, arith, filter_if, take,
  drop, ◌⊎◌, All, take-append-drop,
}
use ker_sor_monitor.Prelude.Text.{text_le_total, text_le_trans}
use ker_sor_monitor.Prelude.Rows.{
  has, find, Unique, find-append, find-filter_if, Unique-filter_if, All-find,
}
use ker_sor_monitor.Prelude.Sort.{Sorted, Sorted-order_by, find-order_by, take-le-drop}
use ker_sor_monitor.State.{queued}
use ker_sor_monitor.Models.{Task}
use ker_sor_monitor.Store.Db.{Db}
use ker_sor_monitor.Store.Tasks.{in_state, queued_tasks, queue_le, in_use}
use ker_sor_monitor.Store.Tasks.Claim.{claim_candidates}

queue_le_total : (t u : Task) → (queue_le t u ≡ true) ⊎ (queue_le u t ≡ true)
queue_le_total t u =
    ground (arith, text_le_total t.updated_at u.updated_at, text_le_total t.id u.id)

queue_le_trans : (t u v : Task) → queue_le t u ≡ true → queue_le u v ≡ true → queue_le t v ≡ true
queue_le_trans t u v p q = ground (
  arith,
  text_le_total t.updated_at u.updated_at,
  text_le_total u.updated_at v.updated_at,
  text_le_total t.updated_at v.updated_at,
  text_le_trans t.updated_at u.updated_at v.updated_at,
  text_le_trans v.updated_at u.updated_at t.updated_at,
  text_le_trans u.updated_at v.updated_at t.updated_at,
  text_le_trans v.updated_at t.updated_at u.updated_at,
  text_le_trans u.updated_at t.updated_at v.updated_at,
  text_le_trans t.updated_at v.updated_at u.updated_at,
  text_le_trans t.id u.id v.id,
)

-- The queue is in order.
pub Sorted-queued_tasks : (db : Db) → Sorted queue_le (queued_tasks db)
unfolding queued_tasks
Sorted-queued_tasks db =
    Sorted-order_by queue_le queue_le_total queue_le_trans (filter_if (in_state queued) db.tasks)

-- A queued task stands in the queue.
find-queued_tasks :
    (db : Db) (k : String) (t : Task)
    → Unique Task.id db.tasks
    → find Task.id k db.tasks ≡ some t
    → in_state queued t ≡ true
    → find Task.id k (queued_tasks db) ≡ some t
unfolding queued_tasks
find-queued_tasks db k t u h q =
    find-order_by queue_le Task.id k (filter_if (in_state queued) db.tasks)
      (Unique-filter_if Task.id (in_state queued) db.tasks u)
    ∙ find-filter_if Task.id (in_state queued) k db.tasks t h q

-- Cutting the queue leaves a task on one side.
find-cut :
    (n : ℕ) (k : String) (ts : List Task) (t : Task)
    → find Task.id k ts ≡ some t
    → (if has Task.id k (take n ts) then find Task.id k (take n ts) else find Task.id k (drop n ts))
      ≡ some t
find-cut n k ts t h =
    sym (find-append Task.id k (take n ts) (drop n ts))
    ∙ ap (find Task.id k) (take-append-drop n ts)
    ∙ h

-- First come, first served: a queued task that is claimed does not come after a queued task that
-- is not, in the order of `updated_at` and then of the id.
pub claim_fair :
    (n : ℕ) (db : Db) (j k : String) (t u : Task)
    → Unique Task.id db.tasks
    → find Task.id j db.tasks ≡ some t
    → find Task.id k db.tasks ≡ some u
    → in_state queued t ≡ true
    → in_state queued u ≡ true
    → has Task.id j (claim_candidates n db) ≡ true
    → has Task.id k (claim_candidates n db) ≡ false
    → queue_le t u ≡ true
claim_fair n db j k t u un ft fu qt qu chosen left =
    let q = queued_tasks db in
    let m = n - in_use db in
    All-find Task.id (λ y. queue_le t y ≡ true) k (drop m q) u
      (All-find Task.id (λ x. All (λ y. queue_le x y ≡ true) (drop m q)) j (take m q) t
        (take-le-drop queue_le m q (Sorted-queued_tasks db))
        (rw chosen at (find-cut m j q t (find-queued_tasks db j t un ft qt))))
      (rw left at (find-cut m k q u (find-queued_tasks db k u un fu qu)))
