-- ===== src/Store/Workers.antt =====
-- The worker methods of flotilla/store.py.
use ker_sor_monitor.Prelude.{
  ℕ, String, ◌&&◌, Option, none, some, List, [], ◌∷◌, ◌==◌, count_if, filter_if,
}
use ker_sor_monitor.Prelude.Text.{text_le}
use ker_sor_monitor.Prelude.Rows.{find, update, map_option}
use ker_sor_monitor.Prelude.Sort.{order_by}
use ker_sor_monitor.Models.{Worker}
use ker_sor_monitor.Store.Db.{Db, Tx, insert_worker, is_open, is_open_as, end_at}

abbrev head? : List Worker → Option Worker
head? [] = none
head? (w ∷ _) = some w

-- The open workers of a task, the one that started last first.
unfoldable pub open_workers : Db → String → List Worker
open_workers db tid =
    order_by (λ v w. text_le w.started_at v.started_at)
      (filter_if (λ w. w.task_id == tid && is_open w) db.workers)

unfoldable pub active_worker_id : Db → String → Option String
unfolding open_workers
active_worker_id db tid = map_option Worker.id (head? (open_workers db tid))

unfoldable pub active_workers : Db → ℕ
active_workers db = count_if is_open db.workers

unfoldable pub create_worker : Worker → Tx (Unit {0})
unfolding insert_worker
create_worker w = insert_worker w

unfoldable pub end_worker : String → String → Db → Db
end_worker now wid db = record db { workers = update (is_open_as wid) (end_at now) db.workers }

unfoldable pub set_worker_session_uuid : String → String → Db → Db
set_worker_session_uuid wid uuid db = record db {
  workers = update (λ w. w.id == wid) (λ w. record w { session_uuid = some uuid }) db.workers;
}

unfoldable pub get_worker : Db → String → Option Worker
get_worker db wid = find Worker.id wid db.workers
