-- ===== src/Tests/Stores.antt =====
-- The theorems on the store at sample data.
use ker_sor_monitor.Prelude.{
  ℕ, zero, suc, ◌+◌, ◌-◌, ◌*◌, ◌^◌, ◌≤◌, ◌<◌, min, max, String, ◌≡◌, refl, sym, ap, ◌∙◌, ◌≢◌, ◌↔◌,
  ◌⊎◌, inl, inr, Bool, true, false, not, ◌&&◌, ◌||◌, Option, none, some, List, [], ◌∷◌, ◌++◌, map,
  foldl, arith, ◌==◌, eq_iff, eq_refl, ltb, leb, nat_beq, if◌then◌else◌, Bool-cases, Option-cases,
  is_some, or_else, length, take, drop, count_if, filter_if, any_of, All,
}
use ker_sor_monitor.Prelude.Rows.{has, find, Unique, map_option}
use ker_sor_monitor.Prelude.Sort.{Sorted}
use ker_sor_monitor.Result.{ok}
use ker_sor_monitor.State.{queued, done}
use ker_sor_monitor.Models.{Task}
use ker_sor_monitor.Store.Tasks.{claim_queued_tasks, in_use, in_state}
use ker_sor_monitor.Store.Tasks.Claim.{claim_capacity, claim_effect, claim_candidates, claimed_as}
use ker_sor_monitor.Store.Commands.{Command, execute}
use ker_sor_monitor.Store.Integrity.{IsWellFormed}
use ker_sor_monitor.Store.Lifecycle.{Follows}
use ker_sor_monitor.Store.Lifecycle.Commands.{execute-Follows}
use ker_sor_monitor.Store.Events.{prune, is_status, append_event, newest_status}
use ker_sor_monitor.Store.Events.Retention.{append_event-retains, stored}
use ker_sor_monitor.Tests.Samples.{db, later, live_report}

ids-Unique : Unique Task.id db.tasks
unfolding Unique has
ids-Unique = (refl, (refl, (refl, tt)))

pub db-IsWellFormed : IsWellFormed db
unfolding Unique has Sorted
db-IsWellFormed = record {
  projects_unique = (refl, tt);
  tasks_unique = ids-Unique;
  workers_unique = (refl, tt);
  hosts_unique = tt;
  templates_unique = tt;
  locks_unique = (refl, tt);
  lock_worker = (refl, tt);
  task_project = (refl, (refl, (refl, tt)));
  worker_task = (refl, tt);
  event_task = (refl, tt);
  events_ascend = (tt, tt);
  events_below = (omega arith, tt);
}

-- One worker runs and two tasks wait: with room for two, the older one is claimed.
claims_older : map Task.id (claim_queued_tasks later 2 db).0 ≡ "a" ∷ []
unfolding claim_queued_tasks ker_sor_monitor.Prelude.Sort.order_by
    ker_sor_monitor.Prelude.Text.text_le
claims_older = refl

claim_capacity_example :
    let r = claim_queued_tasks later 2 db in
    (length r.0 ≡ min (2 - in_use db) (count_if (in_state queued) db.tasks))
    × (in_use r.1 ≡ in_use db + length r.0)
    × (in_use r.1 ≤ max 2 (in_use db))
claim_capacity_example = claim_capacity later 2 db ids-Unique

claim_effect_example :
    (find Task.id "a" (claim_queued_tasks later 2 db).1.tasks
      ≡ map_option (claimed_as later (claim_candidates 2 db)) (find Task.id "a" db.tasks))
    × ((claim_queued_tasks later 2 db).1
        ≡ record db { tasks = (claim_queued_tasks later 2 db).1.tasks })
claim_effect_example = claim_effect later "a" 2 db

execute-Follows_example :
    Follows db.tasks (execute (Command.finish_worker later "c" (some "w_c") done none) db).tasks
execute-Follows_example =
    execute-Follows (Command.finish_worker later "c" (some "w_c") done none) db

append_event-retains_example :
    let kept = prune (max 1 1) "c" (db.events ++ stored live_report db ∷ []) in
    (append_event 1 live_report db
      ≡ ok (tt, record db { events = kept; next_event = db.next_event + 1 }))
    × (newest_status "c" kept
        ≡ take (max 1 1) (stored live_report db ∷ newest_status "c" db.events))
    × (filter_if (λ x. not (is_status "c" x)) kept
        ≡ filter_if (λ x. not (is_status "c" x)) db.events)
unfolding has
append_event-retains_example = append_event-retains 1 live_report db db-IsWellFormed refl refl
