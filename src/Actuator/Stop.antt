-- ===== src/Actuator/Stop.antt =====
-- What a user's "stop" achieves in `actuate` of flotilla/actuator.py.
use ker_sor_monitor.Prelude.{
  String, ◌≡◌, refl, sym, ap, inl, inr, true, false, Option, none, some, arith, ◌==◌, Bool-cases,
}
use mathlib.Core.Path.{subst}
use ker_sor_monitor.Prelude.Rows.{find}
use ker_sor_monitor.Result.{Result, ok, err}
use ker_sor_monitor.State.{State, cancelled, is, is_terminal}
use ker_sor_monitor.Models.{Task, Worker}
use ker_sor_monitor.Json.{Dict}
use ker_sor_monitor.Runtime.{WorkerHandle, get_adapter}
use ker_sor_monitor.Store.Db.{Db, is_open}
use ker_sor_monitor.Store.Tasks.{get_task}
use ker_sor_monitor.Store.Workers.{get_worker}
use ker_sor_monitor.Store.Lifecycle.{is-eq}
use ker_sor_monitor.World.{World, Outside, Registered, running_handle}
use ker_sor_monitor.Actuator.{retire, with_others, get_given}
use ker_sor_monitor.Actuator.Finish.{IsClosed}
use ker_sor_monitor.Actuator.Retire.{retire_completes}
use ker_sor_monitor.Actuator.Steer.{
  Reply, accepted, refused, actuate, stop, is_over, cancelled_reply, after_retire, act_by,
}

-- The task has ended, and so has its worker.
abbrev pub IsOver : String → String → Db → Type 0
IsOver tid wid db =
    ((task : Task) × (find Task.id tid db.tasks ≡ some task) × (is_terminal task.state ≡ true))
    × ((x : Worker)
        → (wid == "") ≡ false
        → find Worker.id wid db.workers ≡ some x
        → is_open x ≡ false)

abbrev Stopped : String → String → Result Reply × World → Type 0
Stopped tid wid (ok (accepted a), w) = IsOver tid wid w.db
Stopped tid wid (ok refused, w) = Unit
Stopped tid wid (err e, w) = Unit

seen-IsOver :
    (tid wid : String) (db : Db)
    → is_over (get_task db tid) (get_given db (some wid)) ≡ true
    → IsOver tid wid db
unfolding get_task get_worker
seen-IsOver tid wid db h =
    (ended (find Task.id tid db.tasks) refl, λ x n f. ground (arith, h, n, f))
  where
    ended :
        (o : Option Task)
        → find Task.id tid db.tasks ≡ o
        → (task : Task) × (find Task.id tid db.tasks ≡ some task) × (is_terminal task.state ≡ true)
    ended none e = cc (rw e at h)
    ended (some task) e = (task, e, ground (arith, rw e at h))

closed-IsOver :
    (tid wid : String) (db : Db) → IsClosed tid (some wid) cancelled db → IsOver tid wid db
closed-IsOver tid wid db (state, worker) =
    (ended (find Task.id tid db.tasks) refl, λ x n f. worker wid x refl n f)
  where
    ended :
        (o : Option Task)
        → find Task.id tid db.tasks ≡ o
        → (task : Task) × (find Task.id tid db.tasks ≡ some task) × (is_terminal task.state ≡ true)
    ended none e = cc (rw e at state)
    ended (some task) e = (task, e, ground (arith, rw e at state))

look-Stopped :
    (tid wid : String) (w : World) → Stopped tid wid (ok (cancelled_reply tid (some wid) none w), w)
look-Stopped tid wid w =
    elim (Bool-cases (is_over (get_task w.db tid) (get_given w.db (some wid)))) [
      | inl e ↦ rw e (seen-IsOver tid wid w.db e)
      | inr e ↦ rw e tt
    ]

reply-Stopped :
    (tid wid : String) (final : Option State) (w : World)
    → (final ≡ some cancelled → IsOver tid wid w.db)
    → Stopped tid wid (ok (cancelled_reply tid (some wid) final w), w)
reply-Stopped tid wid none w k = look-Stopped tid wid w
reply-Stopped tid wid (some s) w k = elim (Bool-cases (is cancelled s)) [
  | inl c ↦ rw c (k (ap some (sym (is-eq cancelled s c))))
  | inr n ↦ rw n (look-Stopped tid wid w)
]

stop-Stopped :
    (out : Outside) (tid wid : String) (h : WorkerHandle) (w : World)
    → Stopped tid wid (stop out tid (some wid) h w)
unfolding stop
stop-Stopped out tid wid h w = answered (out.stop h)
  where
    now : World
    now = with_others out w

    settled :
        (r : Result (Option State) × World)
        → retire out tid (some wid) (some cancelled) false now ≡ r
        → Stopped tid wid (after_retire tid (some wid) r)
    settled (ok final, w') e = reply-Stopped tid wid final w' (λ c.
        closed-IsOver tid wid w'.db
          (retire_completes out tid (some wid) cancelled cancelled false now w' refl (rw c at e)).0)
    settled (err x, w') e = tt

    answered :
        (r : Result (Unit {0}))
        → Stopped tid wid (elim r [
          | ok _ ↦
              after_retire tid (some wid) (retire out tid (some wid) (some cancelled) false now)
          | err e ↦ (ok refused, w)
        ])
    answered (ok _) = settled (retire out tid (some wid) (some cancelled) false now) refl
    answered (err e) = tt

-- When `actuate` accepts a request to stop, the task has ended in the database and the row of its
-- worker is closed, whatever the adapter, the evaluator and the other threads did meanwhile.
pub stop_ends :
    (out : Outside) (tid : String) (payload : Dict) (w w' : World) (r : Registered) (a : String)
    → running_handle w tid ≡ some r
    → actuate out tid "stop" payload w ≡ (ok (accepted a), w')
    → IsOver tid r.worker_id w'.db
unfolding actuate
stop_ends out tid payload w w' r a f h =
    subst (Stopped tid r.worker_id) h (rw f (by_adapter (get_adapter r.handle.backend)))
  where
    by_adapter : (rt : _) → Stopped tid r.worker_id (act_by out tid "stop" payload r w rt)
    by_adapter (ok rt) = stop-Stopped out tid r.worker_id r.handle w
    by_adapter (err e) = tt

-- A request to stop is accepted only after the adapter of the worker has stopped it.
pub accepted_stopped :
    (out : Outside) (tid : String) (payload : Dict) (w w' : World) (r : Registered) (a : String)
    → running_handle w tid ≡ some r
    → actuate out tid "stop" payload w ≡ (ok (accepted a), w')
    → out.stop r.handle ≡ ok tt
unfolding actuate stop
accepted_stopped out tid payload w w' r a f h =
    by (get_adapter r.handle.backend) refl (out.stop r.handle) refl
  where
    by :
        (rt : _)
        → get_adapter r.handle.backend ≡ rt
        → (s : Result (Unit {0})) → out.stop r.handle ≡ s
        → s ≡ ok tt
    by (err e) g s k = cc (rw (f, g) at h)
    by (ok rt) g (ok _) k = refl
    by (ok rt) g (err e) k = cc (rw (f, g, k) at h)
