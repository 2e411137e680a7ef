-- ===== src/Actuator/Steer.antt =====
-- `actuate` of flotilla/actuator.py: what a user asks of a running task.
use ker_sor_monitor.Prelude.{
  String, Bool, true, false, ◌&&◌, Option, none, some, [], ◌∷◌, ◌==◌, if◌then◌else◌, or_else,
}
use ker_sor_monitor.Result.{Result, ok, err}
use ker_sor_monitor.State.{State, running, paused, stuck, cancelled, is, is_terminal}
use ker_sor_monitor.Json.{Dict, str, lookup}
use ker_sor_monitor.Models.{Task, Worker}
use ker_sor_monitor.Runtime.{WorkerHandle, Adapter, get_adapter}
use ker_sor_monitor.Store.Db.{Db, connection}
use ker_sor_monitor.Store.Tasks.{get_task, set_task_state}
use ker_sor_monitor.World.{World, Outside, Registered, running_handle}
use ker_sor_monitor.Actuator.{retire, with_others, get_given, has_ended}

-- `{"ok": True, "action": action}` or `{"ok": False, "reason": …}`
pub data Reply : Type 0 where
  accepted : String → Reply
  refused : Reply

abbrev pub committed : World → Result Bool × Db → Result Bool × World
committed w (r, db) = (r, record w { db = db })

abbrev pub set_state : Outside → String → State → State → World → Result Bool × World
set_state out tid new expected w =
    committed w (connection (set_task_state out.now tid new (some (expected ∷ []))) w.db)

-- The result of `set_task_state` is dropped, its exception is not.
abbrev pub woken : Result Bool × World → Result Reply × World
woken (ok _, w) = (ok (accepted "nudge"), w)
woken (err e, w) = (err e, w)

abbrev pub wake : Outside → String → Option Task → World → Result Reply × World
wake out tid none w = (ok (accepted "nudge"), w)
wake out tid (some task) w =
    if is stuck task.state
    then woken (set_state out tid running stuck (with_others out w))
    else (ok (accepted "nudge"), w)

abbrev pub pasted : Outside → String → World → Result (Unit {0}) → Result Reply × World
pasted out tid w (ok _) = let now = with_others out w in wake out tid (get_task now.db tid) now
pasted out tid w (err e) = (ok refused, w)

unfoldable pub nudge : Outside → String → WorkerHandle → Dict → World → Result Reply × World
nudge out tid handle payload w =
    pasted out tid w (out.paste handle (or_else (lookup "text" payload) (str "")))

abbrev pub is_over : Option Task → Option Worker → Bool
is_over none worker = false
is_over (some task) worker = is_terminal task.state && has_ended worker

abbrev pub cancelled_reply : String → Option String → Option State → World → Reply
cancelled_reply tid wid final w =
    if elim final [ none ↦ false | some s ↦ is cancelled s ]
    then accepted "stop"
    else if is_over (get_task w.db tid) (get_given w.db wid)
    then accepted "stop"
    else refused

abbrev pub after_retire :
    String → Option String → Result (Option State) × World → Result Reply × World
after_retire tid wid (ok final, w) = (ok (cancelled_reply tid wid final w), w)
after_retire tid wid (err e, w) = (err e, w)

abbrev pub stopped :
    Outside → String → Option String → World → Result (Unit {0}) → Result Reply × World
stopped out tid wid w (ok _) =
    after_retire tid wid (retire out tid wid (some cancelled) false (with_others out w))
stopped out tid wid w (err e) = (ok refused, w)

unfoldable pub stop : Outside → String → Option String → WorkerHandle → World → Result Reply × World
stop out tid wid handle w = stopped out tid wid w (out.stop handle)

-- Exceptions of `set_task_state` are caught here.
abbrev pub controlled : String → Result Bool × World → Result Reply × World
controlled action (ok true, w) = (ok (accepted action), w)
controlled action (ok false, w) = (ok refused, w)
controlled action (err e, w) = (ok refused, w)

abbrev pub switched : Outside → String → String → World → Result (Unit {0}) → Result Reply × World
switched out tid action w (ok _) = controlled action (
    if action == "pause"
    then set_state out tid paused running (with_others out w)
    else set_state out tid running paused (with_others out w))
switched out tid action w (err e) = (ok refused, w)

abbrev pub switch :
    Outside
    → String
    → WorkerHandle
    → String
    → World
    → Option (WorkerHandle → Result (Unit {0}))
    → Result Reply × World
switch out tid handle action w none = (ok refused, w)
switch out tid handle action w (some method) = switched out tid action w (method handle)

unfoldable pub pause_or_resume :
    Outside → String → Adapter → WorkerHandle → String → World → Result Reply × World
pause_or_resume out tid rt handle action w = switch out tid handle action w (out.control rt action)

abbrev pub act_by :
    Outside → String → String → Dict → Registered → World → Result Adapter → Result Reply × World
act_by out tid action payload r w (err e) = (err e, w)
act_by out tid action payload r w (ok rt) =
    if action == "nudge"
    then nudge out tid r.handle payload w
    else if action == "stop"
    then stop out tid (some r.worker_id) r.handle w
    else if action == "pause"
    then pause_or_resume out tid rt r.handle action w
    else if action == "resume"
    then pause_or_resume out tid rt r.handle action w
    else (ok refused, w)

abbrev pub act_on :
    Outside → String → String → Dict → World → Option Registered → Result Reply × World
act_on out tid action payload w none = (ok refused, w)
act_on out tid action payload w (some r) =
    act_by out tid action payload r w (get_adapter r.handle.backend)

-- `actuate`; a payload that is no dict counts as the empty one.
unfoldable pub actuate : Outside → String → String → Dict → World → Result Reply × World
actuate out tid action payload w = act_on out tid action payload w (running_handle w tid)
