-- ===== src/Actuator/Stall.antt =====
-- What flotilla/actuator.py does when a worker reports that it is stuck: `retire(…, "STUCK")`.
use ker_sor_monitor.Prelude.{
  String, ◌≡◌, refl, ap, ◌∙◌, Bool, false, Option, some, List, [], ◌∷◌, arith,
}
use ker_sor_monitor.Prelude.Rows.{find}
use ker_sor_monitor.Result.{Result, ok, err, illegal_transition}
use ker_sor_monitor.State.{State, running, paused, stuck, is_live, move, is}
use ker_sor_monitor.Models.{Task}
use ker_sor_monitor.Store.Db.{Db, connection, outcome}
use ker_sor_monitor.Store.Tasks.{get_task, set_task_state, set_row_state}
use ker_sor_monitor.World.{World, Outside}
use ker_sor_monitor.Actuator.{retire, retire_stuck, stall, ignored}

found :
    (now tid : String) (new : State) (ex : Option (List State)) (db : Db) (t : Task)
    → find Task.id tid db.tasks ≡ some t
    → set_task_state now tid new ex db ≡ set_row_state now tid new ex (some t) db
unfolding set_task_state
found now tid new ex db t f = ap (λ o. set_row_state now tid new ex o db) f

-- `retire(…, "STUCK")` on a task that is there and not STUCK is the call of `set_task_state`.
stall_call :
    (out : Outside) (tid : String) (wid : Option String) (stops : Bool) (w : World) (t : Task)
    (r : Result (Bool × Db))
    → find Task.id tid w.db.tasks ≡ some t
    → is stuck t.state ≡ false
    → set_row_state out.now tid stuck (some (running ∷ paused ∷ stuck ∷ [])) (some t) w.db ≡ r
    → retire out tid wid (some stuck) stops w ≡ ignored (outcome w.db r) w
unfolding retire retire_stuck get_task connection
stall_call out tid wid stops w t r f n row =
    ap (stall out tid w) f
    ∙ (rw n (
        ap (λ x. ignored (outcome w.db x) w)
          (found out.now tid stuck (some (running ∷ paused ∷ stuck ∷ [])) w.db t f ∙ row)))

-- A paused task whose worker reports that it is stuck is refused with IllegalTransition, though
-- PAUSED is among the states that `retire` expects.
pub paused_stall_raises :
    (out : Outside) (tid : String) (wid : Option String) (stops : Bool) (w : World) (t : Task)
    → find Task.id tid w.db.tasks ≡ some t
    → t.state ≡ paused
    → retire out tid wid (some stuck) stops w ≡ (err illegal_transition, w)
unfolding set_row_state move
paused_stall_raises out tid wid stops w t f e =
    stall_call out tid wid stops w t (err illegal_transition) f (rw e refl) (rw e refl)

-- A task that is neither RUNNING, PAUSED nor STUCK is reported to have become STUCK, and nothing
-- has been committed.
pub unlive_stall_reports :
    (out : Outside) (tid : String) (wid : Option String) (stops : Bool) (w : World) (t : Task)
    → find Task.id tid w.db.tasks ≡ some t
    → is_live t.state ≡ false
    → retire out tid wid (some stuck) stops w ≡ (ok (some stuck), w)
unfolding set_row_state
unlive_stall_reports out tid wid stops w t f e =
    stall_call out tid wid stops w t (ok (false, w.db)) f (ground (arith, e)) (ground (arith, e))
