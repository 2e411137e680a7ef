-- ===== src/Actuator/Gate.antt =====
-- The evaluator gate of flotilla/actuator.py.
use ker_sor_monitor.Prelude.{
  String, ◌≡◌, refl, ap, ◌∙◌, ◌⊎◌, inl, inr, Bool, true, false, not, ◌&&◌, Option, none, some, ◌∷◌,
  arith, ◌==◌, Bool-cases, any_of,
}
use mathlib.Core.Path.{subst}
use ker_sor_monitor.Prelude.Rows.{map_option}
use ker_sor_monitor.Result.{Result, ok, err}
use ker_sor_monitor.State.{State, stuck, done, is, is_terminal}
use ker_sor_monitor.Models.{Task, Worker, Event}
use ker_sor_monitor.Runtime.{WorkerHandle}
use ker_sor_monitor.Evaluator.{EvalResult}
use ker_sor_monitor.Store.Db.{Db, connection, outcome}
use ker_sor_monitor.Store.Tasks.{get_task, finish_worker}
use ker_sor_monitor.World.{World, Outside, Registered, running_handle}
use ker_sor_monitor.Actuator.{
  retire, retire_body, retire_task, commit, decide, wind_up, after_finish, evaluation_event,
  evaluated, verdict, is_given, with_others, stop_worker, finally, get_given, has_ended, gate_by,
}

-- The task has no evaluator, or its evaluator ran on its workspace and passed it.
abbrev pub PassedGate : Outside → Task → Option WorkerHandle → Type 0
PassedGate out task handle =
    (is_given task.evaluator ≡ false)
    ⊎ ((name : String) × (r : EvalResult) × (task.evaluator ≡ some name)
        × (evaluated out task handle name ≡ ok r)
        × (r.passed ≡ true))

judged_done :
    (out : Outside) (task : Task) (handle : Option WorkerHandle) (name : String)
    (r : Result EvalResult)
    → task.evaluator ≡ some name
    → evaluated out task handle name ≡ r
    → verdict r ≡ done
    → PassedGate out task handle
judged_done out task handle name (ok r) e v d = inr (name, r, e, v, ground (arith, d))
judged_done out task handle name (err x) e v d = cc

gate_by-done :
    (out : Outside) (task : Task) (handle : Option WorkerHandle) (o : Option String)
    → task.evaluator ≡ o
    → (gate_by out task handle o).0 ≡ done
    → PassedGate out task handle
gate_by-done out task handle none e d = inl (ap is_given e)
gate_by-done out task handle (some name) e d = elim (Bool-cases (name == "")) [
  | inl empty ↦ inl (ap is_given e ∙ ap not empty)
  | inr given ↦
      judged_done out task handle name (evaluated out task handle name) e refl (rw given at d)
]

decide_done :
    (out : Outside) (task : Task) (handle : Option WorkerHandle) (t : State)
    → (decide out task handle (some t)).0 ≡ some done
    → PassedGate out task handle
decide_done out task handle t d =
    gate_by-done out task handle task.evaluator refl (unfold evaluation_event in gate d)
  where
    gate :
        (decide out task handle (some t)).0 ≡ some done
        → (evaluation_event out task handle).0 ≡ done
    gate h = unfold decide in ground (arith, h)

-- If the result is DONE, then `P`.
abbrev Certified : Type 0 → Result (Option State) × World → Type 0
Certified P (ok (some s), w) = s ≡ done → P
Certified P (ok none, w) = Unit
Certified P (err e, w) = Unit

after_finish-Certified :
    (P : Type 0) (out : Outside) (tid : String) (task : Task) (worker : Option Worker) (s : State)
    (w : World) (r : Result (Bool × Db))
    → (s ≡ done → P)
    → Certified P (after_finish out tid task worker s w (outcome w.db r))
after_finish-Certified P out tid task worker s w (err e) h = tt
after_finish-Certified P out tid task worker s w (ok (false, db)) h = tt
after_finish-Certified P out tid task worker s w (ok (true, db)) h = unfold wind_up in h

commit-Certified :
    (P : Type 0) (out : Outside) (tid : String) (task : Task) (wid : Option String)
    (worker : Option Worker) (final : Option State × Option Event) (w : World)
    → (final.0 ≡ some done → P)
    → Certified P (commit out tid task wid worker final w)
unfolding commit
commit-Certified P out tid task wid worker (none, e) w h = unfold wind_up in tt
commit-Certified P out tid task wid worker (some s, e) w h =
    unfold connection in
    after_finish-Certified P out tid task worker s w (finish_worker out.now tid wid s e w.db)
      (λ d. h (ap some d))

retire_task-Certified :
    (out : Outside) (wid : Option String) (t : State) (stops : Bool) (handle : Option WorkerHandle)
    (worker : Option Worker) (tid : String) (o : Option Task) (w : World)
    → Certified
        ((task : Task) × (o ≡ some task) × PassedGate out task handle)
        (retire_task out wid (some t) stops handle worker tid o w)
unfolding retire_task
retire_task-Certified out wid t stops handle worker tid none w = tt
retire_task-Certified out wid t stops handle worker tid (some task) w =
    elim (Bool-cases (is_terminal task.state && has_ended worker)) [
      | inl e ↦ rw e tt
      | inr e ↦ rw e (
          commit-Certified ((x : Task) × (some task ≡ some x) × PassedGate out x handle) out tid
            task wid worker (decide out task handle (some t))
            (with_others out (stop_worker out tid stops handle w))
            (λ d. (task, refl, decide_done out task handle t d)))
    ]

finally-Certified :
    (P : Type 0) (tid : String) (r : Result (Option State) × World)
    → Certified P r
    → Certified P (finally tid r)
finally-Certified P tid (ok (some s), w) h = h
finally-Certified P tid (ok none, w) h = tt
finally-Certified P tid (err e, w) h = tt

-- The task that a request found, past its evaluator.
abbrev pub Approved : Outside → String → World → Type 0
Approved out tid w =
    (task : Task) × (get_task w.db tid ≡ some task)
    × PassedGate out task (map_option Registered.handle (running_handle w tid))

retire-Certified :
    (out : Outside) (tid : String) (wid : Option String) (t : State) (stops : Bool) (w : World)
    → is stuck t ≡ false
    → Certified (Approved out tid w) (retire out tid wid (some t) stops w)
unfolding retire
retire-Certified out tid wid t stops w n = elim (Bool-cases (any_of (λ x. x == tid) w.retiring)) [
  | inl e ↦ rw (n, e) tt
  | inr e ↦
      rw (n, e)
        (finally-Certified (Approved out tid w) tid
          (retire_body out tid wid (some t) stops (record w { retiring = tid ∷ w.retiring }))
          (unfold retire_body get_task running_handle in
            retire_task-Certified out wid t stops
              (map_option Registered.handle (running_handle w tid)) (get_given w.db wid) tid
              (get_task w.db tid) (record w { retiring = tid ∷ w.retiring })))
]

-- `retire` commits DONE only for a task that has no evaluator, or whose evaluator is registered,
-- ran on the task's existing local workspace and passed it.
pub done_is_evaluated :
    (out : Outside) (tid : String) (wid : Option String) (t : State) (stops : Bool) (w w' : World)
    → is stuck t ≡ false
    → retire out tid wid (some t) stops w ≡ (ok (some done), w')
    → Approved out tid w
done_is_evaluated out tid wid t stops w w' n h =
    subst (Certified (Approved out tid w)) h (retire-Certified out tid wid t stops w n) refl
