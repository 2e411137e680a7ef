-- ===== src/System/Lasting.antt =====
-- What becomes of one task in a history of the operations: it stays until it is removed, and its state moves
-- along the table of flotilla/state.py, though the loops and handlers write it in several ways.
use ker_sor_monitor.Prelude.{
  String, ◌≡◌, refl, sym, ◌∙◌, false, some, List, [], ◌∷◌, ◌==◌, inl, inr,
}
use mathlib.Core.Path.{subst}
use ker_sor_monitor.Prelude.Rows.{find, find-delete}
use ker_sor_monitor.State.{State}
use ker_sor_monitor.Models.{Task}
use ker_sor_monitor.Store.Db.{Db}
use ker_sor_monitor.Store.Tasks
use ker_sor_monitor.Store.Commands.{execute}
use ker_sor_monitor.Store.Lifecycle.{Along, Lasts}
use ker_sor_monitor.Store.Lifecycle.Commands.{execute-Lasts}
use ker_sor_monitor.World.{World, Outside}
use ker_sor_monitor.System.Evolves.{Evolves, stays, commits, others_commit}
use ker_sor_monitor.System.Histories.{
  Operation, remove_task, perform, run, Performs, perform-Performs,
}

-- One state leads to another by pairs of the transition table.
pub data Reaches : State → State → Type 0 where
  here : {s t : State} → s ≡ t → Reaches s t
  along : {s t u : State} → Along s t → Reaches t u → Reaches s u

Reaches-trans : (s t u : State) → Reaches s t → Reaches t u → Reaches s u
Reaches-trans s t u (here e) g = subst (λ x. Reaches x u) (sym e) g
Reaches-trans s t u (along a r) g = along a (Reaches-trans _ t u r g)

-- The task stands in the database, in a state that this one leads to.
abbrev pub StandsFrom : String → State → Db → Type 0
StandsFrom tid s db = (u : Task) × (find Task.id tid db.tasks ≡ some u) × Reaches s u.state

-- What others commit keeps the tasks too, and the table.
abbrev pub IsGentle : Outside → Type 0
IsGentle out = (db : Db) → Lasts db.tasks (out.others db).tasks

module _ (tid : String) where
  Lasts-StandsFrom :
      (s : State) (a b : Db) → Lasts a.tasks b.tasks → StandsFrom tid s a → StandsFrom tid s b
  Lasts-StandsFrom s a b lasts (t, found, r) =
      let (u, after, way) = lasts tid t found in
      (u, after, Reaches-trans s t.state u.state r (along way (here refl)))

  Evolves-StandsFrom :
      (out : Outside) (s : State) (a b : Db)
      → IsGentle out
      → Evolves out.others a b
      → StandsFrom tid s a
      → StandsFrom tid s b
  Evolves-StandsFrom out s a b gentle (stays e) h = subst (StandsFrom tid s) e h
  Evolves-StandsFrom out s a b gentle (commits c kept g) h =
      Evolves-StandsFrom out s (execute c a) b gentle g
        (Lasts-StandsFrom s a (execute c a) (execute-Lasts c a kept) h)
  Evolves-StandsFrom out s a b gentle (others_commit g) h =
      Evolves-StandsFrom out s (out.others a) b gentle g
        (Lasts-StandsFrom s a (out.others a) (gentle a) h)

  -- The operation removes no task, or another one.
  abbrev pub Spares : Operation → Type 0
  Spares (remove_task k) = (k == tid) ≡ false
  Spares _ = Unit {0}

  delete-StandsFrom :
      (k : String) (s : State) (db : Db)
      → (k == tid) ≡ false
      → StandsFrom tid s db
      → StandsFrom tid s (Tasks.delete_task k db)
  unfolding Tasks.delete_task
  delete-StandsFrom k s db other (t, found, r) =
      (t, find-delete Task.id k tid db.tasks ∙ rw other found, r)

  Performs-StandsFrom :
      (out : Outside) (op : Operation) (s : State) (w w' : World)
      → IsGentle out
      → Spares op
      → Performs out op w w'
      → StandsFrom tid s w.db
      → StandsFrom tid s w'.db
  Performs-StandsFrom out (remove_task k) s w w' gentle other (v, steps, inl e) h =
      subst (StandsFrom tid s) (sym e) (Evolves-StandsFrom out s w.db v.db gentle steps h)
  Performs-StandsFrom out (remove_task k) s w w' gentle other (v, steps, inr e) h =
      subst (StandsFrom tid s) (sym e)
        (delete-StandsFrom k s v.db other (Evolves-StandsFrom out s w.db v.db gentle steps h))
  Performs-StandsFrom out _ s w w' gentle other steps h =
      Evolves-StandsFrom out s w.db w'.db gentle steps h

  abbrev pub AllSpare : List (Outside × Operation) → Type 0
  AllSpare [] = Unit {0}
  AllSpare ((out, op) ∷ more) = IsGentle out × Spares op × AllSpare more

  run_from :
      (ops : List (Outside × Operation)) (s : State) (w : World)
      → AllSpare ops
      → StandsFrom tid s w.db
      → StandsFrom tid s (run ops w).db
  unfolding run
  run_from [] s w spared h = h
  run_from ((out, op) ∷ more) s w spared h = run_from more s (perform out op w) spared.2 (
      Performs-StandsFrom out op s w (perform out op w) spared.0 spared.1
        (perform-Performs out op w) h)

  -- After any history of the loops' and the handlers' operations in which this task is not removed, the task
  -- still stands in the database, and pairs of the transition table lead from its first state to its last; if
  -- what others commit in between keeps each task, in its state or moved along the table.
  pub run-StandsFrom :
      (ops : List (Outside × Operation)) (w : World) (t : Task)
      → find Task.id tid w.db.tasks ≡ some t
      → AllSpare ops
      → StandsFrom tid t.state (run ops w).db
  run-StandsFrom ops w t found spared = run_from ops t.state w spared (t, found, here refl)
