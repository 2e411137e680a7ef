-- ===== src/Store/Lifecycle.antt =====
-- The states of tasks under the methods of flotilla/store.py. Some methods write the state column
-- by an UPDATE of their own, past `task_state.transition`.
pub mod Lost
pub mod Methods
pub mod Commands
use ker_sor_monitor.Prelude.{
  String, ◌≡◌, refl, ap, ◌∙◌, Bool, true, false, Option, none, some, List, arith, if◌then◌else◌,
  ◌⊎◌, inl, inr, Option-cases,
}
use mathlib.Core.Path.{subst}
use ker_sor_monitor.Prelude.Rows.{find, update, map_option, changed, find-update}
use ker_sor_monitor.Result.{Result, ok, err}
use ker_sor_monitor.State.{State, allowed, move, is, tag}
use ker_sor_monitor.Models.{Task}
use ker_sor_monitor.Store.Db.{Db}

-- One state, or a pair of the transition table.
abbrev pub Along : State → State → Type 0
Along s t = (s ≡ t) ⊎ (allowed s t ≡ true)

-- Every task that stands in both tables has kept its state or has moved along the table.
abbrev pub Follows : List Task → List Task → Type 0
Follows xs ys =
    (k : String) (t u : Task)
    → find Task.id k xs ≡ some t
    → find Task.id k ys ≡ some u
    → Along t.state u.state

-- Every task of the first table stands in the second, in its state or one that it may move to.
abbrev pub Lasts : List Task → List Task → Type 0
Lasts xs ys =
    (k : String) (t : Task)
    → find Task.id k xs ≡ some t
    → (u : Task) × (find Task.id k ys ≡ some u) × Along t.state u.state

pub Lasts-Follows : (xs ys : List Task) → Lasts xs ys → Follows xs ys
Lasts-Follows xs ys h k t u ft fu =
    let (v, fv, along) = h k t ft in
    let same : v ≡ u = ground (arith, fv, fu) in subst (λ x. Along t.state x.state) same along

-- The same of the database that a transaction leaves.
abbrev pub Tracks {ℓ} : {A : Type ℓ} → List Task → Result (A × Db) → Type 0
Tracks ts (ok (a, db)) = Lasts ts db.tasks
Tracks ts (err e) = Unit

pub Lasts-refl : (xs : List Task) → Lasts xs xs
Lasts-refl xs k t ft = (t, ft, inl refl)

-- A table in which every row is a function of the old one.
pub Lasts-map :
    (f : Task → Task) (xs ys : List Task)
    → ((k : String) → find Task.id k ys ≡ map_option f (find Task.id k xs))
    → ((t : Task) → Along t.state (f t).state)
    → Lasts xs ys
Lasts-map f xs ys image along k t ft = (f t, image k ∙ ap (map_option f) ft, along t)

pub Lasts-update :
    (p : Task → Bool) (f : Task → Task) (xs : List Task)
    → ((t : Task) → (f t).id ≡ t.id)
    → ((t : Task) → p t ≡ true → Along t.state (f t).state)
    → Lasts xs (update p f xs)
Lasts-update p f xs same_id along =
    Lasts-map (changed p f) xs (update p f xs) (λ k. find-update Task.id p f same_id k xs)
      (λ t. kept t (p t) refl)
  where
    kept : (t : Task) (b : Bool) → p t ≡ b → Along t.state (changed p f t).state
    kept t true e = rw e (along t e)
    kept t false e = rw e (inl refl)

pub is-eq : (s t : State) → is s t ≡ true → s ≡ t
is-eq s t h = ground arith

pub move-Along : (a b s : State) → move a b ≡ ok s → Along a b
unfolding move
move-Along a b s h = ground arith
