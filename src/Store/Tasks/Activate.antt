-- ===== src/Store/Tasks/Activate.antt =====
-- `activate_worker` of flotilla/store.py: a claim becomes a running worker.
use ker_sor_monitor.Prelude.{
  ◌+◌, String, ◌≡◌, refl, sym, ap, ◌∙◌, Bool, true, false, ◌||◌, not, Option, none, some, List, [],
  ◌∷◌, ◌++◌, arith, eq_iff, Bool-cases, inl, inr, count_if, nat_beq,
}
use ker_sor_monitor.Prelude.Rows.{find, has, update, map_option, find-update, find-key}
use ker_sor_monitor.Result.{Result, ok, err}
use ker_sor_monitor.State.{State, dispatching, running, is, move}
use ker_sor_monitor.Models.{Task, Worker}
use ker_sor_monitor.Store.Db.{Db, insert_worker, is_open}
use ker_sor_monitor.Store.Tasks.{
  activate_worker, activate_row, start_at, at_state, in_state, in_use,
}

-- Rows that pass `q` and are made to fail it.
count_if-moved :
    (p q : Task → Bool) (f : Task → Task) (xs : List Task)
    → ((x : Task) → p x ≡ true → (q x ≡ true) × (q (f x) ≡ false))
    → count_if q (update p f xs) + count_if p xs ≡ count_if q xs
unfolding update
count_if-moved p q f [] h = refl
count_if-moved p q f (x ∷ xs) h = elim (Bool-cases (p x)) [
  | inl e ↦
      let (before, after) = h x e in
      rw (e, before, after) (omega (arith, count_if-moved p q f xs h))
  | inr e ↦ let rest = count_if-moved p q f xs h in rw e (ground (arith, rest))
]

count_if-snoc :
    (q : Worker → Bool) (xs : List Worker) (x : Worker)
    → q x ≡ true
    → count_if q (xs ++ x ∷ []) ≡ count_if q xs + 1
count_if-snoc q [] x h = rw h refl
count_if-snoc q (y ∷ xs) x h = let rest = count_if-snoc q xs x h in ground (arith, rest)

-- What a successful activation leaves.
pub record IsActivated (tid : String) (worker : Worker) (path : String) (db db' : Db) : Type 0 where
  pub state : map_option Task.state (find Task.id tid db'.tasks) ≡ some running
  pub workspace : map_option Task.workspace_path (find Task.id tid db'.tasks) ≡ some (some path)
  pub workers : db'.workers ≡ db.workers ++ worker ∷ []
  pub capacity : in_use db' ≡ in_use db

abbrev pub Activated : String → Worker → String → Db → Result (Bool × Db) → Type 0
Activated tid worker path db (ok (true, db')) = IsActivated tid worker path db db'
Activated tid worker path db (ok (false, db')) = db' ≡ db
Activated tid worker path db (err e) = Unit

is-eq : (s t : State) → is s t ≡ true → s ≡ t
is-eq s t h = ground arith

started :
    (now tid path : String) (worker : Worker) (row : Task) (db : Db)
    → find Task.id tid db.tasks ≡ some row
    → row.state ≡ dispatching
    → is_open worker ≡ true
    → count_if (at_state tid dispatching) db.tasks ≡ 1
    → IsActivated tid worker path db (record db {
      workers = db.workers ++ worker ∷ [];
      tasks = update (at_state tid dispatching) (start_at now path) db.tasks;
    })
unfolding in_use
started now tid path worker row db f d is_new one =
    let moved : find Task.id tid (update (at_state tid dispatching) (start_at now path) db.tasks)
        ≡ some (start_at now path row) =
      find-update Task.id (at_state tid dispatching) (start_at now path) (λ x. refl) tid db.tasks
      ∙ ground (arith, f, d, eq_iff row.id tid, find-key Task.id tid db.tasks row f) in
    let fewer =
      count_if-moved (at_state tid dispatching) (in_state dispatching) (start_at now path) db.tasks
        (λ x h. ground (arith, h)) in
    record {
      state = ap (map_option Task.state) moved;
      workspace = ap (map_option Task.workspace_path) moved;
      workers = refl;
      capacity = omega (arith, fewer, one, count_if-snoc is_open db.workers worker is_new);
    }

activate_row-Activated :
    (now tid path : String) (worker : Worker) (row : Option Task) (db : Db)
    → find Task.id tid db.tasks ≡ row
    → is_open worker ≡ true
    → Activated tid worker path db (activate_row now tid worker path row db)
unfolding activate_row insert_worker move
activate_row-Activated now tid path worker none db f is_new = refl
activate_row-Activated now tid path worker (some row) db f is_new =
    elim (Bool-cases (is dispatching row.state)) [
      | inr n ↦ rw n refl
      | inl d ↦
          let at = sym (is-eq dispatching row.state d) in
          elim (Bool-cases
            (has Worker.id worker.id db.workers || not (has Task.id worker.task_id db.tasks))) [
              | inl bad ↦ rw (at, bad) tt
              | inr fine ↦
                  elim (Bool-cases (nat_beq (count_if (at_state tid dispatching) db.tasks) 1)) [
                    | inr n ↦ rw (at, fine, n) tt
                    | inl one ↦
                        rw (at, fine, one)
                          (started now tid path worker row db f at is_new (ground (arith, one)))
                  ]
            ]
    ]

-- Activating a worker whose row is open turns the claim into it: the task is RUNNING at its workspace,
-- the row is there, and as much capacity is in use as before. A refusal changes nothing.
pub activate_worker-Activated :
    (now tid path : String) (worker : Worker) (db : Db)
    → is_open worker ≡ true
    → Activated tid worker path db (activate_worker now tid worker path db)
unfolding activate_worker
activate_worker-Activated now tid path worker db is_new =
    activate_row-Activated now tid path worker (find Task.id tid db.tasks) db refl is_new
