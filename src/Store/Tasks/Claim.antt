-- ===== src/Store/Tasks/Claim.antt =====
-- `claim_queued_tasks` of flotilla/store.py: its loop against a description in one pass.
use ker_sor_monitor.Prelude.{
  ℕ, ◌+◌, ◌-◌, ◌≤◌, String, ◌≡◌, refl, ap, sym, ◌∙◌, true, false, ◌&&◌, Option, none, some, List,
  [], ◌∷◌, ◌++◌, if◌then◌else◌, arith, eq_iff, leb, map, count_if, filter_if, take, length, All,
  min, length-take, length-filter_if, length-append, Bool-cases, All-take, tests, length-map, inl,
  inr, max,
}
use mathlib.Core.List.{append-nil, append_assoc}
use ker_sor_monitor.Prelude.Rows.{
  has, find, update, Unique, changed, map_option, find-update, Unique-update, count_if-key,
  find_self, Unique-filter_if, Unique-take,
}
use ker_sor_monitor.Prelude.Sort.{order_by, length-order_by, Unique-order_by, All-order_by}
use ker_sor_monitor.State.{queued, dispatching}
use ker_sor_monitor.Models.{Task}
use ker_sor_monitor.Store.Db.{Db}
use ker_sor_monitor.Store.Tasks.{
  restate, at_state, in_state, claim_row, claim_rows, claim_queued_tasks, in_use, queued_tasks,
  queue_le,
}

abbrev ids : Task → String
ids = Task.id

-- Marking one queued row moves what is counted from QUEUED to DISPATCHING.
count-claim :
    (now k : String) (ts : List Task)
    → count_if (in_state dispatching) (update (at_state k queued) (restate dispatching now) ts)
      ≡ count_if (in_state dispatching) ts + count_if (at_state k queued) ts
unfolding update
count-claim now k [] = refl
count-claim now k (t ∷ ts) = ground (arith, count-claim now k ts)

claim_row-count :
    (now : String) (row : Task) (ts cl : List Task)
    → Unique Task.id ts
    → count_if (in_state dispatching) (claim_row now row (ts, cl)).0 + length cl
      ≡ count_if (in_state dispatching) ts + length (claim_row now row (ts, cl)).1
unfolding claim_row
claim_row-count now row ts cl u = ground (
  arith,
  count-claim now row.id ts,
  count_if-key Task.id row.id (in_state queued) ts u,
  length-append cl (restate dispatching now row ∷ []),
)

-- Each claim counts once.
pub claim_rows-count :
    (now : String) (rows ts cl : List Task)
    → Unique Task.id ts
    → count_if (in_state dispatching) (claim_rows now rows (ts, cl)).0 + length cl
      ≡ count_if (in_state dispatching) ts + length (claim_rows now rows (ts, cl)).1
unfolding claim_rows
claim_rows-count now [] ts cl u = refl
claim_rows-count now (row ∷ rows) ts cl u =
    let next = claim_row now row (ts, cl) in
    omega (
      arith,
      claim_row-count now row ts cl u,
      claim_rows-count now rows next.0 next.1 (
          unfold claim_row in
          Unique-update Task.id (at_state row.id queued) (restate dispatching now) (λ x. refl) ts
            u),
    )

abbrev pub claimed_as : String → List Task → Task → Task
claimed_as now rows t =
    if has Task.id t.id rows && in_state queued t then restate dispatching now t else t

claimed_as-cons :
    (now : String) (row : Task) (rows : List Task) (t : Task)
    → claimed_as now rows (changed (at_state row.id queued) (restate dispatching now) t)
      ≡ claimed_as now (row ∷ rows) t
unfolding has
claimed_as-cons now row rows t = ground (arith, eq_iff t.id row.id, eq_iff row.id t.id)

-- The loop in one pass: every queued task among the rows is marked, and no other row changes.
pub claim_rows-find :
    (now k : String) (rows ts cl : List Task)
    → find Task.id k (claim_rows now rows (ts, cl)).0
      ≡ map_option (claimed_as now rows) (find Task.id k ts)
unfolding claim_rows has
claim_rows-find now k [] ts cl = ground arith
claim_rows-find now k (row ∷ rows) ts cl =
    claim_rows-find now k rows (claim_row now row (ts, cl)).0 (claim_row now row (ts, cl)).1
    ∙ (unfold claim_row in
        ap (map_option (claimed_as now rows))
          (find-update Task.id (at_state row.id queued) (restate dispatching now) (λ x. refl) k ts)
        ∙ fused (find Task.id k ts))
  where
    fused :
        (o : Option Task)
        → map_option
            (claimed_as now rows)
            (map_option (changed (at_state row.id queued) (restate dispatching now)) o)
          ≡ map_option (claimed_as now (row ∷ rows)) o
    fused none = refl
    fused (some t) = ap some (claimed_as-cons now row rows t)

-- A row that stands in the table as it was read, and is queued.
abbrev IsClaimable : List Task → Task → Type 0
IsClaimable ts r = (find Task.id r.id ts ≡ some r) × (in_state queued r ≡ true)

IsClaimable-update :
    (now k : String) (ts rows : List Task)
    → has Task.id k rows ≡ false
    → All (IsClaimable ts) rows
    → All (IsClaimable (update (at_state k queued) (restate dispatching now) ts)) rows
unfolding has
IsClaimable-update now k ts [] h a = tt
IsClaimable-update now k ts (r ∷ rs) h a = (
  (
    ground (
      arith,
      find-update Task.id (at_state k queued) (restate dispatching now) (λ x. refl) r.id ts,
      a.0.0,
      h,
      eq_iff r.id k,
    ),
    a.0.1,
  ),
  IsClaimable-update now k ts rs (ground (arith, h)) a.1,
)

claim_row-claimed :
    (now : String) (row : Task) (ts cl : List Task)
    → Unique Task.id ts
    → IsClaimable ts row
    → (claim_row now row (ts, cl)).1 ≡ cl ++ restate dispatching now row ∷ []
unfolding claim_row
claim_row-claimed now row ts cl u h =
    ground (arith, count_if-key Task.id row.id (in_state queued) ts u, h.0, h.1)

-- The loop claims every row that it is given.
pub claim_rows-claimed :
    (now : String) (rows ts cl : List Task)
    → Unique Task.id ts
    → Unique Task.id rows
    → All (IsClaimable ts) rows
    → (claim_rows now rows (ts, cl)).1 ≡ cl ++ map (restate dispatching now) rows
unfolding claim_rows Unique
claim_rows-claimed now [] ts cl u v a = sym (append-nil cl)
claim_rows-claimed now (row ∷ rows) ts cl u v a =
    claim_rows-claimed now rows (claim_row now row (ts, cl)).0 (claim_row now row (ts, cl)).1
      (unfold claim_row in
        Unique-update Task.id (at_state row.id queued) (restate dispatching now) (λ x. refl) ts u)
      v.1 (unfold claim_row in IsClaimable-update now row.id ts rows v.0 a.1)
    ∙ (rw (claim_row-claimed now row ts cl u a.0)
        (append_assoc cl (restate dispatching now row ∷ []) (map (restate dispatching now) rows)))

-- The rows that `claim_queued_tasks` reads.
abbrev pub claim_candidates : ℕ → Db → List Task
claim_candidates max_active db = take (max_active - in_use db) (queued_tasks db)

Unique-claim_candidates :
    (n : ℕ) (db : Db) → Unique Task.id db.tasks → Unique Task.id (claim_candidates n db)
unfolding queued_tasks
Unique-claim_candidates n db u =
    Unique-take Task.id (n - in_use db) (order_by queue_le (filter_if (in_state queued) db.tasks)) (
      Unique-order_by queue_le Task.id (filter_if (in_state queued) db.tasks)
        (Unique-filter_if Task.id (in_state queued) db.tasks u))

IsClaimable-filter_if :
    (xs ts : List Task)
    → All (λ t. find Task.id t.id xs ≡ some t) ts
    → All (IsClaimable xs) (filter_if (in_state queued) ts)
IsClaimable-filter_if xs [] a = tt
IsClaimable-filter_if xs (t ∷ ts) a = elim (Bool-cases (in_state queued t)) [
  | inl e ↦ rw e ((a.0, e), IsClaimable-filter_if xs ts a.1)
  | inr e ↦ rw e (IsClaimable-filter_if xs ts a.1)
]

IsClaimable-claim_candidates :
    (n : ℕ) (db : Db) → Unique Task.id db.tasks → All (IsClaimable db.tasks) (claim_candidates n db)
unfolding queued_tasks
IsClaimable-claim_candidates n db u =
    All-take (IsClaimable db.tasks) (n - in_use db)
      (order_by queue_le (filter_if (in_state queued) db.tasks))
      (All-order_by queue_le (IsClaimable db.tasks) (filter_if (in_state queued) db.tasks)
        (IsClaimable-filter_if db.tasks db.tasks (find_self Task.id db.tasks u)))

-- With unique ids, `claim_queued_tasks` returns the first tasks of the queue, as many as there is
-- capacity for, each as it then stands in the table.
pub claimed_lem :
    (now : String) (n : ℕ) (db : Db)
    → Unique Task.id db.tasks
    → (claim_queued_tasks now n db).0 ≡ map (restate dispatching now) (claim_candidates n db)
unfolding claim_queued_tasks
claimed_lem now n db u = elim (Bool-cases (leb n (in_use db))) [
  | inl e ↦ let full : n - in_use db ≡ 0 = omega (tests, e) in rw (e, full)
  | inr e ↦ rw e (
      claim_rows-claimed now (claim_candidates n db) db.tasks [] u (Unique-claim_candidates n db u)
        (IsClaimable-claim_candidates n db u))
]

claimed-length :
    (now : String) (n : ℕ) (db : Db)
    → Unique Task.id db.tasks
    → length (claim_queued_tasks now n db).0
      ≡ min (n - in_use db) (count_if (in_state queued) db.tasks)
unfolding queued_tasks
claimed-length now n db u =
    rw (claimed_lem now n db u, length-map)
      (length-take (n - in_use db) (order_by queue_le (filter_if (in_state queued) db.tasks))
        ∙ ap (min (n - in_use db)) (
            length-order_by queue_le (filter_if (in_state queued) db.tasks)
            ∙ length-filter_if (in_state queued) db.tasks))

in_use-claim :
    (now : String) (n : ℕ) (db : Db)
    → Unique Task.id db.tasks
    → in_use (claim_queued_tasks now n db).1 ≡ in_use db + length (claim_queued_tasks now n db).0
unfolding claim_queued_tasks
in_use-claim now n db u = elim (Bool-cases (leb n (in_use db))) [
  | inl e ↦ rw e (omega arith)
  | inr e ↦ rw e (omega (arith, claim_rows-count now (claim_candidates n db) db.tasks [] u))
]

-- The number of claims is the capacity that is left or the number of queued tasks, whichever is
-- less; each claim takes one unit of capacity, and a claim never takes the total beyond the limit.
pub claim_capacity :
    (now : String) (n : ℕ) (db : Db)
    → Unique Task.id db.tasks
    → let r = claim_queued_tasks now n db in
      (length r.0 ≡ min (n - in_use db) (count_if (in_state queued) db.tasks))
      × (in_use r.1 ≡ in_use db + length r.0)
      × (in_use r.1 ≤ max n (in_use db))
claim_capacity now n db u =
    let size = claimed-length now n db u in
    let used = in_use-claim now n db u in (size, used, omega (arith, size, used))

-- After a claim every task that was among the candidates is DISPATCHING, with the time of the
-- claim; every other task, and every other table, is as before.
pub claim_effect :
    (now k : String) (n : ℕ) (db : Db)
    → (find Task.id k (claim_queued_tasks now n db).1.tasks
        ≡ map_option (claimed_as now (claim_candidates n db)) (find Task.id k db.tasks))
      × ((claim_queued_tasks now n db).1
          ≡ record db { tasks = (claim_queued_tasks now n db).1.tasks })
unfolding claim_queued_tasks
claim_effect now k n db = elim (Bool-cases (leb n (in_use db))) [
  | inl e ↦
      let full : n - in_use db ≡ 0 = omega (tests, e) in
      rw (e, full) (unfold has in ground arith, refl)
  | inr e ↦ rw e (claim_rows-find now k (claim_candidates n db) db.tasks [], refl)
]
