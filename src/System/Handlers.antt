-- ===== src/System/Handlers.antt =====
-- What the handlers of flotilla/routes.py do to the database.
use ker_sor_monitor.Prelude.{
  ℕ, String, ◌≡◌, ◌⊎◌, refl, inl, inr, Bool, true, false, not, ◌||◌, Option, none, some, List, [],
  ◌∷◌, Bool-cases, is_some,
}
use ker_sor_monitor.Result.{
  Result, ok, err, unknown_state, illegal_transition, integrity_error, key_error, value_error,
  type_error, runtime_error, http_error, other_error, attribute_error,
}
use ker_sor_monitor.State.{State, is_live, name}
use ker_sor_monitor.Json.{Dict, str}
use ker_sor_monitor.Models.{
  Task, Event, WorkerPing, Project, Host, TemplateCreate, TaskCreate, Template,
}
use ker_sor_monitor.SafeId.{is_safe_id}
use ker_sor_monitor.Store.Db.{Db}
use ker_sor_monitor.Store.Tasks
use ker_sor_monitor.Store.Tasks.{get_task}
use ker_sor_monitor.Store.Workers.{active_worker_id}
use ker_sor_monitor.Store.Catalog.{get_project}
use ker_sor_monitor.Store.Catalog
use ker_sor_monitor.Store.Commands.{Command, execute}
use ker_sor_monitor.World.{World, Outside}
use ker_sor_monitor.Actuator.{event, retire}
use ker_sor_monitor.Actuator.Steer.{Reply, accepted, refused, actuate}
use ker_sor_monitor.Observer.{map_terminal}
use ker_sor_monitor.Routes.Control.{check_request, steered, requested, post_actuate, actuation}
use ker_sor_monitor.Routes.Ping.{
  append, told, ended, reported, ping_row, worker_ping, ping_record, is_authorized,
}
use ker_sor_monitor.Routes.Remove.{is_busy, after_stop, remove_row, remove_task}
use ker_sor_monitor.Routes.Create.{Policy, check_batch, created, write_batch, post_tasks, check_id}
use ker_sor_monitor.Routes.Entries.{
  unless, inserted, post_project, check_new_host, post_host, remove_host, check_template,
  post_template, remove_template, own_template, seed_templates,
}
use ker_sor_monitor.System.Evolves.{
  Evolves, stays, commits, Evolves-command, Evolves-trans, Evolves-others,
}
use ker_sor_monitor.System.Actuation.{Steps, Steps-refl, Steps-trans, retire-Steps}
use ker_sor_monitor.System.Requests.{actuate-Steps}

module _ (out : Outside) where
  append-Steps : (e : Event) (w : World) → Steps out w (append out e w).1
  unfolding append execute
  append-Steps e w = Evolves-command out.others (Command.append_event out.retention e) tt w.db

  told-Steps :
      (tid : String) (w : World) (r : Result (Option State) × World)
      → Steps out w r.1
      → Steps out w (told out tid r).1
  told-Steps tid w (ok none, v) h = h
  told-Steps tid w (ok (some s), v) h =
      let e = event out tid "terminal" (("state", str (name s)) ∷ []) in
      Steps-trans out w v (append out e v).1 h (append-Steps e v)
  told-Steps tid w (err e, v) h = h

  ended-Steps : (tid : String) (o : Option State) (w : World) → Steps out w (ended out tid o w).1
  ended-Steps tid none w = Steps-refl out w
  ended-Steps tid (some s) w =
      told-Steps tid w (retire out tid (active_worker_id w.db tid) (some s) true w)
        (retire-Steps out tid (active_worker_id w.db tid) (some s) true w)

  reported-Steps :
      (b : WorkerPing) (w : World) (r : Result (Unit {0}) × World)
      → Steps out w r.1
      → Steps out w (reported out b r).1
  reported-Steps b w (ok _, v) h =
      let s = map_terminal (some b.state) false "" in
      Steps-trans out w v (ended out b.task_id s v).1 h (ended-Steps b.task_id s v)
  reported-Steps b w (err e, v) h = h

  ping_row-Steps :
      (b : WorkerPing) (w : World) (o : Option Task) → Steps out w (ping_row out b w o).1
  ping_row-Steps b w none = Steps-refl out w
  ping_row-Steps b w (some t) =
      elim (Bool-cases (not (is_live t.state) || not (is_some (active_worker_id w.db b.task_id)))) [
        | inl e ↦ rw e (Steps-refl out w)
        | inr e ↦
            let event_ = event out b.task_id "status" (ping_record b) in
            rw e (reported-Steps b w (append out event_ w) (append-Steps event_ w))
      ]

  pub ping-Steps :
      (token : String) (header : Option String) (b : WorkerPing) (w : World)
      → Steps out w (worker_ping out token header b w).1
  unfolding worker_ping
  ping-Steps token header b w = elim (Bool-cases (not (is_authorized token header))) [
    | inl e ↦ rw e (Steps-refl out w)
    | inr e ↦ elim (Bool-cases (not (is_safe_id b.task_id))) [
      | inl u ↦ rw (e, u) (Steps-refl out w)
      | inr u ↦ rw (e, u) (ping_row-Steps b w (get_task w.db b.task_id))
    ]
  ]

  -- A removal: steps that delete no task, and at most one deletion, of the task it is about.
  abbrev pub Removes : String → World → World → Type 0
  Removes tid w w' =
      (v : World) × Steps out w v × ((w'.db ≡ v.db) ⊎ (w'.db ≡ Tasks.delete_task tid v.db))

  after_stop-Removes :
      (tid : String) (w : World) (r : Result Reply × World)
      → Steps out w r.1
      → Removes tid w (after_stop tid r).1
  after_stop-Removes tid w (ok (accepted a), v) h = (v, h, inr refl)
  after_stop-Removes tid w (ok refused, v) h = (v, h, inl refl)
  after_stop-Removes tid w (err e, v) h = (v, h, inl refl)

  remove_row-Removes :
      (tid : String) (w : World) (o : Option Task) → Removes tid w (remove_row out tid w o).1
  remove_row-Removes tid w none = (w, Steps-refl out w, inl refl)
  remove_row-Removes tid w (some t) = elim (Bool-cases (is_busy w.db tid t)) [
    | inl e ↦
        rw e (
          after_stop-Removes tid w (actuate out tid "stop" [] w)
            (actuate-Steps out tid "stop" [] w))
    | inr e ↦ rw e (w, Steps-refl out w, inr refl)
  ]

  pub remove_task-Removes : (tid : String) (w : World) → Removes tid w (remove_task out tid w).1
  unfolding remove_task
  remove_task-Removes tid w = remove_row-Removes tid w (get_task w.db tid)

  steered-Steps :
      (tid action : String) (payload : Dict) (w : World) (r : Result Reply × World)
      → Steps out w r.1
      → Steps out w (steered out tid action payload r).1
  steered-Steps tid action payload w (ok (accepted a), v) h =
      let e = event out tid "actuation" (actuation action payload) in
      Steps-trans out w v (append out e v).1 h (append-Steps e v)
  steered-Steps tid action payload w (ok refused, v) h = h
  steered-Steps tid action payload w (err e, v) h = h

  requested-Steps :
      (tid : String) (w : World) (r : Result (String × Dict))
      → Steps out w (requested out tid w r).1
  requested-Steps tid w (err e) = Steps-refl out w
  requested-Steps tid w (ok (action, payload)) =
      steered-Steps tid action payload w (actuate out tid action payload w)
        (actuate-Steps out tid action payload w)

  pub post_actuate-Steps :
      (json_length : Dict → ℕ) (tid : String) (body : Dict) (w : World)
      → Steps out w (post_actuate out json_length tid body w).1
  unfolding post_actuate
  post_actuate-Steps json_length tid body w = elim (Bool-cases (is_some (get_task w.db tid))) [
    | inl e ↦ rw e (requested-Steps tid w (check_request json_length body))
    | inr e ↦ rw e (Steps-refl out w)
  ]

module _ (others : Db → Db) where
  created-Evolves :
      (ts : List Task) (a : Db) (r : Result (Unit {0}) × Db)
      → Evolves others a r.1
      → Evolves others a (created ts r).1
  created-Evolves ts a (ok _, db) h = h
  created-Evolves ts a (err unknown_state, db) h = h
  created-Evolves ts a (err illegal_transition, db) h = h
  created-Evolves ts a (err integrity_error, db) h = h
  created-Evolves ts a (err key_error, db) h = h
  created-Evolves ts a (err value_error, db) h = h
  created-Evolves ts a (err type_error, db) h = h
  created-Evolves ts a (err runtime_error, db) h = h
  created-Evolves ts a (err (http_error n), db) h = h
  created-Evolves ts a (err other_error, db) h = h
  created-Evolves ts a (err attribute_error, db) h = h

  write_batch-Evolves :
      (db : Db) (r : Result (List Task)) → Evolves others db (write_batch others db r).1
  unfolding execute
  write_batch-Evolves db (err e) = stays refl
  write_batch-Evolves db (ok ts) =
      Evolves-trans others db (others db) (write_batch others db (ok ts)).1
        (Evolves-others others db)
        (created-Evolves ts (others db) _
          (Evolves-command others (Command.create_tasks ts) tt (others db)))

  pub post_tasks-Evolves :
      (policy : Policy) (now pid : String) (items : List TaskCreate) (db : Db)
      → Evolves others db (post_tasks policy now others pid items db).1
  unfolding post_tasks
  post_tasks-Evolves policy now pid items db =
      write_batch-Evolves db (check_batch policy now db pid items)

  -- A handler that makes one call of the store where its checks pass.
  unless-Evolves {ℓ} :
      {A : Type ℓ} (r : Result A) (db : Db) (f : A → Result (Unit {0}) × Db)
      → ((a : A) → Evolves others db (f a).1)
      → Evolves others db (unless r db f).1
  unless-Evolves (ok a) db f h = h a
  unless-Evolves (err e) db f h = stays refl

  inserted-Evolves :
      (same : Project → Project → Bool) (p : Project) (a : Db) (r : Bool × Db)
      → Evolves others a r.1
      → Evolves others a (inserted same p r).1
  inserted-Evolves same p a (true, db) h = h
  inserted-Evolves same p a (false, db) h = h

  pub post_project-Evolves :
      (same : Project → Project → Bool) (p : Project) (db : Db)
      → Evolves others db (post_project same p db).1
  unfolding post_project execute
  post_project-Evolves same p db =
      unless-Evolves (check_id p.id) db _ (λ _.
        inserted-Evolves same p db _ (Evolves-command others (Command.create_project p) tt db))

  pub post_host-Evolves : (h : Host) (db : Db) → Evolves others db (post_host h db).1
  unfolding post_host execute
  post_host-Evolves h db =
      unless-Evolves (check_new_host db h) db _
        (λ _. Evolves-command others (Command.create_host h) tt db)

  pub remove_host-Evolves : (hid : String) (db : Db) → Evolves others db (remove_host hid db).1
  unfolding remove_host execute
  remove_host-Evolves hid db =
      unless-Evolves _ db _ (λ _. Evolves-command others (Command.delete_host hid) tt db)

  pub post_template-Evolves :
      (now : String) (t : TemplateCreate) (db : Db) → Evolves others db (post_template now t db).1
  unfolding post_template execute
  post_template-Evolves now t db =
      unless-Evolves (check_template db t) db _
        (λ _. Evolves-command others (Command.create_template (own_template now t)) tt db)

  pub remove_template-Evolves :
      (tid : String) (db : Db) → Evolves others db (remove_template tid db).1
  unfolding remove_template execute
  remove_template-Evolves tid db =
      unless-Evolves _ db _ (λ _. Evolves-command others (Command.delete_template tid) tt db)

  pub seed-Evolves : (ts : List Template) (db : Db) → Evolves others db (seed_templates ts db)
  unfolding seed_templates execute
  seed-Evolves [] db = stays refl
  seed-Evolves (t ∷ ts) db =
      commits (Command.create_template t) tt (seed-Evolves ts (Catalog.create_template t db))
