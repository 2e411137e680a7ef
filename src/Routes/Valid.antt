-- ===== src/Routes/Valid.antt =====
-- What the checks of flotilla/routes.py promise to flotilla/scheduler.py.
use ker_sor_monitor.Prelude.{
  ℕ, String, ◌≡◌, refl, ap, ◌∙◌, if◌then◌else◌, Bool, true, false, not, ◌&&◌, Option, none, some,
  arith, eq_iff, ◌==◌, Bool-cases, inl, inr, is_some,
}
use ker_sor_monitor.Result.{Result, ok, err, ◌>>=◌, is_ok, bind_ok, ok-inj}
use ker_sor_monitor.Json.{Value, null, bool, int, float, str, arr, obj, get, truthy, Dict}
use ker_sor_monitor.Models.{Task, TaskCreate}
use ker_sor_monitor.SafeId.{is_safe_id}
use ker_sor_monitor.Runtime.{Adapter, get_adapter, supports_remote}
use ker_sor_monitor.Resource.{
  Kind, cpu, gpu, get_kind, Lock, Resources, gpu_acquire, gpu_acquire_uuid, acquire,
}
use ker_sor_monitor.Store.Db.{Db}
use ker_sor_monitor.Store.Catalog.{get_host}
use ker_sor_monitor.Scheduler.Resolve.{
  Launch, checked, place, at_host, has_host, is_str, resource_adapter, acquiring, locked,
  resolve_dispatch,
}
use ker_sor_monitor.World.{World}
use ker_sor_monitor.Routes.Create.{
  Policy, validate_task_create, check_id, check_host, check_remote, check_kind, check_uuid, known,
  queued_task, require, check_evaluator, check_metadata,
}
use mathlib.Core.Path.{subst}

known_ok {ℓ} : {A : Type ℓ} (m : Result A) (a : A) → known m ≡ ok a → m ≡ ok a
known_ok (ok a) b h = h
known_ok (err e) b h = ground (arith, h)

safe-truthy : (s : String) → is_safe_id s ≡ true → truthy (str s) ≡ true
unfolding is_safe_id truthy
safe-truthy s h = elim (Bool-cases (s == "")) [
  | inl e ↦ let empty : s ≡ "" = (eq_iff s "").0 e in cc (rw empty at h)
  | inr e ↦ rw e refl
]

gpu_named : (k u : Value) → check_uuid k u ≡ ok tt → (is_str "gpu" k && not (truthy u)) ≡ false
unfolding check_id
gpu_named (str k) (str u) h = ground (arith, h, safe-truthy u)
gpu_named (str k) null h = ground (arith, h)
gpu_named (str k) (bool b) h = ground (arith, h)
gpu_named (str k) (int n) h = ground (arith, h)
gpu_named (str k) (float x) h = ground (arith, h)
gpu_named (str k) (arr vs) h = ground (arith, h)
gpu_named (str k) (obj fs) h = ground (arith, h)
gpu_named null u h = refl
gpu_named (bool b) u h = refl
gpu_named (int n) u h = refl
gpu_named (float x) u h = refl
gpu_named (arr vs) u h = refl
gpu_named (obj fs) u h = refl

abbrev all_right : Kind → Result (Unit {0})
all_right k = ok tt

kind_found :
    (r : Result Kind)
    → (known r >>= all_right) ≡ ok tt
    → (a : Option Kind) × ((r >>= λ x. ok (some x)) ≡ ok a)
kind_found (ok x) h = (some x, refl)
kind_found (err e) h =
    let (a, found, _) = bind_ok (known (err e)) all_right tt h in cc (known_ok (err e) a found)

kind_known : (k : Value) → check_kind k ≡ ok tt → (a : Option Kind) × (resource_adapter k ≡ ok a)
kind_known k h = elim (Bool-cases (truthy k)) [
  | inr e ↦ rw e (none, refl)
  | inl e ↦ rw e (kind_found (get_kind k) (rw e at h))
]

required : (b : Bool) (code : _) → require b code ≡ ok tt → b ≡ true
required b code h = ground (arith, h)

-- A place, and no host where the runtime is local only.
abbrev Placed : Adapter → Result (String × Option String) → Type 0
Placed rt r =
    (at : String × Option String) × (r ≡ ok at)
    × ((has_host at.1 && not (supports_remote rt)) ≡ false)

host-Placed :
    (l : Launch) (db : Db) (t : Task) (host : Option String) (rt : Adapter)
    → check_host db host ≡ ok tt
    → check_remote host rt ≡ ok tt
    → Placed rt (at_host l db t host)
host-Placed l db t none rt h r = (_, refl, refl)
host-Placed l db t (some hid) rt h r = elim (Bool-cases (hid == "")) [
  | inl e ↦ rw e (_, refl, refl)
  | inr e ↦ by e (get_host db hid) refl
]
  where
    by : (hid == "") ≡ false → (o : _) → get_host db hid ≡ o → Placed rt (at_host l db t (some hid))
    by e none g =
        let (_, _, there) =
          bind_ok (check_id hid) (λ _. require (is_some (get_host db hid)) 400) tt (rw e at h) in
        cc (rw g at there)
    by e (some x) g = rw (e, g) (_, refl, ground (arith, r, e))

resolvable :
    (l : Launch) (db : Db) (t : Task) (rt : Adapter)
    → get_adapter t.runtime ≡ ok rt
    → check_host db t.target_host ≡ ok tt
    → check_remote t.target_host rt ≡ ok tt
    → check_kind (get "kind" t.resource_req) ≡ ok tt
    → check_uuid (get "kind" t.resource_req) (get "uuid" t.resource_req) ≡ ok tt
    → is_ok (checked l db t) ≡ true
unfolding checked place
resolvable l db t rt adapter host remote kind uuid =
    let (k, k_ok) = kind_known (get "kind" t.resource_req) kind in
    let (at, at_ok, fits) = host-Placed l db t t.target_host rt host remote in
    rw
      (
        adapter,
        gpu_named (get "kind" t.resource_req) (get "uuid" t.resource_req) uuid,
        k_ok,
        at_ok,
        fits,
      )
      refl

adapts_gpu :
    (b : Bool) (r : Result Kind)
    → (if b then (r >>= λ x. ok (some x)) else ok none) ≡ ok (some gpu)
    → r ≡ ok gpu
adapts_gpu true (ok cpu) h = cc
adapts_gpu true (ok gpu) h = refl
adapts_gpu true (err e) h = cc
adapts_gpu false r h = cc

kind_gpu : (k : Value) → get_kind k ≡ ok gpu → k ≡ str "gpu"
unfolding get_kind
kind_gpu (str k) h = ap str (ground (arith, eq_iff k "gpu", h))
kind_gpu null h = cc
kind_gpu (bool b) h = cc
kind_gpu (int n) h = cc
kind_gpu (float x) h = cc
kind_gpu (arr vs) h = cc
kind_gpu (obj fs) h = cc

-- A GPU that the interface has let through has a name that its lock accepts.
module _ (wid : String) (free : Bool) (fd : ℕ) (r : Resources) where
  gpu_uuid-is_ok :
      (u : Value)
      → check_uuid (str "gpu") u ≡ ok tt
      → is_ok (gpu_acquire_uuid u wid free fd r) ≡ true
  unfolding gpu_acquire_uuid check_id
  gpu_uuid-is_ok (str u) h = ground (arith, h)
  gpu_uuid-is_ok null h = cc
  gpu_uuid-is_ok (bool b) h = cc
  gpu_uuid-is_ok (int n) h = cc
  gpu_uuid-is_ok (float x) h = cc
  gpu_uuid-is_ok (arr vs) h = cc
  gpu_uuid-is_ok (obj fs) h = cc

  acquire-is_ok :
      (kind : Kind) (req : Dict)
      → check_uuid (get "kind" req) (get "uuid" req) ≡ ok tt
      → resource_adapter (get "kind" req) ≡ ok (some kind)
      → is_ok (acquire kind wid req free fd r) ≡ true
  unfolding acquire gpu_acquire
  acquire-is_ok cpu req h e = refl
  acquire-is_ok gpu req h e =
      let named : get "kind" req ≡ str "gpu" =
        kind_gpu (get "kind" req)
          (adapts_gpu (truthy (get "kind" req)) (get_kind (get "kind" req)) e) in
      gpu_uuid-is_ok (get "uuid" req) (subst (λ k. check_uuid k (get "uuid" req) ≡ ok tt) named h)

-- The kind that the checks return is that of the request.
checked-kind :
    (l : Launch) (db : Db) (t : Task) (rt : Adapter) (kind : Option Kind) (ws : String)
    (ssh : Option String)
    → checked l db t ≡ ok (rt, kind, ws, ssh)
    → resource_adapter (get "kind" t.resource_req) ≡ ok kind
unfolding checked
checked-kind l db t rt kind ws ssh h =
    let (rt', _, h1) = bind_ok (get_adapter t.runtime) _ (rt, kind, ws, ssh) h in
    let named =
      is_str "gpu" (get "kind" t.resource_req) && not (truthy (get "uuid" t.resource_req)) in
    elim (Bool-cases named) [
      | inl e ↦ cc (rw e at h1)
      | inr e ↦
          let (k, found, h2) =
            bind_ok (resource_adapter (get "kind" t.resource_req)) _ (rt, kind, ws, ssh)
              (rw e at h1) in
          let (at, _, h3) = bind_ok (place l db t) _ (rt, kind, ws, ssh) h2 in
          elim (Bool-cases (has_host at.1 && not (supports_remote rt'))) [
            | inl f ↦ cc (rw f at h3)
            | inr f ↦ found ∙ ap ok (ap (λ p. p.1) (ok-inj _ _ (rw f at h3)))
          ]
    ]

locked-is_ok :
    (l : Launch) (t : Task) (rt : Adapter) (ws : String) (ssh : Option String) (w : World)
    (r : Result (Option Lock × Resources))
    → is_ok r ≡ true
    → is_ok (locked l t rt ws ssh w r).0 ≡ true
locked-is_ok l t rt ws ssh w (ok (none, r)) h = refl
locked-is_ok l t rt ws ssh w (ok (some lock, r)) h = refl
locked-is_ok l t rt ws ssh w (err e) h = cc

acquiring-is_ok :
    (l : Launch) (t : Task) (w : World)
    (c : Result (Adapter × Option Kind × String × Option String))
    → check_uuid (get "kind" t.resource_req) (get "uuid" t.resource_req) ≡ ok tt
    → checked l w.db t ≡ c
    → is_ok c ≡ true
    → is_ok (acquiring l t w c).0 ≡ true
acquiring-is_ok l t w (err e) uuid h fine = cc
acquiring-is_ok l t w (ok (rt, none, ws, ssh)) uuid h fine = refl
acquiring-is_ok l t w (ok (rt, some kind, ws, ssh)) uuid h fine = locked-is_ok l t rt ws ssh w _ (
    acquire-is_ok (l.worker_id t) (l.flock t).0 (l.flock t).1 w.resources kind t.resource_req uuid
      (checked-kind l w.db t rt (some kind) ws ssh h))

-- A task that the interface has accepted does not raise in the scheduler's preparation over the same
-- database, whatever resources are held: its runtime and its resource are known, its host is there and can
-- be used, and a GPU that it asks for has a name that the lock accepts. The preparation returns a prepared
-- dispatch, or that the resource is busy.
pub accepted_resolves :
    (policy : Policy) (now pid : String) (w : World) (item : TaskCreate) (t : Task) (l : Launch)
    → validate_task_create policy now w.db pid item ≡ ok t
    → is_ok (resolve_dispatch l t w).0 ≡ true
unfolding validate_task_create resolve_dispatch
accepted_resolves policy now pid w item t l h =
    let db = w.db in
    let (_, _, h1) = bind_ok (check_id item.id) _ t h in
    let (_, host, h2) = bind_ok (check_host db item.target_host) _ t h1 in
    let (rt, adapter, h3) = bind_ok (known (get_adapter item.runtime)) _ t h2 in
    let (_, remote, h4) = bind_ok (check_remote item.target_host rt) _ t h3 in
    let (_, kind, h5) = bind_ok (check_kind (get "kind" item.resource_req)) _ t h4 in
    let (_, uuid, h6) =
      bind_ok (check_uuid (get "kind" item.resource_req) (get "uuid" item.resource_req)) _ t h5 in
    let (_, _, h7) = bind_ok (check_evaluator item.evaluator item.target_host) _ t h6 in
    let (_, _, h8) = bind_ok (check_metadata policy item) _ t h7 in
    let same : queued_task now pid item ≡ t = ok-inj (queued_task now pid item) t h8 in
    subst (λ x. is_ok (acquiring l x w (checked l w.db x)).0 ≡ true) same
      (acquiring-is_ok l (queued_task now pid item) w (checked l w.db (queued_task now pid item))
        uuid refl
        (resolvable l w.db (queued_task now pid item) rt
          (known_ok (get_adapter item.runtime) rt adapter) host remote kind uuid))
