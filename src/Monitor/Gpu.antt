-- ===== src/Monitor/Gpu.antt =====
-- `detect_gpu_safety` of scripts/monitor_state.py: whether a worker keeps to its GPU and its lock.
use ker_sor_monitor.Prelude.{
  ◌≡◌, refl, ◌↔◌, String, Bool, true, false, not, ◌&&◌, ◌||◌, Option, none, some, List, [], ◌∷◌,
  ◌==◌, any_of, filter_if, All, Bool-cases, inl, inr, arith, sym, eq_iff, ◌⊎◌,
}
use ker_sor_monitor.Prelude.Int.{ℤ, int_lt, int_beq, int_beq_refl, eq-of_int_beq}
use ker_sor_monitor.Prelude.Text.{codes, lower, occurs_in}
use mathlib.Core.Path.{subst}
use ker_sor_monitor.Monitor.Processes.{Process, elem}

-- A row of `parse_nvidia_smi_compute_apps`.
pub record GpuApp : Type 0 where
  pub gpu_uuid : String
  pub pid : Option ℤ
  pub process_name : String
  pub used_memory_mb : Option ℤ

-- What `normalize_lock_status` leaves of the file of the lock.
pub record LockStatus : Type 0 where
  pub exists : Bool
  pub age_seconds : Option ℤ
  pub pids : List ℤ

pub record Safety : Type 0 where
  pub assigned_gpu_uuid : String
  pub worker_gpu_processes : List GpuApp
  pub unexpected_gpu_processes : List GpuApp
  pub lock_held_by_worker : Bool
  pub lock_abnormally_old : Bool
  pub direct_gpu_tools : List Process
  pub ok : Bool

-- `app.get("pid") in descendant_pid_set`
abbrev pub is_below : List ℤ → GpuApp → Bool
is_below pids app = elim app.pid [ none ↦ false | some p ↦ elem p pids ]

-- `assigned_gpu_uuid and app.get("gpu_uuid") != assigned_gpu_uuid`, with None as the empty text
abbrev pub elsewhere : String → GpuApp → Bool
elsewhere assigned app = not (assigned == "") && not (app.gpu_uuid == assigned)

-- `bool(lock_pids & descendant_pid_set)`
abbrev pub holds_lock : List ℤ → LockStatus → Bool
holds_lock pids lock = any_of (λ p. elem p pids) lock.pids

abbrev is_older : ℤ → Option ℤ → Bool
is_older limit none = false
is_older limit (some age) = int_lt limit age

abbrev pub is_old : ℤ → LockStatus → Bool
is_old limit lock = lock.exists && is_older limit lock.age_seconds

abbrev pub is_gpu_tool : String → Bool
is_gpu_tool command =
    occurs_in (codes "sol-execbench") (lower command)
    || occurs_in (codes " ncu") (b' ' ∷ lower command)

-- The loop over the processes.
abbrev pub is_direct : List ℤ → Bool → Process → Bool
is_direct pids held p = elem p.pid pids && (is_gpu_tool p.command && not held)

abbrev pub has_none {ℓ} : {A : Type ℓ} → List A → Bool
has_none [] = true
has_none (_ ∷ _) = false

unfoldable pub detect_gpu_safety :
    String → List ℤ → List GpuApp → List Process → LockStatus → ℤ → Safety
detect_gpu_safety assigned pids apps processes lock limit =
    let below = filter_if (is_below pids) apps in
    let unexpected = filter_if (elsewhere assigned) below in
    let held = holds_lock pids lock in
    let direct = filter_if (is_direct pids held) processes in
    record {
      assigned_gpu_uuid = assigned;
      worker_gpu_processes = below;
      unexpected_gpu_processes = unexpected;
      lock_held_by_worker = held;
      lock_abnormally_old = is_old limit lock;
      direct_gpu_tools = direct;
      ok = has_none unexpected && not (is_old limit lock) && has_none direct;
    }

-- A process that the lock names is below the worker.
abbrev pub IsHeld : List ℤ → LockStatus → Type 0
IsHeld pids lock = (q : ℤ) × (elem q lock.pids ≡ true) × (elem q pids ≡ true)

-- Every process of the worker on a GPU is on the assigned one, if one is assigned; a lock that is there
-- is not older than the limit; and a GPU tool runs below the worker only while a process below the
-- worker holds the lock.
pub record IsSafe (assigned : String) (pids : List ℤ) (apps : List GpuApp)
    (processes : List Process) (lock : LockStatus) (limit : ℤ) : Type 0 where
  pub on_its_gpu :
      All
        (λ app.
          (p : ℤ)
          → app.pid ≡ some p
          → elem p pids ≡ true
          → (assigned ≡ "") ⊎ (app.gpu_uuid ≡ assigned))
        apps
  pub not_old :
      (age : ℤ) → lock.exists ≡ true → lock.age_seconds ≡ some age → int_lt limit age ≡ false
  pub locked :
      All (λ p. elem p.pid pids ≡ true → is_gpu_tool p.command ≡ true → IsHeld pids lock) processes

-- A filter leaves nothing exactly when each element has what its test denies.
nil-All {ℓ κ} :
    {A : Type ℓ} {P : A → Type κ} (p : A → Bool) (xs : List A)
    → ((x : A) → (p x ≡ false) ↔ P x)
    → (has_none (filter_if p xs) ≡ true) ↔ All P xs
nil-All p [] h = (λ _. tt, λ _. refl)
nil-All p (x ∷ xs) h = elim (Bool-cases (p x)) [
  | inl e ↦ rw e (λ n. cc, λ a. let f : p x ≡ false = (h x).1 a.0 in cc)
  | inr e ↦ rw e (λ n. ((h x).0 e, (nil-All p xs h).0 n), λ a. (nil-All p xs h).1 a.1)
]

filter_twice {ℓ} :
    {A : Type ℓ} (p q : A → Bool) (xs : List A)
    → filter_if q (filter_if p xs) ≡ filter_if (λ x. p x && q x) xs
filter_twice p q [] = refl
filter_twice p q (x ∷ xs) = ground (arith, filter_twice p q xs)

any_of-found :
    (p : ℤ → Bool) (xs : List ℤ) → any_of p xs ≡ true → (q : ℤ) × (elem q xs ≡ true) × (p q ≡ true)
any_of-found p [] h = cc
any_of-found p (x ∷ xs) h = elim (Bool-cases (p x)) [
  | inl e ↦ (x, rw (int_beq_refl x) refl, e)
  | inr e ↦ let (q, among, right) = any_of-found p xs (rw e at h) in (q, ground arith, right)
]

any_of-elem :
    (p : ℤ → Bool) (xs : List ℤ) (q : ℤ) → elem q xs ≡ true → p q ≡ true → any_of p xs ≡ true
any_of-elem p [] q h k = cc
any_of-elem p (x ∷ xs) q h k = elim (Bool-cases (int_beq x q)) [
  | inl e ↦
      let same : p x ≡ true = subst (λ y. p y ≡ true) (sym (eq-of_int_beq x q e)) k in ground arith
  | inr e ↦
      let among : elem q xs ≡ true = ground arith in ground (arith, any_of-elem p xs q among k)
]

holds_lock_iff :
    (pids : List ℤ) (lock : LockStatus) → (holds_lock pids lock ≡ true) ↔ IsHeld pids lock
holds_lock_iff pids lock = (
  any_of-found (λ p. elem p pids) lock.pids,
  λ (q, named, below). any_of-elem (λ p. elem p pids) lock.pids q named below,
)

-- A GPU process is where it should be.
at_its_gpu :
    (assigned : String) (pids : List ℤ) (app : GpuApp)
    → ((is_below pids app && elsewhere assigned app) ≡ false) ↔ (
        (p : ℤ)
        → app.pid ≡ some p
        → elem p pids ≡ true
        → (assigned ≡ "") ⊎ (app.gpu_uuid ≡ assigned))
at_its_gpu assigned pids app = (there, back app.pid refl)
  where
    there :
        (is_below pids app && elsewhere assigned app) ≡ false
        → (p : ℤ) → app.pid ≡ some p
        → elem p pids ≡ true
        → (assigned ≡ "") ⊎ (app.gpu_uuid ≡ assigned)
    there h p e b = elim (Bool-cases (assigned == "")) [
      | inl free ↦ inl ((eq_iff assigned "").0 free)
      | inr given ↦ elim (Bool-cases (app.gpu_uuid == assigned)) [
        | inl here ↦ inr ((eq_iff app.gpu_uuid assigned).0 here)
        | inr away ↦ cc (rw (e, b, given, away) at h)
      ]
    ]

    back :
        (o : Option ℤ)
        → app.pid ≡ o
        → ((p : ℤ)
            → app.pid ≡ some p
            → elem p pids ≡ true
            → (assigned ≡ "") ⊎ (app.gpu_uuid ≡ assigned))
        → (is_below pids app && elsewhere assigned app) ≡ false
    back none e k = rw e refl
    back (some p) e k = elim (Bool-cases (elem p pids)) [
      | inr far ↦ rw (e, far) refl
      | inl b ↦ elim (k p e b) [
        | inl free ↦ rw (e, b, (eq_iff assigned "").1 free) refl
        | inr here ↦ rw (e, b, (eq_iff app.gpu_uuid assigned).1 here) (ground arith)
      ]
    ]

-- A lock is not too old.
not_too_old :
    (limit : ℤ) (lock : LockStatus)
    → (is_old limit lock ≡ false)
      ↔ ((age : ℤ) → lock.exists ≡ true → lock.age_seconds ≡ some age → int_lt limit age ≡ false)
not_too_old limit lock = (λ h age there e. rw (there, e) at h, back lock.age_seconds refl)
  where
    back :
        (o : Option ℤ)
        → lock.age_seconds ≡ o
        → ((age : ℤ) → lock.exists ≡ true → lock.age_seconds ≡ some age → int_lt limit age ≡ false)
        → is_old limit lock ≡ false
    back none e k = rw e (ground arith)
    back (some age) e k = elim (Bool-cases lock.exists) [
      | inl there ↦ rw (there, e) (k age there e)
      | inr absent ↦ rw absent refl
    ]

-- A process of the worker uses a GPU only under the lock.
under_lock :
    (pids : List ℤ) (lock : LockStatus) (p : Process)
    → (is_direct pids (holds_lock pids lock) p ≡ false)
      ↔ (elem p.pid pids ≡ true → is_gpu_tool p.command ≡ true → IsHeld pids lock)
under_lock pids lock p = (
  λ h b tool. (holds_lock_iff pids lock).0 (held h b tool),
  λ k. back k (elem p.pid pids) refl (is_gpu_tool p.command) refl,
)
  where
    held :
        is_direct pids (holds_lock pids lock) p ≡ false
        → elem p.pid pids ≡ true
        → is_gpu_tool p.command ≡ true
        → holds_lock pids lock ≡ true
    held h b tool = elim (Bool-cases (holds_lock pids lock)) [
      | inl e ↦ e
      | inr e ↦ cc (rw (b, tool, e) at h)
    ]

    back :
        (elem p.pid pids ≡ true → is_gpu_tool p.command ≡ true → IsHeld pids lock)
        → (b : Bool) → elem p.pid pids ≡ b
        → (c : Bool) → is_gpu_tool p.command ≡ c
        → is_direct pids (holds_lock pids lock) p ≡ false
    back k false far c e = rw far refl
    back k true b false e = rw (b, e) refl
    back k true b true e = rw (b, e, (holds_lock_iff pids lock).1 (k b e)) refl

parts : (a b c : Bool) → ((a && not b && c) ≡ true) ↔ ((a ≡ true) × (b ≡ false) × (c ≡ true))
parts a b c = (λ h. (ground arith, ground arith, ground arith), λ h. ground arith)

-- The report of the GPU check is in order exactly when the worker keeps to its GPU and to its lock.
pub detect_gpu_safety-IsSafe :
    (assigned : String) (pids : List ℤ) (apps : List GpuApp) (processes : List Process)
    (lock : LockStatus) (limit : ℤ)
    → ((detect_gpu_safety assigned pids apps processes lock limit).ok ≡ true)
      ↔ IsSafe assigned pids apps processes lock limit
unfolding detect_gpu_safety
detect_gpu_safety-IsSafe assigned pids apps processes lock limit =
    let wrong = λ (app : GpuApp). is_below pids app && elsewhere assigned app in
    let on_gpu = nil-All wrong apps (at_its_gpu assigned pids) in
    let tools = nil-All (is_direct pids (holds_lock pids lock)) processes (under_lock pids lock) in
    let age = not_too_old limit lock in
    let unexpected = filter_if (elsewhere assigned) (filter_if (is_below pids) apps) in
    let direct = filter_if (is_direct pids (holds_lock pids lock)) processes in
    let split = parts (has_none unexpected) (is_old limit lock) (has_none direct) in
    let twice = filter_twice (is_below pids) (elsewhere assigned) apps in
    (
      λ h.
          let (a, b, c) = split.0 h in
          record {
            on_its_gpu = on_gpu.0 (subst (λ l. has_none l ≡ true) twice a);
            not_old = age.0 b;
            locked = tools.0 c;
          },
      λ s. split.1 (
        subst (λ l. has_none l ≡ true) (sym twice) (on_gpu.1 s.on_its_gpu),
        age.1 s.not_old,
        tools.1 s.locked,
      ),
    )
