-- ===== src/Resource/Exclusion.antt =====
-- Who may take the GPU locks of flotilla/resource/gpu.py, over sequences of calls.
use ker_sor_monitor.Prelude.{
  ℕ, String, ◌≡◌, refl, Bool, true, false, ◌||◌, none, some, List, [], ◌∷◌, arith, ◌==◌, eq_iff,
  eq_refl, is_some,
}
use ker_sor_monitor.Prelude.Rows.{has, has-append, has-delete_key}
use ker_sor_monitor.Resource.{Held, Resources, gpu_take, gpu_release_id, hold}

-- What threads do with GPU locks, one call after the other under `self._lock`.
pub data Action : Type 0 where
  take_lock : String → String → Bool → ℕ → Action
  give_back : String → Action

unfoldable pub act : Action → Resources → Resources
unfolding gpu_take gpu_release_id
act (take_lock uuid wid free fd) r = (gpu_take uuid wid free fd r).1
act (give_back uuid) r = gpu_release_id uuid r

unfoldable pub run : List Action → Resources → Resources
run [] r = r
run (a ∷ rest) r = run rest (act a r)

unfoldable pub releases : String → List Action → Bool
releases uuid [] = false
releases uuid (take_lock _ _ _ _ ∷ rest) = releases uuid rest
releases uuid (give_back other ∷ rest) = other == uuid || releases uuid rest

held-act :
    (uuid : String) (a : Action) (rest : List Action) (r : Resources)
    → has Held.uuid uuid r.held ≡ true
    → releases uuid (a ∷ rest) ≡ false
    → has Held.uuid uuid (act a r).held ≡ true
unfolding act releases
held-act uuid (take_lock other wid free fd) rest r h q =
    ground (arith, h, has-append Held.uuid uuid r.held (record { uuid = other; fd = fd } ∷ []))
held-act uuid (give_back other) rest r h q =
    ground (arith, h, q, has-delete_key Held.uuid other uuid r.held, eq_iff other uuid)

releases-tail :
    (uuid : String) (a : Action) (rest : List Action)
    → releases uuid (a ∷ rest) ≡ false
    → releases uuid rest ≡ false
unfolding releases
releases-tail uuid (take_lock _ _ _ _) rest q = q
releases-tail uuid (give_back other) rest q = ground (arith, q)

held-run :
    (uuid : String) (acts : List Action) (r : Resources)
    → has Held.uuid uuid r.held ≡ true
    → releases uuid acts ≡ false
    → has Held.uuid uuid (run acts r).held ≡ true
unfolding run
held-run uuid [] r h q = h
held-run uuid (a ∷ rest) r h q =
    held-run uuid rest (act a r) (held-act uuid a rest r h q) (releases-tail uuid a rest q)

granted-held :
    (uuid wid : String) (free : Bool) (fd : ℕ) (r : Resources)
    → is_some (gpu_take uuid wid free fd r).0 ≡ true
    → (has Held.uuid uuid r.held ≡ false)
      × (has Held.uuid uuid (gpu_take uuid wid free fd r).1.held ≡ true)
unfolding gpu_take has
granted-held uuid wid free fd r g =
    ground
      (arith, has-append Held.uuid uuid r.held (record { uuid = uuid; fd = fd } ∷ []), eq_refl uuid)

refused :
    (uuid wid : String) (free : Bool) (fd : ℕ) (r : Resources)
    → has Held.uuid uuid r.held ≡ true
    → gpu_take uuid wid free fd r ≡ (none, r)
unfolding gpu_take
refused uuid wid free fd r h = rw h refl

-- Mutual exclusion: a GPU that has been granted is granted to nobody, and every request for it
-- leaves the locks as they are, until somebody releases it, whatever is done to other GPUs.
pub granted_once :
    (uuid wid wid' : String) (free free' : Bool) (fd fd' : ℕ) (acts : List Action) (r : Resources)
    → is_some (gpu_take uuid wid free fd r).0 ≡ true
    → releases uuid acts ≡ false
    → let later = run acts (gpu_take uuid wid free fd r).1 in
      gpu_take uuid wid' free' fd' later ≡ (none, later)
granted_once uuid wid wid' free free' fd fd' acts r g q =
    refused uuid wid' free' fd' (run acts (gpu_take uuid wid free fd r).1)
      (held-run uuid acts (gpu_take uuid wid free fd r).1 (granted-held uuid wid free fd r g).1 q)

-- A released GPU can be taken again, if no other process holds its lock file.
pub release_then_take :
    (uuid wid : String) (fd : ℕ) (r : Resources)
    → gpu_take uuid wid true fd (gpu_release_id uuid r) ≡ (
      some (record { resource_id = uuid; worker_id = wid; handle = fd }),
      hold uuid fd (gpu_release_id uuid r),
    )
unfolding gpu_take gpu_release_id
release_then_take uuid wid fd r = rw (has-delete_key Held.uuid uuid uuid r.held, eq_refl uuid) refl
