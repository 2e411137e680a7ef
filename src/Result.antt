-- ===== src/Result.antt =====
-- Python's exceptions, by the class that the handlers of flotilla/ tell apart, and functions that
-- may raise one. The texts of the messages are not modelled.
use ker_sor_monitor.Prelude.{ℕ, refl, Bool, true, false, ◌≡◌}

pub data Error : Type 0 where
  -- `state.IllegalTransition`, on a name outside `STATES` and on a forbidden pair
  unknown_state illegal_transition : Error
  -- `sqlite3.IntegrityError`
  integrity_error : Error
  key_error value_error type_error runtime_error : Error
  -- `fastapi.HTTPException`, with its status code
  http_error : ℕ → Error
  -- any other exception of code outside the repository
  attribute_error : Error
  other_error : Error

pub data Result {ℓ} (A : Type ℓ) : Type ℓ where
  ok : A → Result A
  err : Error → Result A

infixl 5 ◌>>=◌
abbrev pub ◌>>=◌ {ℓ κ} : {A : Type ℓ} {B : Type κ} → Result A → (A → Result B) → Result B
ok a >>= f = f a
err e >>= f = err e

abbrev pub map_result {ℓ κ} : {A : Type ℓ} {B : Type κ} → (A → B) → Result A → Result B
map_result f (ok a) = ok (f a)
map_result f (err e) = err e

abbrev pub is_ok {ℓ} : {A : Type ℓ} → Result A → Bool
is_ok (ok _) = true
is_ok (err _) = false

-- `except (KeyError, ValueError)`
abbrev pub is_key_or_value_error : Error → Bool
is_key_or_value_error key_error = true
is_key_or_value_error value_error = true
is_key_or_value_error _ = false

-- A chain that returns, link by link.
pub bind_ok {ℓ κ} :
    {A : Type ℓ} {B : Type κ} (m : Result A) (f : A → Result B) (b : B)
    → (m >>= f) ≡ ok b
    → (a : A) × (m ≡ ok a) × (f a ≡ ok b)
bind_ok (ok a) f b h = (a, refl, h)
bind_ok (err e) f b h = cc

pub ok-inj {ℓ} : {A : Type ℓ} (a b : A) → ok a ≡ ok b → a ≡ b
ok-inj a b h = cc
