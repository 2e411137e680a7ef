-- ===== src/System/Evolves.antt =====
-- One database becomes another by calls of flotilla/store.py, and by what others commit.
use ker_sor_monitor.Prelude.{◌≡◌, refl, sym}
use mathlib.Core.Path.{subst}
use ker_sor_monitor.Store.Db.{Db}
use ker_sor_monitor.Store.Commands.{Command, execute}
use ker_sor_monitor.Store.Lifecycle.Commands.{Keeps}

-- The specification of every operation but the removal of a task: whole transactions of the store that
-- delete no task, in any number and order.
pub data Evolves (others : Db → Db) : Db → Db → Type 0 where
  stays : {a b : Db} → a ≡ b → Evolves others a b
  commits : {a b : Db} (c : Command) → Keeps c → Evolves others (execute c a) b → Evolves others a b
  others_commit : {a b : Db} → Evolves others (others a) b → Evolves others a b

module _ (others : Db → Db) where
  pub Evolves-trans : (a b c : Db) → Evolves others a b → Evolves others b c → Evolves others a c
  Evolves-trans a b c (stays e) h = subst (λ x. Evolves others x c) (sym e) h
  Evolves-trans a b c (commits k kept g) h = commits k kept (Evolves-trans _ b c g h)
  Evolves-trans a b c (others_commit g) h = others_commit (Evolves-trans _ b c g h)

  pub Evolves-refl : (a : Db) → Evolves others a a
  Evolves-refl a = stays refl

  pub Evolves-command : (c : Command) → Keeps c → (a : Db) → Evolves others a (execute c a)
  Evolves-command c kept a = commits c kept (stays refl)

  pub Evolves-others : (a : Db) → Evolves others a (others a)
  Evolves-others a = others_commit (stays refl)
