-- ===== src/Prelude/Rows.antt =====
-- Rows of a table, in the order of insertion, and the SQL statements on them. A row is named by a
-- text key.
use Prim.Native.Nat.{ℕ, zero, suc}
use Prim.Native.String.{String}
use mathlib.Core.Path.{◌≡◌, refl, subst}
use mathlib.Core.Logic.{inl, inr}
use mathlib.Core.Bool.{Bool, true, false, ◌&&◌, ◌||◌}
use mathlib.Core.List.{List, [], ◌∷◌, ◌++◌}
use mathlib.Core.Option.{Option, none, some}
use native.Mathlib.Omega.{arith}
use text.Mathlib.Text.{◌==◌}
use text.Mathlib.TextEquality.{eq_iff}
use ker_sor_monitor.Prelude.Tests.{if◌then◌else◌, Bool-cases, is_some}
use ker_sor_monitor.Prelude.Lists.{count_if, filter_if, any_of, take, All}

module _ {ℓ} {A : Type ℓ} where
  -- `UPDATE … SET f WHERE p`. Its row count is `count_if p`.
  unfoldable pub update : (A → Bool) → (A → A) → List A → List A
  update p f [] = []
  update p f (x ∷ xs) = (if p x then f x else x) ∷ update p f xs

  -- `DELETE … WHERE p`.
  unfoldable pub delete : (A → Bool) → List A → List A
  delete p [] = []
  delete p (x ∷ xs) = let rest = delete p xs in if p x then rest else x ∷ rest

module _ {ℓ} {A : Type ℓ} (key : A → String) where
  -- `SELECT * … WHERE key=?`, `fetchone`.
  unfoldable pub find : String → List A → Option A
  find k [] = none
  find k (x ∷ xs) = if key x == k then some x else find k xs

  unfoldable pub has : String → List A → Bool
  has k [] = false
  has k (x ∷ xs) = key x == k || has k xs

  -- The key is a primary key.
  unfoldable pub Unique : List A → Type 0
  Unique [] = Unit
  Unique (x ∷ xs) = (has (key x) xs ≡ false) × Unique xs

-- What a row becomes under `UPDATE … SET f WHERE p`.
abbrev pub changed {ℓ} : {A : Type ℓ} → (A → Bool) → (A → A) → A → A
changed p f x = if p x then f x else x

abbrev pub map_option {ℓ κ} : {A : Type ℓ} {B : Type κ} → (A → B) → Option A → Option B
map_option f none = none
map_option f (some x) = some (f x)

-- The rows that `fetchone` returned.
abbrev pub one {ℓ} : {A : Type ℓ} → Option A → List A
one none = []
one (some x) = x ∷ []

module _ {ℓ} {A : Type ℓ} (key : A → String) where
  pub find-key : (k : String) (xs : List A) (x : A) → find key k xs ≡ some x → key x ≡ k
  unfolding find
  find-key k [] x h = cc
  find-key k (y ∷ ys) x h = ground (arith, eq_iff (key y) k, find-key k ys x)

  pub has-find : (k : String) (xs : List A) → has key k xs ≡ is_some (find key k xs)
  unfolding has find
  has-find k [] = refl
  has-find k (y ∷ ys) = ground (arith, has-find k ys)

  pub has-append :
      (k : String) (xs ys : List A) → has key k (xs ++ ys) ≡ (has key k xs || has key k ys)
  unfolding has
  has-append k [] ys = refl
  has-append k (x ∷ xs) ys = ground (arith, has-append k xs ys)

  pub Unique-append :
      (xs : List A) (x : A) → Unique key xs → has key (key x) xs ≡ false → Unique key (xs ++ x ∷ [])
  unfolding Unique has
  Unique-append [] x u h = (refl, tt)
  Unique-append (y ∷ ys) x u h = (
    ground (arith, has-append (key y) ys (x ∷ []), eq_iff (key y) (key x), eq_iff (key x) (key y)),
    Unique-append ys x u.1 (ground arith),
  )

  pub find-append :
      (k : String) (xs ys : List A)
      → find key k (xs ++ ys) ≡ (if has key k xs then find key k xs else find key k ys)
  unfolding has find
  find-append k [] ys = refl
  find-append k (x ∷ xs) ys = ground (arith, find-append k xs ys)

  pub has-delete :
      (p : A → Bool) (k : String) (xs : List A)
      → has key k xs ≡ false
      → has key k (delete p xs) ≡ false
  unfolding has delete
  has-delete p k [] h = refl
  has-delete p k (x ∷ xs) h = ground (arith, has-delete p k xs)

  pub Unique-delete : (p : A → Bool) (xs : List A) → Unique key xs → Unique key (delete p xs)
  unfolding Unique delete
  Unique-delete p [] u = tt
  Unique-delete p (x ∷ xs) u = elim (Bool-cases (p x)) [
    | inl e ↦ rw e (Unique-delete p xs u.1)
    | inr e ↦ rw e (has-delete p (key x) xs u.0, Unique-delete p xs u.1)
  ]

  -- Deleting the row of a key leaves the others.
  pub find-delete :
      (k j : String) (xs : List A)
      → find key j (delete (λ x. key x == k) xs) ≡ (if k == j then none else find key j xs)
  unfolding find delete
  find-delete k j [] = ground arith
  find-delete k j (x ∷ xs) =
      ground (arith, find-delete k j xs, eq_iff (key x) k, eq_iff (key x) j, eq_iff k j)

  pub count_if-absent :
      (k : String) (p : A → Bool) (xs : List A)
      → has key k xs ≡ false
      → count_if (λ x. key x == k && p x) xs ≡ 0
  unfolding has
  count_if-absent k p [] h = refl
  count_if-absent k p (x ∷ xs) h = ground (arith, count_if-absent k p xs)

  -- At most the row of the key is counted.
  pub count_if-key :
      (k : String) (p : A → Bool) (xs : List A)
      → Unique key xs
      → count_if (λ x. key x == k && p x) xs ≡ (if any_of p (one (find key k xs)) then 1 else 0)
  unfolding find Unique
  count_if-key k p [] u = refl
  count_if-key k p (x ∷ xs) u = elim (Bool-cases (key x == k)) [
    | inl e ↦ rw e (ground (arith, count_if-absent k p xs, u.0, (eq_iff (key x) k).0 e))
    | inr e ↦ rw e (ground (arith, count_if-key k p xs u.1))
  ]

  module _ (p : A → Bool) (f : A → A) (keep : (x : A) → key (f x) ≡ key x) where
    pub has-update : (k : String) (xs : List A) → has key k (update p f xs) ≡ has key k xs
    unfolding has update
    has-update k [] = refl
    has-update k (x ∷ xs) = ground (arith, keep x, has-update k xs)

    pub Unique-update : (xs : List A) → Unique key xs → Unique key (update p f xs)
    unfolding Unique update
    Unique-update [] u = tt
    Unique-update (x ∷ xs) u =
        (ground (arith, keep x, has-update (key x) xs, u.0), Unique-update xs u.1)

    pub find-update :
        (k : String) (xs : List A)
        → find key k (update p f xs) ≡ map_option (changed p f) (find key k xs)
    unfolding find update
    find-update k [] = refl
    find-update k (x ∷ xs) = ground (arith, keep x, find-update k xs)

module _ {ℓ} {A : Type ℓ} (key : A → String) where
  pub find-filter_if :
      (p : A → Bool) (k : String) (xs : List A) (x : A)
      → find key k xs ≡ some x
      → p x ≡ true
      → find key k (filter_if p xs) ≡ some x
  unfolding find
  find-filter_if p k [] x h q = cc
  find-filter_if p k (y ∷ ys) x h q = ground (arith, find-filter_if p k ys x)

  has-filter_if :
      (p : A → Bool) (k : String) (xs : List A)
      → has key k xs ≡ false
      → has key k (filter_if p xs) ≡ false
  unfolding has
  has-filter_if p k [] h = refl
  has-filter_if p k (x ∷ xs) h = ground (arith, has-filter_if p k xs)

  pub Unique-filter_if : (p : A → Bool) (xs : List A) → Unique key xs → Unique key (filter_if p xs)
  unfolding Unique
  Unique-filter_if p [] u = tt
  Unique-filter_if p (x ∷ xs) u = elim (Bool-cases (p x)) [
    | inl e ↦ rw e (has-filter_if p (key x) xs u.0, Unique-filter_if p xs u.1)
    | inr e ↦ rw e (Unique-filter_if p xs u.1)
  ]

  has-take :
      (n : ℕ) (k : String) (xs : List A) → has key k xs ≡ false → has key k (take n xs) ≡ false
  unfolding has
  has-take zero k xs h = refl
  has-take (suc n) k [] h = refl
  has-take (suc n) k (x ∷ xs) h = ground (arith, has-take n k xs)

  pub Unique-take : (n : ℕ) (xs : List A) → Unique key xs → Unique key (take n xs)
  unfolding Unique
  Unique-take zero xs u = tt
  Unique-take (suc n) [] u = tt
  Unique-take (suc n) (x ∷ xs) u = (has-take n (key x) xs u.0, Unique-take n xs u.1)

  pub All-find {κ} :
      (P : A → Type κ) (k : String) (xs : List A) (x : A) → All P xs → find key k xs ≡ some x → P x
  unfolding find
  All-find P k [] x a h = cc
  All-find P k (y ∷ ys) x a h = elim (Bool-cases (key y == k)) [
    | inl e ↦ let same : y ≡ x = ground (arith, rw e at h) in subst P same a.0
    | inr e ↦ All-find P k ys x a.1 (rw e at h)
  ]

  All-find_cons :
      (y : A) (ys xs : List A)
      → has key (key y) xs ≡ false
      → All (λ x. find key (key x) ys ≡ some x) xs
      → All (λ x. find key (key x) (y ∷ ys) ≡ some x) xs
  unfolding find has
  All-find_cons y ys [] h a = tt
  All-find_cons y ys (x ∷ xs) h a = (
    ground (arith, a.0, h, eq_iff (key y) (key x), eq_iff (key x) (key y)),
    All-find_cons y ys xs (ground (arith, h)) a.1,
  )

  -- Every row is the one that its key finds.
  pub find_self : (xs : List A) → Unique key xs → All (λ x. find key (key x) xs ≡ some x) xs
  unfolding Unique find
  find_self [] u = tt
  find_self (x ∷ xs) u =
      (rw ((eq_iff (key x) (key x)).1 refl) refl, All-find_cons x xs xs u.0 (find_self xs u.1))

module _ {ℓ κ} {A : Type ℓ} (P : A → Type κ) where
  pub All-update :
      (p : A → Bool) (f : A → A) (keep : (x : A) → P x → P (f x)) (xs : List A)
      → All P xs
      → All P (update p f xs)
  unfolding update
  All-update p f keep [] a = tt
  All-update p f keep (x ∷ xs) a = elim (Bool-cases (p x)) [
    | inl e ↦ rw e (keep x a.0, All-update p f keep xs a.1)
    | inr e ↦ rw e (a.0, All-update p f keep xs a.1)
  ]

  -- What stays after a DELETE has not passed its test.
  pub All-delete :
      {Q : A → Type κ} (p : A → Bool) (keep : (x : A) → p x ≡ false → P x → Q x) (xs : List A)
      → All P xs
      → All Q (delete p xs)
  unfolding delete
  All-delete p keep [] a = tt
  All-delete p keep (x ∷ xs) a = elim (Bool-cases (p x)) [
    | inl e ↦ rw e (All-delete p keep xs a.1)
    | inr e ↦ rw e (keep x e a.0, All-delete p keep xs a.1)
  ]

module _ {ℓ} {A : Type ℓ} (key : A → String) where
  pub has-delete_key :
      (k j : String) (xs : List A)
      → has key j (delete (λ x. key x == k) xs) ≡ (if k == j then false else has key j xs)
  unfolding has delete
  has-delete_key k j [] = ground arith
  has-delete_key k j (x ∷ xs) =
      ground (arith, has-delete_key k j xs, eq_iff (key x) k, eq_iff (key x) j, eq_iff k j)
