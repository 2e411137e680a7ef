-- ===== src/Prelude/Sort.antt =====
-- `ORDER BY`: a stable sort by a total preorder on the rows.
use Prim.Native.Nat.{ℕ, zero, suc}
use mathlib.Core.Path.{◌≡◌, refl, ◌∙◌}
use mathlib.Core.Logic.{◌⊎◌, inl, inr}
use mathlib.Core.Option.{some}
use mathlib.Core.Bool.{Bool, true, false, ◌||◌}
use mathlib.Core.List.{List, [], ◌∷◌, ◌++◌}
use native.Mathlib.Omega.{arith}
use text.Mathlib.Text.{◌==◌}
use text.Mathlib.TextEquality.{eq_iff}
use Prim.Native.String.{String}
use ker_sor_monitor.Prelude.Tests.{if◌then◌else◌, Bool-cases}
use ker_sor_monitor.Prelude.Lists.{
  length, count_if, filter_if, All, All-map, All-drop, All-append, All-filter_if, take, drop,
}
use ker_sor_monitor.Prelude.Rows.{has, find, delete, Unique, All-delete}

module _ {ℓ} {A : Type ℓ} (le : A → A → Bool) where
  unfoldable pub insert : A → List A → List A
  insert x [] = x ∷ []
  insert x (y ∷ ys) = let rest = insert x ys in if le x y then x ∷ y ∷ ys else y ∷ rest

  unfoldable pub order_by : List A → List A
  unfolding insert
  order_by [] = []
  order_by (x ∷ xs) = insert x (order_by xs)

  unfoldable pub Sorted : List A → Type 0
  Sorted [] = Unit
  Sorted (x ∷ xs) = All (λ y. le x y ≡ true) xs × Sorted xs

module _ {ℓ} {A : Type ℓ} (le : A → A → Bool) where
  All-insert {κ} : (P : A → Type κ) (x : A) (xs : List A) → P x → All P xs → All P (insert le x xs)
  unfolding insert
  All-insert P x [] h hs = (h, hs)
  All-insert P x (y ∷ ys) h hs = elim (Bool-cases (le x y)) [
    | inl e ↦ rw e (h, hs)
    | inr e ↦ rw e (hs.0, All-insert P x ys h hs.1)
  ]

  pub All-order_by {κ} : (P : A → Type κ) (xs : List A) → All P xs → All P (order_by le xs)
  unfolding order_by
  All-order_by P [] h = h
  All-order_by P (x ∷ xs) h = All-insert P x (order_by le xs) h.0 (All-order_by P xs h.1)

  count_if-insert :
      (p : A → Bool) (x : A) (xs : List A) → count_if p (insert le x xs) ≡ count_if p (x ∷ xs)
  unfolding insert
  count_if-insert p x [] = refl
  count_if-insert p x (y ∷ ys) = ground (arith, count_if-insert p x ys)

  -- Sorting keeps the rows: every test is passed as often.
  pub count_if-order_by : (p : A → Bool) (xs : List A) → count_if p (order_by le xs) ≡ count_if p xs
  unfolding order_by
  count_if-order_by p [] = refl
  count_if-order_by p (x ∷ xs) =
      ground (arith, count_if-insert p x (order_by le xs), count_if-order_by p xs)

  length-insert : (x : A) (xs : List A) → length (insert le x xs) ≡ suc (length xs)
  unfolding insert
  length-insert x [] = refl
  length-insert x (y ∷ ys) = ground (arith, length-insert x ys)

  pub length-order_by : (xs : List A) → length (order_by le xs) ≡ length xs
  unfolding order_by
  length-order_by [] = refl
  length-order_by (x ∷ xs) = ground (arith, length-insert x (order_by le xs), length-order_by xs)

  -- A sorted list stays as it is.
  pub order_by-of_Sorted : (xs : List A) → Sorted le xs → order_by le xs ≡ xs
  unfolding order_by insert Sorted
  order_by-of_Sorted [] h = refl
  order_by-of_Sorted (x ∷ []) h = refl
  order_by-of_Sorted (x ∷ y ∷ ys) h = rw (order_by-of_Sorted (y ∷ ys) h.1) (ground (arith, h.0.0))

  module _ (key : A → String) where
    has-insert :
        (k : String) (x : A) (xs : List A)
        → has key k (insert le x xs) ≡ (key x == k || has key k xs)
    unfolding has insert
    has-insert k x [] = refl
    has-insert k x (y ∷ ys) = ground (arith, has-insert k x ys)

    pub has-order_by : (k : String) (xs : List A) → has key k (order_by le xs) ≡ has key k xs
    unfolding has order_by
    has-order_by k [] = refl
    has-order_by k (x ∷ xs) = ground (arith, has-insert k x (order_by le xs), has-order_by k xs)

    find-insert :
        (k : String) (x : A) (xs : List A)
        → has key (key x) xs ≡ false
        → find key k (insert le x xs) ≡ (if key x == k then some x else find key k xs)
    unfolding has find insert
    find-insert k x [] h = refl
    find-insert k x (y ∷ ys) h =
        ground
          (arith, find-insert k x ys, eq_iff (key x) k, eq_iff (key y) k, eq_iff (key y) (key x))

    Unique-insert :
        (x : A) (xs : List A)
        → has key (key x) xs ≡ false
        → Unique key xs
        → Unique key (insert le x xs)
    unfolding Unique has insert
    Unique-insert x [] h u = (refl, tt)
    Unique-insert x (y ∷ ys) h u = elim (Bool-cases (le x y)) [
      | inl e ↦ rw e (h, u)
      | inr e ↦ rw e (
        ground (
          arith,
          has-insert (key y) x ys,
          u.0,
          h,
          eq_iff (key x) (key y),
          eq_iff (key y) (key x),
        ),
        Unique-insert x ys (ground (arith, h)) u.1,
      )
    ]

    pub Unique-order_by : (xs : List A) → Unique key xs → Unique key (order_by le xs)
    unfolding Unique order_by
    Unique-order_by [] u = tt
    Unique-order_by (x ∷ xs) u =
        Unique-insert x (order_by le xs) (has-order_by (key x) xs ∙ u.0) (Unique-order_by xs u.1)

    -- A key finds the same row after sorting.
    pub find-order_by :
        (k : String) (xs : List A) → Unique key xs → find key k (order_by le xs) ≡ find key k xs
    unfolding Unique find order_by
    find-order_by k [] u = refl
    find-order_by k (x ∷ xs) u = ground (
      arith,
      find-insert k x (order_by le xs) (has-order_by (key x) xs ∙ u.0),
      find-order_by k xs u.1,
    )

  module _ (total : (x y : A) → (le x y ≡ true) ⊎ (le y x ≡ true))
      (trans : (x y z : A) → le x y ≡ true → le y z ≡ true → le x z ≡ true) where
    Sorted-insert : (x : A) (xs : List A) → Sorted le xs → Sorted le (insert le x xs)
    unfolding Sorted insert
    Sorted-insert x [] h = (tt, tt)
    Sorted-insert x (y ∷ ys) h = elim (Bool-cases (le x y)) [
      | inl e ↦ rw e ((e, All-map (λ z. trans x y z e) ys h.0), h)
      | inr e ↦ rw e (
        All-insert (λ z. le y z ≡ true) x ys (ground (arith, total x y)) h.0,
        Sorted-insert x ys h.1,
      )
    ]

    pub Sorted-order_by : (xs : List A) → Sorted le (order_by le xs)
    unfolding Sorted order_by
    Sorted-order_by [] = tt
    Sorted-order_by (x ∷ xs) = Sorted-insert x (order_by le xs) (Sorted-order_by xs)

  -- What `LIMIT n` keeps comes before what it cuts.
  pub take-le-drop :
      (n : ℕ) (xs : List A)
      → Sorted le xs
      → All (λ x. All (λ y. le x y ≡ true) (drop n xs)) (take n xs)
  unfolding Sorted
  take-le-drop zero xs h = tt
  take-le-drop (suc n) [] h = tt
  take-le-drop (suc n) (x ∷ xs) h = (All-drop (λ y. le x y ≡ true) n xs h.0, take-le-drop n xs h.1)

module _ {ℓ} {A : Type ℓ} (le : A → A → Bool) where
  pub Sorted-append :
      (xs : List A) (y : A) → Sorted le xs → All (λ x. le x y ≡ true) xs → Sorted le (xs ++ y ∷ [])
  unfolding Sorted
  Sorted-append [] y s a = (tt, tt)
  Sorted-append (x ∷ xs) y s a =
      (All-append (λ z. le x z ≡ true) xs (y ∷ []) s.0 (a.0, tt), Sorted-append xs y s.1 a.1)

  pub Sorted-delete : (p : A → Bool) (xs : List A) → Sorted le xs → Sorted le (delete p xs)
  unfolding Sorted delete
  Sorted-delete p [] s = tt
  Sorted-delete p (x ∷ xs) s = elim (Bool-cases (p x)) [
    | inl e ↦ rw e (Sorted-delete p xs s.1)
    | inr e ↦ rw e (All-delete (λ y. le x y ≡ true) p (λ y _ h. h) xs s.0, Sorted-delete p xs s.1)
  ]

  pub Sorted-filter_if : (p : A → Bool) (xs : List A) → Sorted le xs → Sorted le (filter_if p xs)
  unfolding Sorted
  Sorted-filter_if p [] s = tt
  Sorted-filter_if p (x ∷ xs) s = elim (Bool-cases (p x)) [
    | inl e ↦ rw e (All-filter_if (λ y. le x y ≡ true) p xs s.0, Sorted-filter_if p xs s.1)
    | inr e ↦ rw e (Sorted-filter_if p xs s.1)
  ]
