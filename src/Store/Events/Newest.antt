-- ===== src/Store/Events/Newest.antt =====
-- The order of the events of a task in flotilla/store.py, the newest first, and DELETEs that keep it.
use ker_sor_monitor.Prelude.{
  ◌≡◌, refl, sym, ap, ◌∙◌, Bool, true, false, not, ◌&&◌, List, [], ◌∷◌, ◌++◌, arith, ltb, filter_if,
  All, All-append, All-filter_if, ◌⊎◌, inl, inr, Bool-cases,
}
use ker_sor_monitor.Prelude.Rows.{delete}
use ker_sor_monitor.Prelude.Sort.{order_by, All-order_by, insert, Sorted, Sorted-append}
use ker_sor_monitor.Store.Db.{StoredEvent}
use ker_sor_monitor.Store.Events.{newer}
use ker_sor_monitor.Store.Integrity.{event_lt}
use mathlib.Core.List.{append-nil}

module _ {ℓ} {A : Type ℓ} where
  pub filter_if-append :
      (p : A → Bool) (xs ys : List A) → filter_if p (xs ++ ys) ≡ filter_if p xs ++ filter_if p ys
  filter_if-append p [] ys = refl
  filter_if-append p (x ∷ xs) ys = ground (arith, filter_if-append p xs ys)

  pub filter_if-delete :
      (p q : A → Bool) (xs : List A)
      → filter_if p (delete (λ x. p x && q x) xs) ≡ filter_if (λ x. not (q x)) (filter_if p xs)
  unfolding delete
  filter_if-delete p q [] = refl
  filter_if-delete p q (x ∷ xs) = ground (arith, filter_if-delete p q xs)

  -- What is not `p` is not touched by a DELETE of rows that are.
  pub others-delete :
      (p q : A → Bool) (xs : List A)
      → filter_if (λ x. not (p x)) (delete (λ x. p x && q x) xs) ≡ filter_if (λ x. not (p x)) xs
  unfolding delete
  others-delete p q [] = refl
  others-delete p q (x ∷ xs) = ground (arith, others-delete p q xs)

  pub filter_if-none :
      (p : A → Bool) (xs : List A) → All (λ x. p x ≡ false) xs → filter_if p xs ≡ []
  filter_if-none p [] a = refl
  filter_if-none p (x ∷ xs) a = ground (arith, a.0, filter_if-none p xs a.1)

-- The newest first is the reverse of the order of insertion.
insert_last :
    (x : StoredEvent) (ys : List StoredEvent)
    → All (λ y. event_lt x y ≡ true) ys
    → insert newer x ys ≡ ys ++ x ∷ []
unfolding insert
insert_last x [] a = refl
insert_last x (y ∷ ys) a = ground (arith, a.0, insert_last x ys a.1)

abbrev pub event_gt : StoredEvent → StoredEvent → Bool
event_gt a b = ltb b.id a.id

All-snoc {ℓ κ} :
    {A : Type ℓ} (P : A → Type κ) (xs : List A) (x : A) → All P xs → P x → All P (xs ++ x ∷ [])
All-snoc P xs x a p = All-append P xs (x ∷ []) a (p, tt)

order_by-All :
    (P : StoredEvent → Type 0) (xs : List StoredEvent) → All P xs → All P (order_by newer xs)
order_by-All P xs a = All-order_by newer P xs a

pub order_by-cons :
    (x : StoredEvent) (xs : List StoredEvent)
    → All (λ y. event_lt x y ≡ true) xs
    → order_by newer (x ∷ xs) ≡ order_by newer xs ++ x ∷ []
unfolding order_by
order_by-cons x xs a =
    insert_last x (order_by newer xs) (order_by-All (λ y. event_lt x y ≡ true) xs a)

pub descending : (xs : List StoredEvent) → Sorted event_lt xs → Sorted event_gt (order_by newer xs)
unfolding Sorted order_by
descending [] s = tt
descending (x ∷ xs) s =
    rw (insert_last x (order_by newer xs) (order_by-All (λ y. event_lt x y ≡ true) xs s.0)) (
      Sorted-append event_gt (order_by newer xs) x (descending xs s.1)
        (order_by-All (λ y. event_gt y x ≡ true) xs s.0))

-- A new event, later than all, comes first.
pub order_by-snoc :
    (xs : List StoredEvent) (y : StoredEvent)
    → Sorted event_lt (xs ++ y ∷ [])
    → order_by newer (xs ++ y ∷ []) ≡ y ∷ order_by newer xs
unfolding Sorted order_by
order_by-snoc [] y s = refl
order_by-snoc (x ∷ xs) y s =
    order_by-cons x (xs ++ y ∷ []) s.0
    ∙ ap (λ l. l ++ x ∷ []) (order_by-snoc xs y s.1)
    ∙ ap (λ l. y ∷ l) (sym (order_by-cons x xs (All-front x xs y s.0)))
  where
    All-front :
        (x : StoredEvent) (xs : List StoredEvent) (y : StoredEvent)
        → All (λ z. event_lt x z ≡ true) (xs ++ y ∷ [])
        → All (λ z. event_lt x z ≡ true) xs
    All-front x [] y a = tt
    All-front x (z ∷ zs) y a = (a.0, All-front x zs y a.1)

pub filter-newest :
    (p : StoredEvent → Bool) (xs : List StoredEvent)
    → Sorted event_lt xs
    → order_by newer (filter_if p xs) ≡ filter_if p (order_by newer xs)
unfolding Sorted
filter-newest p [] s = unfold order_by in refl
filter-newest p (x ∷ xs) s =
    split (filter-newest p xs s.1) (Bool-cases (p x))
    ∙ sym (filter_if-append p (order_by newer xs) (x ∷ []))
    ∙ ap (filter_if p) (sym (order_by-cons x xs s.0))
  where
    kept : All (λ y. event_lt x y ≡ true) (filter_if p xs)
    kept = All-filter_if (λ y. event_lt x y ≡ true) p xs s.0

    split :
        order_by newer (filter_if p xs) ≡ filter_if p (order_by newer xs)
        → (p x ≡ true) ⊎ (p x ≡ false)
        → order_by newer (filter_if p (x ∷ xs))
          ≡ filter_if p (order_by newer xs) ++ filter_if p (x ∷ [])
    split ih (inl e) = rw e (order_by-cons x (filter_if p xs) kept ∙ ap (λ l. l ++ x ∷ []) ih)
    split ih (inr e) = rw e (ih ∙ sym (append-nil (filter_if p (order_by newer xs))))

pub Sorted-front :
    (xs : List StoredEvent) (y : StoredEvent) → Sorted event_lt (xs ++ y ∷ []) → Sorted event_lt xs
unfolding Sorted
Sorted-front [] y s = tt
Sorted-front (x ∷ xs) y s = (All-front xs s.0, Sorted-front xs y s.1)
  where
    All-front :
        (zs : List StoredEvent)
        → All (λ z. event_lt x z ≡ true) (zs ++ y ∷ [])
        → All (λ z. event_lt x z ≡ true) zs
    All-front [] a = tt
    All-front (z ∷ zs) a = (a.0, All-front zs a.1)
