-- ===== src/Sinks/Queue.antt =====
-- What a slow dashboard still receives from flotilla/sinks/web.py.
use ker_sor_monitor.Prelude.{
  ℕ, zero, suc, ◌+◌, ◌-◌, ◌≤◌, ◌<◌, ◌≡◌, refl, sym, ap, ◌∙◌, List, [], ◌∷◌, ◌++◌, arith, length,
  drop, leb, min, Bool-cases, inl, inr,
}
use ker_sor_monitor.Json.{Dict}
use ker_sor_monitor.Sinks.Web.{Queue, offer, but_first}
use mathlib.Core.List.{append-nil, append_assoc}

-- Payloads that are offered one after the other.
unfoldable pub offers : List Dict → Queue → Queue
unfolding offer
offers [] q = q
offers (p ∷ ps) q = offers ps (offer p q)

length-snoc : (xs : List Dict) (x : Dict) → length (xs ++ x ∷ []) ≡ length xs + 1
length-snoc [] x = refl
length-snoc (y ∷ xs) x = omega (arith, length-snoc xs x)

-- The last items, as many as there is room for.
abbrev pub newest : ℕ → List Dict → List Dict
newest n xs = drop (length xs - n) xs

length-drop : (n : ℕ) (xs : List Dict) → length (drop n xs) ≡ length xs - n
length-drop zero xs = omega arith
length-drop (suc n) [] = omega arith
length-drop (suc n) (x ∷ xs) = omega (arith, length-drop n xs)

drop-snoc :
    (n : ℕ) (xs : List Dict) (x : Dict)
    → n ≤ length xs
    → drop n (xs ++ x ∷ []) ≡ drop n xs ++ x ∷ []
drop-snoc zero xs x h = refl
drop-snoc (suc n) [] x h = absurd (omega (arith, h))
drop-snoc (suc n) (y ∷ xs) x h = drop-snoc n xs x (omega (arith, h))

but_first-drop : (n : ℕ) (xs : List Dict) → but_first (drop n xs) ≡ drop (suc n) xs
but_first-drop zero [] = refl
but_first-drop zero (x ∷ xs) = refl
but_first-drop (suc n) [] = refl
but_first-drop (suc n) (x ∷ xs) = but_first-drop n xs

length-but_first : (xs : List Dict) → length (but_first xs) ≡ length xs - 1
length-but_first [] = omega arith
length-but_first (x ∷ xs) = omega arith

drop-nil : (n : ℕ) → drop {A = Dict} n [] ≡ []
drop-nil zero = refl
drop-nil (suc n) = refl

abbrev queue : ℕ → ℕ → List Dict → Queue
queue i n items = record { id = i; maxsize = n; items = items }

newest-length : (n : ℕ) (seen : List Dict) → length (newest n seen) ≡ min n (length seen)
newest-length n seen = omega (arith, length-drop (length seen - n) seen)

-- While there is room, a payload joins the others.
offer_room :
    (i n : ℕ) (items : List Dict) (p : Dict)
    → length items < n
    → offer p (queue i n items) ≡ queue i n (items ++ p ∷ [])
unfolding offer
offer_room i n items p h = ground (arith, h)

offer_full :
    (i n : ℕ) (items : List Dict) (p : Dict)
    → 0 < n
    → length items ≡ n
    → offer p (queue i n items) ≡ queue i n (but_first items ++ p ∷ [])
unfolding offer
offer_full i n items p pos h = ground (arith, pos, h, length-but_first items)

newest-snoc_room :
    (n : ℕ) (seen : List Dict) (p : Dict)
    → length seen < n
    → newest n seen ++ p ∷ [] ≡ newest n (seen ++ p ∷ [])
newest-snoc_room n seen p h =
    sym (drop-snoc (length seen - n) seen p (omega (arith, h)))
    ∙ ap (λ k. drop k (seen ++ p ∷ [])) (omega (arith, h, length-snoc seen p))

newest-snoc_full :
    (n : ℕ) (seen : List Dict) (p : Dict)
    → 0 < n
    → n ≤ length seen
    → but_first (newest n seen) ++ p ∷ [] ≡ newest n (seen ++ p ∷ [])
newest-snoc_full n seen p pos h =
    let next : suc (length seen - n) ≡ length (seen ++ p ∷ []) - n =
      omega (arith, h, length-snoc seen p) in
    ap (λ xs. xs ++ p ∷ []) (but_first-drop (length seen - n) seen)
    ∙ sym (drop-snoc (suc (length seen - n)) seen p (omega (arith, pos, h)))
    ∙ ap (λ k. drop k (seen ++ p ∷ [])) next

offer_lem :
    (i n : ℕ) (seen : List Dict) (p : Dict)
    → 0 < n
    → offer p (queue i n (newest n seen)) ≡ queue i n (newest n (seen ++ p ∷ []))
offer_lem i n seen p pos = elim (Bool-cases (leb n (length seen))) [
  | inl e ↦
      let full : n ≤ length seen = ground (arith, e) in
      offer_full i n (newest n seen) p pos (omega (arith, full, newest-length n seen))
      ∙ ap (queue i n) (newest-snoc_full n seen p pos full)
  | inr e ↦
      let room : length seen < n = ground (arith, e) in
      offer_room i n (newest n seen) p (omega (arith, room, newest-length n seen))
      ∙ ap (queue i n) (newest-snoc_room n seen p room)
]

offers_lem :
    (i n : ℕ) (ps seen : List Dict)
    → 0 < n
    → offers ps (queue i n (newest n seen)) ≡ queue i n (newest n (seen ++ ps))
unfolding offers
offers_lem i n [] seen pos = ap (λ xs. queue i n (newest n xs)) (sym (append-nil seen))
offers_lem i n (p ∷ ps) seen pos =
    ap (offers ps) (offer_lem i n seen p pos)
    ∙ offers_lem i n ps (seen ++ p ∷ []) pos
    ∙ ap (λ xs. queue i n (newest n xs)) (append_assoc seen (p ∷ []) ps)

-- A dashboard's queue of any positive size holds, after any sequence of updates that nobody has
-- read, the newest of them in their order, as many as there is room for.
pub offers_keep_newest :
    (i n : ℕ) (ps : List Dict)
    → 0 < n
    → offers ps (record { id = i; maxsize = n; items = [] })
      ≡ record { id = i; maxsize = n; items = newest n ps }
offers_keep_newest i n ps pos =
    ap (λ xs. offers ps (queue i n xs)) (sym (drop-nil (0 - n))) ∙ offers_lem i n ps [] pos
