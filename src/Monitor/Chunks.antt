-- ===== src/Monitor/Chunks.antt =====
-- `chunked_rows` of scripts/monitor_state.py: rows are written in batches.
use ker_sor_monitor.Prelude.{
  ℕ, zero, suc, ◌+◌, ◌≤◌, ◌<◌, ◌≡◌, refl, ap, ◌∙◌, false, List, [], ◌∷◌, ◌++◌, if◌then◌else◌,
  length, take, drop, map, ltb, nat_beq, min, ◌-◌, arith, Bool-cases, inl, inr, All, concat,
  drop-drop, drop_beyond, take-append-drop, length-take, length-drop, ltb→lt, sym,
}
use ker_sor_monitor.Result.{Result, ok, err, value_error}

-- `range(i, len(rows), size)`, at most so many numbers
abbrev pub starts : ℕ → ℕ → ℕ → ℕ → List ℕ
starts zero size end i = []
starts (suc n) size end i =
    let rest = starts n size end (i + size) in if ltb i end then i ∷ rest else []

abbrev pub batch {ℓ} : {A : Type ℓ} → List A → ℕ → ℕ → List A
batch rows size i = take size (drop i rows)

unfoldable pub chunked_rows {ℓ} : {A : Type ℓ} → List A → ℕ → Result (List (List A))
chunked_rows rows size =
    if nat_beq size 0
    then err value_error
    else ok (map (batch rows size) (starts (length rows) size (length rows) 0))

module _ {ℓ} {A : Type ℓ} (rows : List A) (size : ℕ) (positive : 0 < size) where
  abbrev IsBatch : List A → Type 0
  IsBatch xs = (0 < length xs) × (length xs ≤ size)

  from :
      (n i : ℕ)
      → length rows ≤ i + n
      → concat (map (batch rows size) (starts n size (length rows) i)) ≡ drop i rows
  from zero i h = sym (drop_beyond i rows (omega (arith, h)))
  from (suc n) i h = elim (Bool-cases (ltb i (length rows))) [
    | inl e ↦ rw e (
        ap (λ x. batch rows size i ++ x)
          (from n (i + size) (omega (arith, h, positive)) ∙ sym (drop-drop i size rows))
        ∙ take-append-drop size (drop i rows))
    | inr e ↦ rw e (sym (drop_beyond i rows (ground (arith, e))))
  ]

  batches : (n i : ℕ) → All IsBatch (map (batch rows size) (starts n size (length rows) i))
  batches zero i = tt
  batches (suc n) i = elim (Bool-cases (ltb i (length rows))) [
    | inl e ↦ rw e (
        let some_left : i < length rows = ltb→lt i (length rows) e in
        let long : length (batch rows size i) ≡ min size (length rows - i) =
          length-take size (drop i rows) ∙ ap (λ x. min size x) (length-drop i rows) in
        ((omega (arith, long, some_left, positive), omega (arith, long)), batches n (i + size)))
    | inr e ↦ rw e tt
  ]

-- For a positive size, the batches are the rows in their order, none of them is empty and none is longer
-- than the size.
pub chunked_rows_lem {ℓ} :
    {A : Type ℓ} (rows : List A) (size : ℕ)
    → 0 < size
    → (chunks : List (List A)) × (chunked_rows rows size ≡ ok chunks)
      × (concat chunks ≡ rows)
      × All (λ xs. (0 < length xs) × (length xs ≤ size)) chunks
unfolding chunked_rows
chunked_rows_lem rows size positive =
    let e : nat_beq size 0 ≡ false = ground (arith, positive) in
    (
      map (batch rows size) (starts (length rows) size (length rows) 0),
      rw e refl,
      from rows size positive (length rows) 0 (omega arith),
      batches rows size positive (length rows) 0,
    )
