-- ===== src/Prelude/Text.antt =====
-- Texts by code point: their order, in SQLite and in Python, and the slices and searches of Python.
use Prim.Native.Char.{code}
use Prim.Native.Nat.{ℕ, zero, suc, ◌+◌, ◌-◌, compare, Ordering}
use Prim.Native.String.{String}
use mathlib.Core.Path.{◌≡◌, refl, ap}
use mathlib.Core.Logic.{◌⊎◌, inl, inr}
use mathlib.Core.Bool.{Bool, true, false, ◌&&◌, ◌||◌}
use mathlib.Core.List.{List, [], ◌∷◌, ◌++◌, map}
use ker_sor_monitor.Prelude.Lists.{take, length}
use ker_sor_monitor.Prelude.Tests.{leb, nat_beq, if◌then◌else◌}
use native.Mathlib.Omega.{arith}

-- The code points of a text. `String` has its own `[]` and `∷`.
abbrev pub codes : String → List ℕ
codes String.[] = []
codes (String.◌∷◌ c s) = code c ∷ codes s

-- `s + t`
unfoldable pub join : String → String → String
join String.[] t = t
join (String.◌∷◌ c s) t = String.◌∷◌ c (join s t)

pub codes-join : (s t : String) → codes (join s t) ≡ codes s ++ codes t
unfolding join
codes-join String.[] t = refl
codes-join (String.◌∷◌ c s) t = ap (λ cs. code c ∷ cs) (codes-join s t)

-- `s[:n]`
unfoldable pub cut : ℕ → String → String
cut zero s = String.[]
cut (suc n) String.[] = String.[]
cut (suc n) (String.◌∷◌ c s) = String.◌∷◌ c (cut n s)

pub codes-cut : (n : ℕ) (s : String) → codes (cut n s) ≡ take n (codes s)
unfolding cut
codes-cut zero s = refl
codes-cut (suc n) String.[] = refl
codes-cut (suc n) (String.◌∷◌ c s) = ap (λ cs. code c ∷ cs) (codes-cut n s)

-- `p` is a prefix of `s`.
abbrev pub is_prefix : List ℕ → List ℕ → Bool
is_prefix [] s = true
is_prefix (c ∷ p) [] = false
is_prefix (c ∷ p) (d ∷ s) = nat_beq c d && is_prefix p s

abbrev pub occurs_in : List ℕ → List ℕ → Bool
occurs_in p [] = is_prefix p []
occurs_in p (c ∷ s) = is_prefix p (c ∷ s) || occurs_in p s

-- `p in s`
unfoldable pub contains_text : String → String → Bool
contains_text p s = occurs_in (codes p) (codes s)

-- `s[n:]`
unfoldable pub cut_front : ℕ → String → String
cut_front zero s = s
cut_front (suc n) String.[] = String.[]
cut_front (suc n) (String.◌∷◌ c s) = cut_front n s

abbrev lower_code : ℕ → ℕ
lower_code c = if leb b'A' c && leb c b'Z' then c + 32 else c

-- The same code points.
abbrev pub same_codes : List ℕ → List ℕ → Bool
same_codes [] [] = true
same_codes (x ∷ xs) (y ∷ ys) = nat_beq x y && same_codes xs ys
same_codes _ _ = false

-- `s[-n:]`, for a positive n
unfoldable pub last : ℕ → String → String
last n s = cut_front (length (codes s) - n) s

-- The code points of `s.lower()`, for ASCII letters.
abbrev pub lower : String → List ℕ
lower s = map lower_code (codes s)

-- `xs` does not come after `ys`.
abbrev pub lex_le : List ℕ → List ℕ → Bool
lex_le [] ys = true
lex_le (x ∷ xs) [] = false
lex_le (x ∷ xs) (y ∷ ys) =
    let rest = lex_le xs ys in
    elim (compare x y) [ Ordering.lt ↦ true | Ordering.eq ↦ rest | Ordering.gt ↦ false ]

pub lex_le_refl : (xs : List ℕ) → lex_le xs xs ≡ true
lex_le_refl [] = refl
lex_le_refl (x ∷ xs) = ground (arith, lex_le_refl xs)

pub lex_le_total : (xs ys : List ℕ) → (lex_le xs ys ≡ true) ⊎ (lex_le ys xs ≡ true)
lex_le_total [] ys = inl refl
lex_le_total (x ∷ xs) [] = inr refl
lex_le_total (x ∷ xs) (y ∷ ys) = ground (arith, lex_le_total xs ys)

pub lex_le_trans :
    (xs ys zs : List ℕ) → lex_le xs ys ≡ true → lex_le ys zs ≡ true → lex_le xs zs ≡ true
lex_le_trans [] ys zs p q = refl
lex_le_trans (x ∷ xs) [] zs p q = cc
lex_le_trans (x ∷ xs) (y ∷ ys) [] p q = cc
lex_le_trans (x ∷ xs) (y ∷ ys) (z ∷ zs) p q = ground (arith, lex_le_trans xs ys zs)

unfoldable pub text_le : String → String → Bool
text_le a b = lex_le (codes a) (codes b)

pub text_le_refl : (a : String) → text_le a a ≡ true
unfolding text_le
text_le_refl a = lex_le_refl (codes a)

pub text_le_total : (a b : String) → (text_le a b ≡ true) ⊎ (text_le b a ≡ true)
unfolding text_le
text_le_total a b = lex_le_total (codes a) (codes b)

pub text_le_trans : (a b c : String) → text_le a b ≡ true → text_le b c ≡ true → text_le a c ≡ true
unfolding text_le
text_le_trans a b c = lex_le_trans (codes a) (codes b) (codes c)
