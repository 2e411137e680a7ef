-- ===== src/SafeId.antt =====
-- The identifiers that flotilla/ lets into command strings and paths: `[A-Za-z0-9._-]{1,128}`, in
-- `_check_id` of routes.py and in `GpuResource.acquire`.
use ker_sor_monitor.Prelude.{
  ℕ, String, ◌≡◌, ◌≢◌, Bool, true, ◌&&◌, ◌||◌, List, [], ◌∷◌, arith, leb, nat_beq, length, All, ◌≤◌,
}
use ker_sor_monitor.Prelude.Text.{codes}

-- `[A-Za-z0-9._-]`
abbrev pub is_safe_char : ℕ → Bool
is_safe_char c =
    (leb b'A' c && leb c b'Z')
    || (leb b'a' c && leb c b'z')
    || (leb b'0' c && leb c b'9')
    || nat_beq c b'.'
    || nat_beq c b'_'
    || nat_beq c b'-'

abbrev pub all_safe : List ℕ → Bool
all_safe [] = true
all_safe (c ∷ cs) = is_safe_char c && all_safe cs

unfoldable pub is_safe_id : String → Bool
is_safe_id s = let n = length (codes s) in leb 1 n && leb n 128 && all_safe (codes s)

-- A printable character that is no separator of paths, commands, words or targets, no quote, no
-- bracket, and no sign of expansion, redirection, comment, assignment or history.
abbrev pub IsInert : ℕ → Type 0
IsInert c =
    (33 ≤ c)
    × (c ≤ 126)
    × (c ≢ b'!')
    × (c ≢ b'"')
    × (c ≢ b'#')
    × (c ≢ b'$')
    × (c ≢ b'%')
    × (c ≢ b'&')
    × (c ≢ b'\'')
    × (c ≢ b'(')
    × (c ≢ b')')
    × (c ≢ b'*')
    × (c ≢ b'+')
    × (c ≢ b',')
    × (c ≢ b'/')
    × (c ≢ b':')
    × (c ≢ b';')
    × (c ≢ b'<')
    × (c ≢ b'=')
    × (c ≢ b'>')
    × (c ≢ b'?')
    × (c ≢ b'@')
    × (c ≢ b'[')
    × (c ≢ b'\\')
    × (c ≢ b']')
    × (c ≢ b'^')
    × (c ≢ b'`')
    × (c ≢ b'{')
    × (c ≢ b'|')
    × (c ≢ b'}')
    × (c ≢ b'~')

pub safe-IsInert : (c : ℕ) → is_safe_char c ≡ true → IsInert c
safe-IsInert c h = ground arith

all_safe-IsInert : (cs : List ℕ) → all_safe cs ≡ true → All IsInert cs
all_safe-IsInert [] h = tt
all_safe-IsInert (c ∷ cs) h = (safe-IsInert c (ground arith), all_safe-IsInert cs (ground arith))

-- An accepted identifier is not empty, is at most 128 characters long, and every character of it is
-- printable and none of the ASCII signs with a meaning to a shell or of the separator of paths. The
-- identifiers "." and ".." are accepted.
pub is_safe_id-IsInert :
    (s : String)
    → is_safe_id s ≡ true
    → (1 ≤ length (codes s)) × (length (codes s) ≤ 128) × All IsInert (codes s)
unfolding is_safe_id
is_safe_id-IsInert s h = (ground arith, ground arith, all_safe-IsInert (codes s) (ground arith))
