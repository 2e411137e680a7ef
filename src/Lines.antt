-- ===== src/Lines.antt =====
-- Methods of Python's texts: `strip`, `splitlines` and `split`.
use ker_sor_monitor.Prelude.{
  ℕ, String, Bool, false, ◌&&◌, ◌||◌, List, [], ◌∷◌, ◌==◌, if◌then◌else◌, nat_beq, leb,
}
use ker_sor_monitor.Prelude.Text.{join}
use ker_sor_monitor.Runtime.Shell.{is_space}
use Prim.Native.Char.{Char, code}

abbrev pub one_char : Char → String
one_char c = String.◌∷◌ c String.[]

-- `s.lstrip()`
abbrev pub strip_front : String → String
strip_front String.[] = String.[]
strip_front (String.◌∷◌ c s) =
    let rest = strip_front s in if is_space (code c) then rest else String.◌∷◌ c s

-- `s.rstrip()`
abbrev pub strip_end : String → String
strip_end String.[] = String.[]
strip_end (String.◌∷◌ c s) =
    let rest = strip_end s in
    if is_space (code c) && (rest == "") then String.[] else String.◌∷◌ c rest

-- `s.strip()`
unfoldable pub strip : String → String
strip s = strip_end (strip_front s)

-- The characters at which `splitlines` breaks.
abbrev pub is_break : ℕ → Bool
is_break c =
    (leb 10 c && leb c 13)
    || (leb 28 c && leb c 30)
    || nat_beq c 133
    || nat_beq c 8232
    || nat_beq c 8233

abbrev last_line : String → List String
last_line line = if line == "" then [] else line ∷ []

-- The lines from here on: `line` has been read, and `after_cr` says that a carriage return ended the one before.
abbrev pub lines_from : String → Bool → String → List String
lines_from line after_cr String.[] = last_line line
lines_from line after_cr (String.◌∷◌ c s) =
    let skipped = lines_from line false s in
    let ended = lines_from "" (nat_beq (code c) 13) s in
    let longer = lines_from (join line (one_char c)) false s in
    if after_cr && nat_beq (code c) 10
    then skipped
    else if is_break (code c)
    then line ∷ ended
    else longer

-- `s.splitlines()`
unfoldable pub splitlines : String → List String
splitlines s = lines_from "" false s

-- The text up to the first white space, and the text after it.
abbrev pub word : String → String × String
word String.[] = (String.[], String.[])
word (String.◌∷◌ c s) =
    let (rest, after) = word s in
    if is_space (code c) then (String.[], String.◌∷◌ c s) else (String.◌∷◌ c rest, after)

-- `s.split(sep)`, for a separator of one character
abbrev pub split_from : ℕ → String → String → List String
split_from sep part String.[] = part ∷ []
split_from sep part (String.◌∷◌ c s) =
    let next = split_from sep "" s in
    let longer = split_from sep (join part (one_char c)) s in
    if nat_beq (code c) sep then part ∷ next else longer

unfoldable pub split : ℕ → String → List String
split sep s = split_from sep "" s
