-- ===== src/Evaluator/Pytest.antt =====
-- flotilla/evaluator/pytest_eval.py: what a run of pytest says. The process is an argument: whether it
-- was killed at the time limit, its exit code, and the end of its output.
use ker_sor_monitor.Prelude.{
  ◌⊎◌, ℕ, ◌+◌, ◌-◌, ◌*◌, ◌≤◌, ◌≡◌, refl, String, Bool, true, false, not, ◌&&◌, ◌||◌, Option, none,
  some, List, [], ◌==◌, ◌∷◌, if◌then◌else◌, nat_beq, leb, arith, or_else, Bool-cases, inl, inr,
}
use ker_sor_monitor.Prelude.Int.{ℤ, pos}
use ker_sor_monitor.Prelude.Text.{codes, join, contains_text, is_prefix}
use ker_sor_monitor.Json.{Float, finite}
use ker_sor_monitor.Lines.{splitlines}
use ker_sor_monitor.Evaluator.{EvalResult}

-- What the process leaves, and the interpreter's division of integers and printing of the time limit.
pub record Run : Type 0 where
  pub timed_out : Bool
  pub returncode : ℤ
  pub output : String
  pub divide : ℕ → ℕ → Float
  -- `f"{SETTINGS.evaluator_timeout:g}"`
  pub limit : String

-- The last line with one of the words.
abbrev pub summary_line : List String → String
summary_line [] = ""
summary_line (line ∷ lines) =
    let rest = summary_line lines in
    if rest == "" && (contains_text "passed" line || contains_text "failed" line)
    then line
    else rest

-- `counts`: of two numbers for a word the later one counts.
pub record Counts : Type 0 where
  pub passed : Option ℕ
  pub failed : Option ℕ

abbrev is_digit : ℕ → Bool
is_digit c = leb b'0' c && leb c b'9'

abbrev digit : ℕ → Option ℕ → ℕ
digit c n = or_else n 0 * 10 + (c - b'0')

-- A blank after the number `n`, and what follows.
abbrev at_word : Option ℕ → List ℕ → Counts → Counts
at_word none rest counts = counts
at_word (some n) rest counts =
    if is_prefix (codes "passed") rest
    then record counts { passed = some n }
    else if is_prefix (codes "failed") rest
    then record counts { failed = some n }
    else counts

-- `re.findall(r"(\d+) (passed|failed)", line)`, for ASCII digits; `n` is the number that has just been read.
abbrev pub count_from : Option ℕ → Counts → List ℕ → Counts
count_from n counts [] = counts
count_from n counts (c ∷ cs) =
    let digits = count_from (some (digit c n)) counts cs in
    let word = count_from none (at_word n cs counts) cs in
    let other = count_from none counts cs in
    if is_digit c then digits else if nat_beq c b' ' then word else other

unfoldable pub counts_in : String → Counts
counts_in line = count_from none (record { passed = none; failed = none }) (codes line)

abbrev pub passed_in : Counts → ℕ
passed_in c = or_else c.passed 0

-- `sum(counts.values()) or 1`
abbrev pub total_of : Counts → ℕ
total_of c = let sum = passed_in c + or_else c.failed 0 in if nat_beq sum 0 then 1 else sum

abbrev pub is_zero : ℤ → Bool
is_zero (pos n) = nat_beq n 0
is_zero _ = false

-- `evaluate`, after the run
unfoldable pub evaluate : Run → EvalResult
unfolding counts_in
evaluate run =
    if run.timed_out
    then record {
      evaluator = "pytest";
      passed = false;
      score = finite (pos 0) (pos 0);
      detail = join "timed out after " (join run.limit "s");
      artifacts = [];
    }
    else record {
      evaluator = "pytest";
      passed = is_zero run.returncode;
      score =
          run.divide (passed_in (counts_in (summary_line (splitlines run.output))))
            (total_of (counts_in (summary_line (splitlines run.output))));
      detail = summary_line (splitlines run.output);
      artifacts = [];
    }

total_bounds : (c : Counts) → (passed_in c ≤ total_of c) × (1 ≤ total_of c)
total_bounds c = by (passed_in c) (or_else c.failed 0)
  where
    by :
        (p f : ℕ)
        → (p ≤ (if nat_beq (p + f) 0 then 1 else p + f))
          × (1 ≤ (if nat_beq (p + f) 0 then 1 else p + f))
    by p f = ground arith

-- A run that was killed does not pass, and another passes exactly when it exits with 0. The score of a run
-- that was not killed is the quotient of two numbers of which the second is positive and not the smaller.
pub evaluate_lem :
    (run : Run)
    → ((evaluate run).passed ≡ (not run.timed_out && is_zero run.returncode))
      × ((run.timed_out ≡ true)
          ⊎ ((p : ℕ) × (n : ℕ) × ((evaluate run).score ≡ run.divide p n) × (p ≤ n) × (1 ≤ n)))
unfolding evaluate
evaluate_lem run = elim (Bool-cases run.timed_out) [
  | inl e ↦ rw e (refl, inl refl)
  | inr e ↦
      let c = counts_in (summary_line (splitlines run.output)) in
      let (below, positive) = total_bounds c in
      rw e (refl, inr (passed_in c, total_of c, refl, below, positive))
]
