-- ===== src/Monitor/Processes.antt =====
-- `descendant_pids` of scripts/monitor_state.py: the processes below the one of a tmux pane.
pub mod Descent
use ker_sor_monitor.Prelude.{
  ℕ, zero, suc, ◌+◌, ◌≡◌, String, Bool, true, Option, none, some, List, [], ◌∷◌, ◌++◌,
  if◌then◌else◌, any_of, filter_if, map, length,
}
use ker_sor_monitor.Prelude.Int.{ℤ, int_beq}

-- A row of `parse_process_table`.
pub record Process : Type 0 where
  pub pid : ℤ
  pub ppid : ℤ
  pub command : String

-- `pid in seen`
abbrev pub elem : ℤ → List ℤ → Bool
elem p seen = any_of (λ q. int_beq q p) seen

-- `children.get(pid, [])`
abbrev pub children : List Process → ℤ → List ℤ
children processes p = map Process.pid (filter_if (λ q. int_beq q.ppid p) processes)

-- `stack.extend(…)`: the last one is popped first.
abbrev pub extend : List ℤ → List ℤ → List ℤ
extend [] stack = stack
extend (p ∷ ps) stack = extend ps (p ∷ stack)

-- The body of the loop after `pid = stack.pop()`: the stack and the set.
abbrev pub visit : List Process → ℤ → List ℤ × List ℤ → List ℤ × List ℤ
visit processes p (stack, seen) =
    if elem p seen then (stack, seen) else (extend (children processes p) stack, p ∷ seen)

-- The loop, for a number of rounds.
unfoldable pub descend : List Process → ℕ → List ℤ × List ℤ → Option (List ℤ)
descend processes n ([], seen) = some seen
descend processes zero (p ∷ stack, seen) = none
descend processes (suc n) (p ∷ stack, seen) = descend processes n (visit processes p (stack, seen))

unfoldable pub descendant_pids : Option ℤ → List Process → Option (List ℤ)
unfolding descend
descendant_pids none processes = some []
descendant_pids (some root) processes = descend processes (length processes + 1) (root ∷ [], [])

-- A process below another one, or that one.
pub data Descends (processes : List Process) (root : ℤ) : ℤ → Type 0 where
  itself : Descends processes root root
  child :
      {p q : ℤ}
      → elem q (children processes p) ≡ true
      → Descends processes root p
      → Descends processes root q
