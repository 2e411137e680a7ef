-- ===== src/State/Graph.antt =====
-- What the transition table of flotilla/state.py allows: on names, and over whole histories.
use ker_sor_monitor.Prelude.{
  ◌≡◌, refl, sym, Bool, true, false, some, arith, List, [], ◌∷◌, String, ◌↔◌, ◌≢◌, ◌⊎◌, inl, inr,
  if◌then◌else◌, Option-cases, Bool-cases,
}
use ker_sor_monitor.Prelude.Rows.{find, find-key}
use ker_sor_monitor.Result.{Error, Result, ok, err, map_result}
use ker_sor_monitor.State.{
  State, states, planned, queued, dispatching, running, paused, done, failed, stuck, cancelled,
  lost, name, parse, allowed, move, transition, is_terminal, is_live,
}

parse-name : (s : State) → parse (name s) ≡ some s
unfolding parse name find
parse-name planned = refl
parse-name queued = refl
parse-name dispatching = refl
parse-name running = refl
parse-name paused = refl
parse-name done = refl
parse-name failed = refl
parse-name stuck = refl
parse-name cancelled = refl
parse-name lost = refl

name-parse : (t : String) (s : State) → parse t ≡ some s → t ≡ name s
unfolding parse
name-parse t s h = sym (find-key name t states s h)

-- A text is read as a state exactly if it is the name of that state.
pub parse_iff : (t : String) (s : State) → (parse t ≡ some s) ↔ (t ≡ name s)
parse_iff t s = (name-parse t s, λ e. rw e (parse-name s))

move-ok : (a b s : State) → move a b ≡ ok s → (s ≡ b) × ((a ≡ b) ⊎ (allowed a b ≡ true))
unfolding move
move-ok a b s h = ground arith

named :
    (a b : State) (c t r : String)
    → c ≡ name a
    → t ≡ name b
    → map_result name (move a b) ≡ ok r
    → (r ≡ t)
      × ((x : State) × (y : State) × (c ≡ name x) × (t ≡ name y) × ((x ≡ y) ⊎ (allowed x y ≡ true)))
named a b c t r ec et h = elim (moved (move a b) refl) [
  | inl (s, e) ↦
      let (es, way) = move-ok a b s e in (ground (arith, ec, et, es, h, e), (a, b, ec, et, way))
  | inr (x, e) ↦ cc (rw e at h)
]
  where
    moved :
        (m : Result State)
        → move a b ≡ m
        → ((s : State) × (move a b ≡ ok s)) ⊎ ((x : Error) × (move a b ≡ err x))
    moved (ok s) e = inl (s, e)
    moved (err x) e = inr (x, e)

-- `transition` returns only its target, only on two known names, and only when these are equal or
-- a pair of the table.
pub transition_sound :
    (c t r : String)
    → transition c t ≡ ok r
    → (r ≡ t)
      × ((a : State) × (b : State) × (c ≡ name a) × (t ≡ name b) × ((a ≡ b) ⊎ (allowed a b ≡ true)))
unfolding transition
transition_sound c t r h = elim (Option-cases (parse c)) [
  | inl e ↦ cc (rw e at h)
  | inr (a, ea) ↦ elim (Option-cases (parse t)) [
    | inl e ↦ cc (rw (ea, e) at h)
    | inr (b, eb) ↦ named a b c t r (name-parse c a ea) (name-parse t b eb) (rw (ea, eb) at h)
  ]
]

-- A task that is asked to move to each of the states in turn; a refused request changes nothing.
abbrev settle : State → Result State → State
settle s (ok t) = t
settle s (err _) = s

unfoldable pub run : State → List State → State
run s [] = s
run s (t ∷ ts) = run (settle s (move s t)) ts

absorbed : (s t : State) → is_terminal s ≡ true → s ≢ lost → settle s (move s t) ≡ s
unfolding move allowed
absorbed done t h n = ground arith
absorbed failed t h n = ground arith
absorbed cancelled t h n = ground arith
absorbed lost t h n = absurd (n refl)
absorbed _ t h n = cc

-- DONE, FAILED and CANCELLED are never left, whatever is requested.
pub terminal_absorbs :
    (s : State) (ts : List State) → is_terminal s ≡ true → s ≢ lost → run s ts ≡ s
unfolding run
terminal_absorbs s [] h n = refl
terminal_absorbs s (t ∷ ts) h n = rw (absorbed s t h n) (terminal_absorbs s ts h n)

-- The states that a history passes through after its start.
pub visits_live : State → List State → Bool
visits_live s [] = false
visits_live s (t ∷ ts) =
    let later = visits_live (settle s (move s t)) ts in
    if is_live (settle s (move s t)) then true else later

before_live :
    (s t : State)
    → is_live s ≡ false
    → s ≢ done
    → is_live (settle s (move s t)) ≡ false
    → settle s (move s t) ≢ done
unfolding move allowed
before_live planned t h n e = ground arith
before_live queued t h n e = ground arith
before_live done t h n e = absurd (n refl)
before_live _ t h n e = ground arith

-- No task becomes DONE without having been RUNNING, PAUSED or STUCK.
pub done_needs_live :
    (s : State) (ts : List State)
    → is_live s ≡ false
    → s ≢ done
    → run s ts ≡ done
    → visits_live s ts ≡ true
unfolding run visits_live
done_needs_live s [] h n d = absurd (n d)
done_needs_live s (t ∷ ts) h n d = elim (Bool-cases (is_live (settle s (move s t)))) [
  | inl e ↦ rw e
  | inr e ↦ rw e (done_needs_live (settle s (move s t)) ts e (before_live s t h n e) d)
]

-- Every state but FAILED and CANCELLED has a way to DONE.
pub reaches_done : (s : State) → s ≢ failed → s ≢ cancelled → (ts : List State) × (run s ts ≡ done)
unfolding run move allowed
reaches_done planned f c = (queued ∷ dispatching ∷ running ∷ done ∷ [], refl)
reaches_done queued f c = (dispatching ∷ running ∷ done ∷ [], refl)
reaches_done dispatching f c = (running ∷ done ∷ [], refl)
reaches_done running f c = (done ∷ [], refl)
reaches_done paused f c = (done ∷ [], refl)
reaches_done done f c = ([], refl)
reaches_done failed f c = absurd (f refl)
reaches_done stuck f c = (done ∷ [], refl)
reaches_done cancelled f c = absurd (c refl)
reaches_done lost f c = (queued ∷ dispatching ∷ running ∷ done ∷ [], refl)
