-- ===== src/State.antt =====
-- flotilla/state.py: the lifecycle of a task.
pub mod Graph
use ker_sor_monitor.Prelude.{
  String, Bool, true, false, Option, none, some, List, [], ◌∷◌, if◌then◌else◌, ℕ, nat_beq,
}
use ker_sor_monitor.Prelude.Rows.{find}
use ker_sor_monitor.Result.{Result, ok, err, unknown_state, illegal_transition, map_result}

pub data State : Type 0 where
  planned queued dispatching running paused done failed stuck cancelled lost : State

-- The text of a state, as the `state` column and the source hold it.
unfoldable pub name : State → String
name planned = "PLANNED"
name queued = "QUEUED"
name dispatching = "DISPATCHING"
name running = "RUNNING"
name paused = "PAUSED"
name done = "DONE"
name failed = "FAILED"
name stuck = "STUCK"
name cancelled = "CANCELLED"
name lost = "LOST"

abbrev pub states : List State
states =
    planned ∷ queued ∷ dispatching ∷ running ∷ paused ∷ done ∷ failed ∷ stuck ∷ cancelled ∷ lost
    ∷ []

-- Membership in `STATES`.
unfoldable pub parse : String → Option State
parse s = find name s states

abbrev pub tag : State → ℕ
tag planned = 0
tag queued = 1
tag dispatching = 2
tag running = 3
tag paused = 4
tag done = 5
tag failed = 6
tag stuck = 7
tag cancelled = 8
tag lost = 9

-- Equality of two states.
abbrev pub is : State → State → Bool
is a b = nat_beq (tag a) (tag b)

-- Membership in `_ALLOWED`.
unfoldable pub allowed : State → State → Bool
allowed planned queued = true
allowed planned cancelled = true
allowed queued dispatching = true
allowed queued running = true
allowed queued cancelled = true
allowed dispatching running = true
allowed dispatching queued = true
allowed dispatching failed = true
allowed dispatching cancelled = true
allowed dispatching lost = true
allowed running done = true
allowed running failed = true
allowed running stuck = true
allowed running paused = true
allowed running cancelled = true
allowed running lost = true
allowed paused running = true
allowed paused done = true
allowed paused failed = true
allowed paused cancelled = true
allowed paused lost = true
allowed stuck running = true
allowed stuck done = true
allowed stuck failed = true
allowed stuck cancelled = true
allowed stuck lost = true
allowed lost queued = true
allowed lost failed = true
allowed lost cancelled = true
allowed _ _ = false

-- `transition` on two known states: every caller but the boundary has such.
unfoldable pub move : State → State → Result State
unfolding allowed
move current target =
    if is current target
    then ok current
    else if allowed current target
    then ok target
    else err illegal_transition

-- `transition` on the parsed names.
abbrev between : Option State → Option State → Result State
between (some a) (some b) = move a b
between (some a) none = err unknown_state
between none _ = err unknown_state

unfoldable pub transition : String → String → Result String
unfolding name
transition current target = map_result name (between (parse current) (parse target))

-- The states that `retire` and `actuate` treat as over.
abbrev pub is_terminal : State → Bool
is_terminal done = true
is_terminal failed = true
is_terminal cancelled = true
is_terminal lost = true
is_terminal _ = false

-- `{"RUNNING", "PAUSED", "STUCK"}`
abbrev pub is_live : State → Bool
is_live running = true
is_live paused = true
is_live stuck = true
is_live _ = false
