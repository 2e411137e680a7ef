-- ===== src/Generic/Pane.antt =====
-- What scripts/generic_control.py reads from a tmux pane.
use ker_sor_monitor.Prelude.{
  ◌-◌, String, Bool, not, ◌&&◌, Option, none, some, List, [], ◌∷◌, ◌==◌, if◌then◌else◌, any_of,
  drop, length,
}
use ker_sor_monitor.Prelude.Int.{ℤ}
use ker_sor_monitor.Prelude.Text.{join, contains_text}
use ker_sor_monitor.Json.{Value, null, int, str, Dict}
use ker_sor_monitor.Lines.{splitlines, split}
use ker_sor_monitor.Generic.Values.{Python}
use ker_sor_monitor.Monitor.Tables.{parse_int}
use Prim.Native.Char.{code}
use ker_sor_monitor.Prelude.{nat_beq}

pub record PaneActivity : Type 0 where
  pub activity : String
  pub idle : Bool
  pub busy : Bool
  pub needs_human_signal : Bool
  pub tail : String

abbrev joined_rest : String → List String → String
joined_rest sep [] = ""
joined_rest sep (s ∷ ss) = join sep (join s (joined_rest sep ss))

-- `sep.join(…)`
abbrev pub joined : String → List String → String
joined sep [] = ""
joined sep (s ∷ ss) = join s (joined_rest sep ss)

abbrev pub mentions : List String → String → Bool
mentions markers s = any_of (λ m. contains_text m s) markers

abbrev pub busy_markers : List String
busy_markers = "esc to interrupt" ∷ "ctrl+c to interrupt" ∷ "galloping" ∷ "thinking" ∷ []

abbrev pub human_markers : List String
human_markers = "askuserquestion" ∷ "needs human" ∷ "which thing" ∷ "what do you want" ∷ []

abbrev pub idle_markers : List String
idle_markers = "❯" ∷ "check current task" ∷ []

-- `pane_lines.splitlines()[-20:]`, joined again
abbrev pub pane_tail : String → String
pane_tail lines = let all = splitlines lines in joined "\n" (drop (length all - 20) all)

unfoldable pub classify_pane_activity : Python → String → PaneActivity
classify_pane_activity py lines =
    let tail = pane_tail lines in
    let busy = mentions busy_markers (py.lower tail) in
    let needs_human = mentions human_markers (py.lower tail) in
    let idle = mentions idle_markers tail && not busy in
    record {
      activity =
          if needs_human
          then "needs_human"
          else if idle
          then "idle"
          else if busy
          then "running"
          else "unknown";
      idle = idle;
      busy = busy;
      needs_human_signal = needs_human;
      tail = tail;
    }

-- `TMUX_PANE_FIELDS`
abbrev pub tmux_pane_fields : List String
tmux_pane_fields =
    "session_name" ∷ "session_id" ∷ "window_id" ∷ "window_name" ∷ "pane_id" ∷ "pane_pid"
    ∷ "current_command" ∷ "cwd" ∷ []

abbrev opt_int : Option ℤ → Value
opt_int none = null
opt_int (some n) = int n

abbrev field_value : Python → String → String → Value
field_value py name part = if name == "pane_pid" then opt_int (parse_int py part) else str part

-- The fields with their parts; a part that is missing is empty.
abbrev pub zipped : Python → List String → List String → Dict
zipped py [] parts = []
zipped py (name ∷ names) [] = (name, field_value py name "") ∷ zipped py names []
zipped py (name ∷ names) (part ∷ parts) = (name, field_value py name part) ∷ zipped py names parts

-- `s.rstrip("\n")`
abbrev pub without_newlines : String → String
without_newlines String.[] = String.[]
without_newlines (String.◌∷◌ c s) =
    let rest = without_newlines s in
    if nat_beq (code c) 10 && (rest == "") then String.[] else String.◌∷◌ c rest

unfoldable pub parse_tmux_identity : Python → String → Dict
parse_tmux_identity py row =
    zipped py tmux_pane_fields (if row == "" then [] else split 9 (without_newlines row))
