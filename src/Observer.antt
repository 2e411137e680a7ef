-- ===== src/Observer.antt =====
-- flotilla/observer.py: what a worker's report says about its task.
pub mod Terminal
pub mod Tail
pub mod Session
pub mod Record
pub mod Patrol
pub mod Case
use ker_sor_monitor.Prelude.{
  ℕ, zero, suc, String, Bool, true, false, ◌&&◌, ◌||◌, Option, none, some, List, [], ◌∷◌, ◌==◌,
  if◌then◌else◌, nat_beq, any_of,
}
use ker_sor_monitor.Prelude.Text.{contains_text}
use ker_sor_monitor.State.{State, done, stuck, failed}

abbrev pub one_of : String → List String → Bool
one_of s names = any_of (λ n. s == n) names

abbrev pub success_status : List String
success_status = "promoted" ∷ "complete" ∷ "archived" ∷ []

abbrev pub stuck_status : List String
stuck_status = "stuck" ∷ "stalled" ∷ []

abbrev pub failed_status : List String
failed_status = "abandoned" ∷ "failed" ∷ "crashed" ∷ []

abbrev pub is_in : Option String → List String → Bool
is_in none names = false
is_in (some s) names = one_of s names

abbrev pub has_end_marker : String → Bool
has_end_marker tail =
    contains_text "clear to save" tail
    || contains_text "100% context used" tail
    || contains_text "Final session result" tail

-- `_map_terminal`; an empty tail holds no marker.
unfoldable pub map_terminal : Option String → Bool → String → Option State
map_terminal status exited tail =
    if is_in status success_status
    then some done
    else if is_in status stuck_status
    then some stuck
    else if is_in status failed_status
    then some failed
    else if exited
    then some failed
    else if has_end_marker tail
    then some done
    else none
