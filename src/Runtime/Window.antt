-- ===== src/Runtime/Window.antt =====
-- Names that flotilla/runtime/tmux_claude.py gives to windows. The digest is that of hashlib.
use ker_sor_monitor.Prelude.{◌≤◌, String, arith, length}
use ker_sor_monitor.Prelude.Text.{codes, cut, join, codes-cut, codes-join}
use ker_sor_monitor.Prelude.Lists.{length-append, length-take}

-- `_window_name`, where `sha256 id` is the hexadecimal digest: 40 less the 10 characters of
-- "flotilla__" and the 8 of the digest are left for the id.
unfoldable pub window_name : (String → String) → String → String
window_name sha256 id = join "flotilla_" (join (cut 22 id) (join "_" (cut 8 (sha256 id))))

-- The name that older versions gave.
unfoldable pub legacy_window_name : String → String
legacy_window_name id = cut 40 (join "flotilla_" id)

-- Both names have at most 40 characters.
pub window_name-length :
    (sha256 : String → String) (id : String)
    → (length (codes (window_name sha256 id)) ≤ 40) × (length (codes (legacy_window_name id)) ≤ 40)
unfolding window_name legacy_window_name
window_name-length sha256 id = (
  simp (codes-join, codes-cut, length-append, length-take) (omega arith),
  simp (codes-cut, length-take) (omega arith),
)
