-- ===== src/Generic.antt =====
-- scripts/generic_control.py: workers in tmux panes that are watched, judged and nudged.
pub mod Values
pub mod Policy
pub mod Verdict
pub mod Actuation
pub mod Safe
pub mod Pane
pub mod Observation
pub mod Guarded
pub mod Remote
