-- ===== src/Clip.antt =====
-- The clipboard: the job queue to the Wayland thread, and the state that both sides share.
pub mod Types
pub mod Jobs
pub mod State
pub mod Transitions
