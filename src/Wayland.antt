-- ===== src/Wayland.antt =====
-- bridge/wayland/: the client side of the compositor.
pub mod OutputConfig
pub mod DataControl
