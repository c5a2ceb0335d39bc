-- ===== src/X11.antt =====
-- bridge/x11: the tables of one connection and the screen.
pub mod Selection
pub mod Randr
pub mod Targets
pub mod Atom
pub mod Property
