-- ===== src/Wayland/DataControl.antt =====
-- bridge/wayland/data_control/mod.rs: the clipboard work of the Wayland thread. What a pipe answers to
-- a read or a write is an argument, one result per system call, with the clock read after it.
pub mod Sends
pub mod Receives
pub mod Device
pub mod Loop
