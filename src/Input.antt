-- ===== src/Input.antt =====
-- bridge/input.rs and bridge/keymap.rs: what clients type and point at, as virtual-input requests.
pub mod Keymap
pub mod Devices
