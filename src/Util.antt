-- ===== src/Util.antt =====
-- util/: the geometry that the components share.
pub mod Transform
pub mod Boxes
pub mod Layout
