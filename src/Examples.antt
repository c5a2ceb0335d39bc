-- ===== src/Examples.antt =====
-- Concrete inputs at which the theorems are applied.
mod Event
mod Clip
mod Jobs
mod Fetching
mod Screens
mod Dynres
mod Geometry
mod Damages
mod Typing
mod Tables
mod Configs
mod Sinks
mod Pipes
mod Loops
mod Pixels
