-- ===== src/Tests.antt =====
-- Runs at fixed inputs, most of them those of tests/unit/src/main.c, and the theorems at concrete inputs.
mod Data
mod Wire
mod Frames
mod Rings
mod Drains
mod Hooking
mod Systems
mod Races
mod Lines
mod Links
mod Captures
mod Concurrence
mod Marking
