-- ===== src/Ovni.antt =====
-- src/emu/ovni: the model of the ovni events.
pub mod Handlers
pub mod Data
pub mod Event
pub mod Places
pub mod Shown
pub mod Moves
pub mod Leaving
pub mod Invariant
pub mod Runs
pub mod Emulation
pub mod Run
pub mod Bursts
pub mod Remote
pub mod Samples
mod Tests
