-- ===== src/Rt.antt =====
-- src/rt/ovni.c: the runtime library, which packs events and writes them to the stream of the thread.
pub mod Bytes
pub mod Event
pub mod Buffer
mod Tests
