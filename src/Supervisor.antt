-- ===== src/Supervisor.antt =====
-- triAI-Engine/src/supervisor.rs and triAI-Engine/src/supervisor/: one worker process, behind one
-- slot that the whole program shares.
pub mod Slot
pub mod Exit
pub mod Worker
mod Tests
