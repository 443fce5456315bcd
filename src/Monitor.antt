-- ===== src/Monitor.antt =====
-- triAI-Engine/src/monitor/: snapshots of the machine, triggers with cooldowns, and their actions.
pub mod Hysteresis
pub mod Trigger
mod Tests
