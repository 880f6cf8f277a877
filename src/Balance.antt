-- ===== src/Balance.antt =====
-- alzendor/balance.py: the combat simulation.
pub mod Rng
pub mod Rules
pub mod Dot
pub mod Same
pub mod Events
pub mod Knock
pub mod Blows
pub mod Timers
pub mod Strikes
pub mod Physics
pub mod Step
pub mod Snapshot
pub mod Boss
pub mod Tests
