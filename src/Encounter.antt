-- ===== src/Encounter.antt =====
-- alzendor/encounter.py: encounters, as their owner runs them.
pub mod Data
pub mod Clock
pub mod Report
pub mod Rewind
pub mod Turn
pub mod Input
pub mod Loop
pub mod Tests
