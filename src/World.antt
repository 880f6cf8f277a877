-- ===== src/World.antt =====
-- world.py: the checks of a seed that look at the world as a whole.
pub mod Reach
pub mod Effects
pub mod Graph
pub mod Quest
pub mod Tests
