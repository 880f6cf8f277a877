-- ===== src/Commands.antt =====
-- commands.py: what a player types, and what it does.
pub mod Data
pub mod Table
pub mod Parse
pub mod Handlers
pub mod Dispatch
pub mod Tests
