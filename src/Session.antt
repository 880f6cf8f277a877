-- ===== src/Session.antt =====
-- session.py: one client connection, from authentication until it closes.
pub mod Data
pub mod Rate
pub mod Handle
pub mod Delay
pub mod Forward
pub mod Enter
pub mod Tests
