-- ===== src/Auth.antt =====
-- alzendor/auth.py: accounts, passwords and session tokens. The password hasher, the hash of tokens
-- and Redis's clock are outside: a record of what auth.py calls, and a time with each step.
pub mod Store
pub mod Login
pub mod Register
pub mod Tokens
pub mod Tests
