-- ===== src/Password.antt =====
-- Passwords: the policy, signing in, changing and resetting them, and the proof of an address.
pub mod Repo
pub mod Policy
pub mod Service
pub mod Stored
pub mod Reset
pub mod SingleUse
pub mod Email
