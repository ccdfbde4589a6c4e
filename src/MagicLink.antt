-- ===== src/MagicLink.antt =====
-- Passwordless sign-in: the tables of links and codes, issuing and redeeming links, and the
-- exchange of one-time codes.
pub mod Repo
pub mod Accounts
pub mod Service
pub mod Codes
pub mod Requests
pub mod Hardening
pub mod Passwords
