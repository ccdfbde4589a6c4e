-- ===== src/Mfa.antt =====
-- Second factors: the tables of factors and recovery codes, and the service.
pub mod Repo
pub mod Service
pub mod Login
pub mod Recovery
