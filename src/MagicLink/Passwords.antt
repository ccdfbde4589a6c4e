-- ===== src/MagicLink/Passwords.antt =====
-- Links and accounts that have a password, with the account backend of
-- internal/service/magic_link_service.go.
pub mod Kept
pub mod Created
pub mod Refused
