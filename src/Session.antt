-- ===== src/Session.antt =====
-- Sessions: internal/repository/auth/session_repo.go and the session part of
-- internal/service/auth_service.go.
pub mod Repo
pub mod Service
pub mod Revocation
