-- ===== src/Invite.antt =====
-- Invitations to the platform: internal/repository/idp/invitation_repo.go and
-- internal/service/invite_service.go.
pub mod Repo
pub mod Service
pub mod Redeemed
