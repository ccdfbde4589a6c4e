-- ===== src/Org.antt =====
-- Organizations: their tables, their members and their invitations.
pub mod Repo
pub mod Members
pub mod Invites
pub mod Slug
pub mod Names
pub mod Structure
pub mod Setup
pub mod Staff
