-- ===== src/Tests.antt =====
-- The theorems at concrete inputs.
pub mod Fixtures
pub mod Links
pub mod Codes
pub mod Sessions
pub mod Orgs
pub mod Network
pub mod Passwords
pub mod Factors
pub mod Structure
pub mod Profiles
pub mod Invites
pub mod Roles
