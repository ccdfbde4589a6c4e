-- ===== src/User.antt =====
-- Accounts: the tables of users and credentials.
pub mod Repo
pub mod Account
pub mod Roles
pub mod Signup
