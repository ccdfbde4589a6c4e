-- ===== src/Lib.antt =====
-- Authpad: sessions, passwordless sign-in, organizations and the checks around them.
--
-- The services of internal/service work on two databases, Auth and IdP, through the repositories of
-- internal/repository. A magic link is requested (`Submit`, `process`), stored as a hash, mailed, and
-- redeemed once (`Verify`), which finds or creates the account and, on the first proof of an address,
-- takes it over. In the code flow the handler makes a session and a one-time code bound to the
-- redirect's origin and a PKCE challenge (`CreateCode`); the site exchanges it once for a token
-- (`Exchange`). Every later request presents a session token (`GetSessionByToken`). Limits
-- (internal/security/window_limiter.go) are counted per client address (client_ip.go) and per email,
-- and redirects are checked against an allowlist (redirect.go, magic_redirect.go).
--
-- Files:
--   Prelude and Prelude/*: Boolean tests, lists, tables, text and dictionaries.
--   Limiter: internal/security/window_limiter.go; the theorems are in Limiter/Counting and Window.
--   ClientIp: internal/security/client_ip.go; ClientIp/Walk.
--   Redirect: internal/security/redirect.go and magic_redirect.go; Redirect/Allowed.
--   Crypto: what is called of cryptographic packages, and the clock, ids and tokens of an operation.
--   Db/Rows: the rows, from internal/domain and the repositories. Db/World: the databases, errors and
--     calls. Db/Rules: proof rules for calls (what a call does to the world, what it returns).
--     Db/Success: a program logic for calls that succeed.
--   User/Repo: user_auth_repo.go and credential_repo.go of internal/repository/auth. User/Account:
--     users and the passwordless sign-up of internal/service/auth_service.go and
--     account_service.go.
--   Mfa/Repo: internal/repository/auth/factor_repo.go. Mfa/Service: internal/service/mfa_service.go;
--     the theorems are in Mfa/Login (the second step of a login) and Mfa/Recovery (recovery codes).
--   Password/Repo: password_reset_token_repo.go and email_verification_repo.go of
--     internal/repository/auth. Password/Policy, Password/Service: the passwords and the email
--     verifications of internal/service/auth_service.go; the theorems are in Password/Policy, Stored
--     (what is stored signs in), Reset, SingleUse (reset tokens) and Email.
--   Session/Repo: internal/repository/auth/session_repo.go. Session/Service: the sessions of
--     internal/service/auth_service.go; Session/Service/Checks, Expiry and Session/Revocation.
--   MagicLink/Repo: magic_link_repo.go and magic_link_code_repo.go of internal/repository/auth.
--     MagicLink/Accounts, Service and Requests: internal/service/magic_link_service.go.
--     MagicLink/Codes: internal/service/magic_link_code_service.go. The theorems on links are in
--     MagicLink/Service/*, those on codes in MagicLink/Codes/*,
--     MagicLink/Hardening is about accounts that are taken over, and MagicLink/Passwords/* about those
--     that have a password.
--   Org/Repo and Org/Names: internal/repository/idp/org_repo.go. Org/Members, Invites, Slug, Structure
--     (roles, departments and levels) and Setup (new organizations and signup):
--     internal/service/org_service.go. The theorems are in Org/Members/*, Org/Invites/*, Org/Slug/*,
--     Org/Structure/* and Org/Setup/*. Org/Staff: staffClassifier of internal/server/server.go.
--   Profile: internal/apptypes/schema.go; Profile/Schema.
--   User/Roles: internal/repository/idp/role_repo.go and the roles of internal/service/idp_service.go;
--     User/Roles/Assigned. User/Signup: CreateAccount and DeleteAccount of internal/service/account_service.go.
--   Invite/Repo: internal/repository/idp/invitation_repo.go. Invite/Service:
--     internal/service/invite_service.go; Invite/Redeemed.
--   Tests/*: the theorems at concrete inputs.
--
-- How the code is read. A repository method is a statement on the world of tables. It first draws
-- from a schedule of faults, which is any list: it fails and changes nothing, or it runs, and what
-- earlier statements wrote stays written. A unique index refuses an insertion; updates that write a
-- fresh hash are taken to be unique. The order of rows is that of the table. A service method is a
-- chain of statements; each operation has one instant, one fresh id and one token, which may fail to
-- be drawn. Instants and durations are natural numbers of nanoseconds: every use of a limit or a
-- duration below zero is that of zero, but for the window of a limiter, which no caller gives below
-- zero. Ids are numbers, 0 for the nil UUID. The row of
-- a profile is kept with its user and its name, the rest of it is read by nothing that is modelled. Text is a list of code
-- points, of valid UTF-8; the tables of Unicode from 128 on are a parameter, and `lower` of the
-- database is taken for the program's. A call is one step: mutexes have no part in the model. No
-- function recurses on fuel; every loop is over a list.
--
-- Parameters: the package net, `url.ParseRequestURI`, `mail.ParseAddress`, `url.Parse`, `uuid.Parse`, hashes, TOTP and its keys, the hooks of the host, the
-- staff classifier, and the interfaces of the magic-link service where it has them.
--
-- Not modelled: HTTP handlers, wiring, mail and its templates, audit logs (they are written and never
-- read), OAuth, groups, and the queue of `Submit`, which drops a request or
-- runs `process`.
pub mod Prelude
pub mod Limiter
pub mod ClientIp
pub mod Crypto
pub mod Db
pub mod User
pub mod Mfa
pub mod Password
pub mod Profile
pub mod Invite
pub mod Session
pub mod Redirect
pub mod MagicLink
pub mod Org
pub mod Tests
