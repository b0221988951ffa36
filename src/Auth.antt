-- ===== src/Auth.antt =====
-- apps/api/src/modules/auth: the users of the admin panel, their sessions and what they may do.
pub mod Roles
pub mod Store
pub mod Session
pub mod Users
pub mod Login
pub mod Mfa
pub mod Sessions
pub mod Manage
pub mod Factors
pub mod Refusals
pub mod Usernames
