-- ===== src/Web.antt =====
-- internal/webapp: the sessions of users, and the functions that they may call.
pub mod Tables
pub mod Login
pub mod Sessions
pub mod Password
pub mod Dispatcher
pub mod Api
pub mod Tracker
pub mod Access
pub mod Roles
pub mod Atomic
pub mod Revoke
pub mod Users
pub mod Suspend
pub mod Purge
mod Runs
