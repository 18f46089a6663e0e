-- ===== src/Authz.antt =====
-- backend/src/authz: who may do what, and the tables that say so.
pub mod Permissions
pub mod Database
pub mod Membership
pub mod Checks
