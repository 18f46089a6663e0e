-- ===== src/Auth.antt =====
-- backend/src/auth: the sessions of users.
pub mod RefreshTokens
pub mod Accounts
pub mod Admin
