-- ===== src/Workspaces.antt =====
-- backend/src/routes/workspaces.js: the routes that change a workspace, its members and channels.
pub mod Tables
pub mod Lifecycle
pub mod Members
pub mod Channels
pub mod Requests
pub mod Rules
pub mod Refines
pub mod Integrity
mod Safety
mod Examples
