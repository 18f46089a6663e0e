-- ===== src/Audit.antt =====
-- backend/src/audit and scripts/verify-audit-log.mjs: the hash-chained audit log.
pub mod Json
pub mod Chain
pub mod Verify
pub mod Retry
