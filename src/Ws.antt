-- ===== src/Ws.antt =====
-- backend/src/ws: the connections, rooms, presence and rate limit of the WebSocket server.
pub mod Table
pub mod Registry
pub mod Presence
pub mod RateLimiter
pub mod Session
