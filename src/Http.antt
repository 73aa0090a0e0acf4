-- ===== src/Http.antt =====
-- The HTTP layer of flood_system/http: what stands between a request and its handler.
pub mod Messages
pub mod Idempotency
pub mod BodyLimit
pub mod Tests
