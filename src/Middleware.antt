-- ===== src/Middleware.antt =====
-- cbir_common/observability and cbir_common/http: the middleware that every service runs its
-- requests through.
pub mod Metrics
pub mod Headers
mod Witnesses
