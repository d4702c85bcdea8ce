-- ===== src/Query.antt =====
-- services/query-service: image, text and composed search.
pub mod Witnesses
pub mod Ports
pub mod Search
pub mod Cache
pub mod Clients
pub mod Http
