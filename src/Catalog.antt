-- ===== src/Catalog.antt =====
-- services/catalog-service: item metadata, signed uploads, confirmation, erasure, feedback.
pub mod Fixtures
pub mod Presenters
pub mod Witnesses
pub mod Items
pub mod Ports
pub mod Gateways
pub mod Storage
pub mod UseCases
pub mod Http
