-- ===== src/Kernel.antt =====
-- The cross-service kernel (shared/domain-kernel) and the values that every service passes on.
pub mod Witnesses
pub mod Uuid
pub mod TenantId
pub mod Json
pub mod Floats
