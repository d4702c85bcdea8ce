-- ===== src/Auth.antt =====
-- services/auth-service: tenants, API keys, access tokens, rate limits.
pub mod Fixtures
pub mod Presenters
pub mod Witnesses
pub mod ValueObjects
pub mod Entities
pub mod Secrets
pub mod Ports
pub mod Rows
pub mod Gateways
pub mod RateLimit
pub mod Tokens
pub mod Credentials
pub mod Tenants
pub mod ApiKeys
pub mod Http
