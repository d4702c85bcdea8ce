-- ===== src/Sdk.antt =====
-- sdks/python-sdk/cbir: the Python client of the public API.
pub mod Witnesses
pub mod Models
pub mod Client
