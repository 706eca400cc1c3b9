-- ===== src/Tenant.antt =====
-- tenant/: the organisations' side of the gateway.
pub mod Models
pub mod Validate
pub mod Mesh
pub mod Manager
pub mod Start
pub mod Tokens
pub mod Sinks
pub mod Identity
pub mod Effects
