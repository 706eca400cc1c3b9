-- ===== src/Api.antt =====
-- api/: the handlers that decide who may enroll and who may administrate.
pub mod Claims
pub mod Policy
pub mod Certificate
pub mod Enroll
pub mod Auth
pub mod Replies
pub mod Registry
pub mod Routes
pub mod Handlers
pub mod Server
