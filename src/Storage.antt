-- ===== src/Storage.antt =====
-- storage/: the persistent state of the gateway.
pub mod Redb
pub mod Keys
pub mod Table
pub mod Backend
pub mod Identity
pub mod Isolation
pub mod Keyed
pub mod Sql
pub mod Postgres
