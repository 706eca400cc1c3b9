-- ===== src/Examples.antt =====
-- Concrete stores, ciphers and requests, and runs of the development on them.
pub mod Loadtests
pub mod Starts
pub mod Introspections
pub mod Admissions
pub mod Servers
pub mod Formats
pub mod Tenants
pub mod Identities
pub mod Stores
pub mod World
pub mod Databases
pub mod Publications
pub mod Admins
pub mod Migrations
pub mod Enrollments
pub mod Formations
pub mod Histories
pub mod Feeds
pub mod Watchers
pub mod Rows
pub mod Calls
pub mod Providers
pub mod Polls
pub mod Races
pub mod Brokers
