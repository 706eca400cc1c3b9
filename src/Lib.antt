-- ===== src/Lib.antt =====
-- A verification library of peat-gateway, the multi-tenant control plane of a peat mesh: the store,
-- the tenant manager, the envelope encryption of formation secrets, the handlers of the HTTP interface, the
-- delivery of change events, and the migration of keys.
--
-- How the program works. An organisation owns formations, each with a genesis (the secret of a mesh),
-- enrollment tokens, event sinks, identity providers, policy rules and an audit of enrollments.
-- `TenantManager` (src/tenant/manager.rs) checks the input and the quotas and keeps everything in a
-- `StorageBackend`, here the one on redb (src/storage/redb_backend.rs) unless another is named, which serialises each record
-- into one of nine tables, under a key that begins with the organisation's identifier and a zero
-- byte. A genesis is sealed with a data key that a `KeyProvider` wraps (src/crypto). A device asks
-- `enroll` (src/api/enroll.rs) for admission to a formation, and gets a certificate. Changes of
-- documents are published to the sinks of their organisation (src/cdc). The command `migrate_keys`
-- (src/cli.rs) seals what was stored before encryption was enabled.
--
-- The files:
--   Base              shared names, lists and texts over native numbers, and the methods' outcomes:
--                     `Exec S A` is a method on the state `S`, which keeps what was written before a
--                     failure; `Error` has a constructor for each error of the modelled code
--   Storage/Redb      what is assumed of the crates redb and serde_json: an ordered map, and a
--                     serialisation that reads back what it wrote
--   Storage/Keys, Table, Backend, Identity   src/storage/redb_backend.rs
--   Storage/Isolation what one organisation sees of the store, and what other writes leave of it
--   Storage/Sql       what is assumed of PostgreSQL and sqlx: the statements, on tables with keys
--   Storage/Postgres  src/storage/postgres.rs; its children compare it with the redb backend
--                     (Columns and Tables the keys and tables of both, Agrees when both hold the same
--                     rows, Statements what a statement keeps, Calls the methods of the trait
--                     in src/storage/mod.rs)
--   Crypto/Interfaces what is assumed of aes_gcm and hex; the trait `KeyProvider` and its contract
--   Crypto/Envelope   `seal`, `open` (here `open_envelope`) and `is_envelope` of src/crypto/mod.rs
--   Crypto/Local      src/crypto/local.rs, and `PlaintextProvider` of src/crypto/mod.rs
--   Crypto/External, Build   src/crypto/kms.rs and src/crypto/vault.rs, whose services are parameters,
--                     and `build_key_provider` of src/crypto/mod.rs
--   Config            src/config.rs: its records, `from_env` (Env), the mappings of brokers (Mappings),
--                     and `str::trim` and `str::split` (Spaces)
--   Tenant/Models     src/tenant/models.rs
--   Tenant/Mesh       what is used of the library peat-mesh, with the conversions to its types
--   Tenant/Validate, Manager, Tokens, Sinks, Identity   src/tenant/manager.rs; the children of
--                     Manager and of Tokens have the outcomes of the methods and their theorems
--   Tenant/Start      the constructors of src/tenant/manager.rs, and `open` of src/storage/mod.rs
--   Api/Claims, Policy, Certificate, Enroll   src/api/enroll.rs; Enroll/Introspection has the calls of an
--                     identity provider, over what they come to
--   Api/Auth          src/api/auth.rs
--   Api/Replies, Routes, Registry, Handlers   src/api/orgs.rs, tokens.rs, sinks.rs, identity.rs and
--                     formations.rs, with the routers of src/api/mod.rs: one constructor of a route for
--                     each path and method, one handler for each route
--   Api/Server        src/api/mod.rs: what one request makes of the database, and a run of requests
--   Storage/Keyed, Tenant/Effects   under which keys the rows lie, and what a method writes
--   Cdc/Engine, Webhook   src/cdc/engine.rs and src/cdc/webhook_sink.rs
--   Cdc/Documents, Watcher   src/cdc/watcher.rs: the task of one formation, with its promise (Spec) and
--                     the proof that it is kept (Refines), tasks that take turns (Interleaved), and the
--                     handles of the tasks (Tasks)
--   Ingest            src/mesh_ingest.rs: the snapshot of a remote broker, the differences between two
--                     (Diffs), the names of its collections (Keys), the polls (Polls), and what the snapshot
--                     answers (Broker)
--   Cli               src/cli.rs; its children have what a migration keeps and reaches
--   Loadtest          src/loadtest.rs: the operations and their choice, a worker (Worker), the report
--                     (Report) and a whole test (Run)
--   Examples          concrete stores, ciphers and requests, tests, and instances of the theorems
--
-- Conventions. A text is the list of its bytes. A `u32` or `u64` is a native number; where the code
-- computes with one, the wrap-around is written out (`count_use`, `as_u32`), as in a build without
-- overflow checks. Random bytes, the clock and the answer of an identity provider are arguments. A
-- method is one step: two requests do not interleave inside it, except in Tenant/Tokens/Races and
-- Cdc/Watcher/Interleaved, which have their own steps. Logging and the texts of errors are
-- left out. A method of the store is what a transaction that goes through does; one that fails leaves
-- the store as it was. A method of the manager whose only write fails thus fails with nothing written,
-- which is not written out; where the code goes on after a failed call, or has written before it, the
-- call is `attempted` and its outcome is an argument: the field `store` of `TenantManager`, which a
-- run of requests sets anew for each, and the `Moment` of a change. A task that was asked to stop runs
-- until the runtime cancels it. No definition needs fuel: each loop is a recursion on the list that it
-- walks, or on the attempts that are left. What a webhook answers, attempt by attempt, is an argument.
--
-- What axum and serde take from a request (the path, the query, the body) is the argument of its
-- route; a body that does not fit never reaches a handler.
--
-- Not modelled: the NATS sink, which only calls its client; the files of the user interface; the
-- start of the program; the load test's server, route and output; and vendor.
pub mod Api
pub mod Base
pub mod Cdc
pub mod Cli
pub mod Config
pub mod Crypto
pub mod Examples
pub mod Ingest
pub mod Loadtest
pub mod Storage
pub mod Tenant
