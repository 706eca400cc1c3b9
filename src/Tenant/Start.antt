-- ===== src/Tenant/Start.antt =====
-- tenant/manager.rs: the constructors of `TenantManager`; storage/mod.rs: `open`.
pub mod Encrypts
use peat_gateway.Base.{
  Text, Bool, Option, none, some, List, Result, ok, err, and_then, feature_missing, query_failed,
  if◌then◌else◌,
}
use peat_gateway.Storage.Redb.{Redb, Json}
use peat_gateway.Storage.Backend
use peat_gateway.Storage.Backend.{Db}
use peat_gateway.Storage.Sql.{Sql}
use peat_gateway.Storage.Postgres
use peat_gateway.Config.{StorageConfig, redb, postgres, GatewayConfig}
use peat_gateway.Crypto.Interfaces.{Aead, Hex, KeyProvider}
use peat_gateway.Crypto.External.{Base64}
use peat_gateway.Crypto.Build.{Services, build_key_provider}
use peat_gateway.Tenant.Models.{Organization}
use peat_gateway.Tenant.Manager.{TenantManager, Writable}

-- What there is at a path or a URL: it cannot be opened, it is new, or it holds a database.
pub data Place (A : Type 0) : Type 0 where
  closed : Place A
  fresh : Place A
  holding : A → Place A

-- The file system, the PostgreSQL servers, whether the build has the feature `postgres`, and which
-- writes the store takes once it is open.
pub record Places (T D : Type 0) : Type 0 where
  pub file : Text → Place (Db T)
  pub server : Text → Place D
  pub postgres_enabled : Bool
  pub writable : Writable

-- `Box<dyn StorageBackend>`
pub data Storage (T D : Type 0) : Type 0 where
  in_redb : Db T → Storage T D
  in_postgres : D → Storage T D

-- The creation of the tables leaves those that are there.
abbrev pub opened : {A : Type 0} → A → Place A → Result A
opened created closed = err query_failed
opened created fresh = ok created
opened created (holding a) = ok a

module _ {T D : Type 0} ⦃r : Redb T⦄ ⦃j : Json⦄ ⦃sql : Sql D⦄ (places : Places T D) where
  unfoldable pub open_storage : StorageConfig → Result (Storage T D)
  open_storage (redb path) =
      and_then (opened Backend.create (places.file path)) (λ db. ok (in_redb db))
  open_storage (postgres url) =
      if places.postgres_enabled
      then and_then (opened Postgres.connect (places.server url)) (λ d. ok (in_postgres d))
      else err feature_missing

  -- `store.list_orgs().await?`
  abbrev pub orgs_in : Storage T D → Result (List Organization)
  orgs_in (in_redb db) = Backend.list_orgs db
  orgs_in (in_postgres d) = (Postgres.list_orgs d).0

  -- A manager, with the store that it keeps.
  abbrev pub with_backend : Storage T D → KeyProvider → Bool → TenantManager × Storage T D
  with_backend store key_provider encrypt_enabled = (
    record {
      store = places.writable;
      key_provider = key_provider;
      encrypt_enabled = encrypt_enabled;
    },
    store,
  )

  unfoldable pub with_key_provider :
      GatewayConfig → KeyProvider → Bool → Result (TenantManager × Storage T D)
  unfolding open_storage
  with_key_provider config key_provider encrypt_enabled =
      and_then (open_storage config.storage) λ store.
        and_then (orgs_in store) λ orgs. ok (with_backend store key_provider encrypt_enabled)

  unfoldable pub new :
      ⦃aead : Aead⦄
      → ⦃hex : Hex⦄ → ⦃b64 : Base64⦄ → Services
      → GatewayConfig
      → Result (TenantManager × Storage T D)
  unfolding open_storage
  new services config = and_then (open_storage config.storage) λ store.
      and_then (build_key_provider services config)
        λ built. and_then (orgs_in store) λ orgs. ok (with_backend store built.0 built.1)
