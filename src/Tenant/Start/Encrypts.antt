-- ===== src/Tenant/Start/Encrypts.antt =====
-- tenant/manager.rs: what a manager that was started by its configuration does with a genesis.
use peat_gateway.Base.{
  ◌≡◌, refl, inl, inr, Text, Bytes, Bool, true, false, ◌||◌, is_some, some, ok, err, Result-cases,
}
use peat_gateway.Storage.Redb.{Redb, Json}
use peat_gateway.Storage.Backend
use peat_gateway.Storage.Backend.{Db}
use peat_gateway.Storage.Sql.{Sql}
use peat_gateway.Config.{GatewayConfig}
use peat_gateway.Crypto.Interfaces.{Aead, Hex, Rng, KeepsDeks}
use peat_gateway.Crypto.Envelope.{Draws, is_envelope, seal}
use peat_gateway.Crypto.Envelope.RoundTrip.{open_envelope-seal}
use peat_gateway.Crypto.External.{Base64}
use peat_gateway.Crypto.Build.{
  Services, build_key_provider, AreFaithful, build_key_provider-Fitting,
}
use peat_gateway.Tenant.Models.{FormationConfig, EnrollmentPolicy}
use peat_gateway.Tenant.Mesh.{Mesh, mesh_policy}
use peat_gateway.Tenant.Manager.{TenantManager, create_formation, load_genesis}
use peat_gateway.Tenant.Manager.Cases.{create_formation_cases}
use peat_gateway.Tenant.Manager.Genesis.{create_formation-load_genesis, get_genesis-admitted}
use peat_gateway.Tenant.Start.{Places, Storage, open_storage, orgs_in, with_backend, new}

-- A KMS key, a Vault server or a local key is configured.
abbrev pub is_keyed : GatewayConfig → Bool
is_keyed config = is_some config.kms_key_arn || (is_some config.vault_addr || is_some config.kek)

module _ {T D : Type 0} ⦃r : Redb T⦄ ⦃j : Json⦄ ⦃sql : Sql D⦄ ⦃aead : Aead⦄ ⦃hex : Hex⦄
    ⦃b64 : Base64⦄ (places : Places T D) (services : Services) where
  new-build_key_provider :
      (config : GatewayConfig) (mgr : TenantManager) (store : Storage T D)
      → new places services config ≡ ok (mgr, store)
      → build_key_provider services config ≡ ok (mgr.key_provider, mgr.encrypt_enabled)
  unfolding new
  new-build_key_provider config mgr store h =
      elim (Result-cases (open_storage places config.storage)) [
        | inl (e, q) ↦ absurd (let x : err e ≡ ok (mgr, store) = rw q at h in cc)
        | inr (opened, q) ↦ elim (Result-cases (build_key_provider services config)) [
          | inl (e, p) ↦ absurd (let x : err e ≡ ok (mgr, store) = rw (q, p) at h in cc)
          | inr (built, p) ↦ elim (Result-cases (orgs_in places opened)) [
            | inl (e, l) ↦ absurd (let x : err e ≡ ok (mgr, store) = rw (q, p, l) at h in cc)
            | inr (orgs, l) ↦
                let e : ok (with_backend places opened built.0 built.1) ≡ ok (mgr, store) =
                  rw (q, p, l) at h in
                let key_provider : built.0 ≡ mgr.key_provider = cc in
                let enabled : built.1 ≡ mgr.encrypt_enabled = cc in
                rw (p, key_provider, enabled) refl
          ]
        ]
      ]

  -- The manager encrypts, with a provider that keeps data keys.
  new-encrypts :
      (config : GatewayConfig) (mgr : TenantManager) (store : Storage T D)
      → AreFaithful services
      → is_keyed config ≡ true
      → new places services config ≡ ok (mgr, store)
      → (mgr.encrypt_enabled ≡ true) × KeepsDeks mgr.key_provider
  new-encrypts config mgr store faithful keyed h =
      let built = new-build_key_provider config mgr store h in
      elim (build_key_provider-Fitting services config _ faithful built) [
        | inl (off, plaintext, kms, vault, kek) ↦
            absurd (let bare : is_keyed config ≡ false = rw (kms, vault, kek) refl in cc)
        | inr fits ↦ fits
      ]

module _ {T G : Type 0} ⦃r : Redb T⦄ ⦃j : Json⦄ ⦃aead : Aead⦄ (mesh : Mesh G)
    (mgr : TenantManager) where
  create_formation-is_envelope :
      (rng : Rng) (d : Draws) (o a : Text) (pol : EnrollmentPolicy) (db : Db T)
      (f : FormationConfig)
      → mgr.encrypt_enabled ≡ true
      → KeepsDeks mgr.key_provider
      → (create_formation mesh mgr rng d o a pol db).0 ≡ ok f
      → (bytes : Bytes) × (Backend.get_genesis (create_formation mesh mgr rng d o a pol db).1 o a
          ≡ some bytes)
        × (is_envelope bytes ≡ true)
  create_formation-is_envelope rng d o a pol db f on keeps =
      create_formation_cases mesh mgr
        (λ q.
          q.0 ≡ ok f
          → (bytes : Bytes) × (Backend.get_genesis q.1 o a ≡ some bytes)
            × (is_envelope bytes ≡ true))
        rng d o a pol db (λ e bad. absurd cc) (λ lost bad. absurd cc)
        λ org l bytes adm enc done.
          let g = mesh.create rng a (mesh_policy pol) in
          let sealed : seal mgr.key_provider d (mesh.encode g) ≡ ok bytes = rw on at enc in
          (
            bytes,
            get_genesis-admitted db o _ bytes,
            (open_envelope-seal mgr.key_provider keeps d (mesh.encode g) bytes sealed).1,
          )

module _ {T D G : Type 0} ⦃r : Redb T⦄ ⦃j : Json⦄ ⦃sql : Sql D⦄ ⦃aead : Aead⦄ ⦃hex : Hex⦄
    ⦃b64 : Base64⦄ (places : Places T D) (services : Services) (mesh : Mesh G) where
  -- In a manager that TenantManager::new returns for a configuration with a KMS key, a Vault
  -- server or a local key, what a successful create_formation stores of the genesis is an
  -- envelope, and load_genesis reads the genesis back, given that AWS KMS and Vault decrypt what
  -- they encrypted.
  pub create_formation-new :
      (config : GatewayConfig) (mgr : TenantManager) (store : Storage T D) (rng : Rng) (d : Draws)
      (o a : Text) (pol : EnrollmentPolicy) (db : Db T) (f : FormationConfig)
      → AreFaithful services
      → is_keyed config ≡ true
      → new places services config ≡ ok (mgr, store)
      → (create_formation mesh mgr rng d o a pol db).0 ≡ ok f
      → let db' = (create_formation mesh mgr rng d o a pol db).1 in
        (load_genesis mesh mgr o a db' ≡ (ok (mesh.create rng a (mesh_policy pol)), db'))
        × ((bytes : Bytes) × (Backend.get_genesis db' o a ≡ some bytes)
            × (is_envelope bytes ≡ true))
  create_formation-new config mgr store rng d o a pol db f faithful keyed h done =
      let (on, keeps) = new-encrypts places services config mgr store faithful keyed h in
      (
        (create_formation-load_genesis mesh mgr rng d o a pol db f (λ on. keeps) done).1,
        create_formation-is_envelope mesh mgr rng d o a pol db f on keeps done,
      )
