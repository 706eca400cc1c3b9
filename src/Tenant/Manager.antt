-- ===== src/Tenant/Manager.antt =====
-- tenant/manager.rs: `TenantManager`, organisations, formations and their genesis.
pub mod Cases
pub mod Genesis
pub mod Quota
use peat_gateway.Base.{
  required, and_then, ◌-◌, ℕ, ◌%◌, ◌^◌, Text, Bytes, Bool, Option, none, some, is_some, List, Exec,
  Result, ok, pure, fail, lift, reads, writes, ◌>>=◌, ◌>>◌, ok_or, org_exists, org_not_found,
  formation_exists, formation_not_found, quota_reached, genesis_not_found, bad_genesis, length, leb,
  filter, not, attempted, logged, if◌then◌else◌,
}
use peat_gateway.Storage.Redb.{Redb, Json}
use peat_gateway.Storage.Backend
use peat_gateway.Storage.Backend.{Db}
use peat_gateway.Storage.Identity
use peat_gateway.Crypto.Interfaces.{Aead, KeyProvider, Rng}
use peat_gateway.Crypto.Envelope.{Draws, seal, open_envelope}
use peat_gateway.Tenant.Models.{
  Organization, OrgQuotas, default_quotas, FormationConfig, EnrollmentPolicy,
}
use peat_gateway.Tenant.Mesh.{Mesh, mesh_policy}
use peat_gateway.Tenant.Validate.{validate_identifier, validate_display_name}

-- Whether the store takes a write, for the calls after which a method has more to do, or has written
-- something before. Any other call that fails ends its method with that error, before it has written.
pub record Writable : Type 0 where
  pub creates_formation : Bool
  pub stores_genesis : Bool
  pub deletes_formation : Bool
  pub deletes_genesis : Bool
  pub appends_audit : Bool

-- What the store holds is the state of the methods.
pub record TenantManager : Type 0 where
  pub store : Writable
  pub key_provider : KeyProvider
  pub encrypt_enabled : Bool

-- A write that also reports.
abbrev pub deletes : {S A : Type 0} → (S → A × S) → Exec S A
deletes f s = let (a, s') = f s in (ok a, s')

-- `usize::MAX` on a 64-bit target
abbrev pub usize_max : ℕ
usize_max = 2 ^ 64 - 1

-- `len() as u32`
abbrev pub as_u32 : ℕ → ℕ
as_u32 n = n % 2 ^ 32

-- Data that is no envelope is taken for a plaintext written before encryption was enabled.
unfoldable pub decrypt_or_legacy : ⦃aead : Aead⦄ → TenantManager → Bytes → Result Bytes
decrypt_or_legacy mgr stored =
    if mgr.encrypt_enabled
    then and_then (open_envelope mgr.key_provider stored)
        (λ opened. elim opened [ some decrypted ↦ ok decrypted | none ↦ ok stored ])
    else ok stored

module _ {T : Type 0} ⦃r : Redb T⦄ ⦃j : Json⦄ where
  unfoldable pub get_org : Text → Exec (Db T) Organization
  unfolding Backend.get_org
  get_org org_id = reads (λ db. required (Backend.get_org db org_id) org_not_found)

  unfoldable pub create_org : ℕ → Text → Text → Exec (Db T) Organization
  create_org now org_id display_name = do
    lift (validate_identifier org_id)
    lift (validate_display_name display_name)
    existing ← reads (λ db. Backend.get_org db org_id)
    if is_some existing then fail org_exists else do
      let org : Organization = record {
        org_id = org_id;
        display_name = display_name;
        quotas = default_quotas;
        created_at = now;
      }
      writes (λ db. Backend.create_org db org)
      pure org

  unfoldable pub list_orgs : Exec (Db T) (List Organization)
  list_orgs = reads Backend.list_orgs

  unfoldable pub update_org : Text → Option Text → Option OrgQuotas → Exec (Db T) Organization
  update_org org_id display_name quotas = do
    org ← get_org org_id
    let named : Organization = elim display_name [
      | none ↦ org
      | some name ↦ record org { display_name = name }
    ]
    let updated : Organization = elim quotas [ none ↦ named | some q ↦ record named { quotas = q } ]
    writes (λ db. Backend.update_org db updated)
    pure updated

  unfoldable pub delete_org : Text → Exec (Db T) (Unit {0})
  delete_org org_id = do
    removed ← deletes (λ db. Backend.delete_org db org_id)
    if not removed then fail org_not_found else pure tt

  unfoldable pub get_formation : Text → Text → Exec (Db T) FormationConfig
  get_formation org_id app_id =
      reads (λ db. required (Backend.get_formation db org_id app_id) formation_not_found)

  unfoldable pub list_formations : Text → Exec (Db T) (List FormationConfig)
  list_formations org_id = do get_org org_id; reads (λ db. Backend.list_formations db org_id)

  -- `let _ = self.store.delete_genesis(…).await;`
  unfoldable pub delete_formation : TenantManager → Text → Text → Exec (Db T) (Unit {0})
  delete_formation mgr org_id app_id = do
    removed ←
        attempted mgr.store.deletes_formation
          (deletes (λ db. Backend.delete_formation db org_id app_id))
    if not removed then fail formation_not_found else do
      logged (
          attempted mgr.store.deletes_genesis
            (deletes (λ db. Backend.delete_genesis db org_id app_id)))
      pure tt

  unfoldable pub count_recent_enrollments : Text → ℕ → Exec (Db T) ℕ
  count_recent_enrollments org_id since_ms = do
    entries ← reads (λ db. Identity.list_audit db org_id none usize_max)
    pure (length (filter (λ e. leb since_ms e.timestamp_ms) entries))

  module _ {G : Type 0} ⦃aead : Aead⦄ (mesh : Mesh G) (mgr : TenantManager) where
    -- `genesis_rng` is what `MeshGenesis::create` draws, `draws` what `seal` draws.
    unfoldable pub create_formation :
        Rng → Draws → Text → Text → EnrollmentPolicy → Exec (Db T) FormationConfig
    create_formation genesis_rng draws org_id app_id enrollment_policy = do
      lift (validate_identifier app_id)
      org ← get_org org_id
      existing ← reads (λ db. Backend.list_formations db org_id)
      if leb org.quotas.max_formations (as_u32 (length existing)) then fail quota_reached else do
        found ← reads (λ db. Backend.get_formation db org_id app_id)
        if is_some found then fail formation_exists else do
          let genesis : G = mesh.create genesis_rng app_id (mesh_policy enrollment_policy)
          let encoded : Bytes = mesh.encode genesis
          stored ←
              lift (if mgr.encrypt_enabled then seal mgr.key_provider draws encoded else ok encoded)
          let formation : FormationConfig = record {
            app_id = app_id;
            mesh_id = mesh.mesh_id genesis;
            enrollment_policy = enrollment_policy;
          }
          attempted mgr.store.creates_formation
              (writes (λ db. Backend.create_formation db org_id formation))
          attempted mgr.store.stores_genesis
              (writes (λ db. Backend.store_genesis db org_id app_id stored))
          pure formation

    unfoldable pub load_genesis : Text → Text → Exec (Db T) G
    load_genesis org_id app_id = do
      found ← reads (λ db. ok (Backend.get_genesis db org_id app_id))
      stored ← lift (ok_or found genesis_not_found)
      plaintext ← lift (decrypt_or_legacy mgr stored)
      lift (ok_or (mesh.decode plaintext) bad_genesis)
