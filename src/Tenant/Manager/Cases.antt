-- ===== src/Tenant/Manager/Cases.antt =====
-- tenant/manager.rs: the outcomes of the formation methods.
use peat_gateway.Base.{
  Text, Bytes, false, none, some, Error, List, Result, ok, err, ◌≡◌, Result-cases, Bool-cases, inl,
  inr, length, leb, attempted, writes, pure, ◌>>◌, query_failed, org_not_found, quota_reached,
  formation_exists, if◌then◌else◌,
}
use peat_gateway.Storage.Redb.{Redb, Json}
use peat_gateway.Storage.Backend
use peat_gateway.Storage.Backend.{Db}
use peat_gateway.Crypto.Interfaces.{Aead, Rng}
use peat_gateway.Crypto.Envelope.{Draws, seal}
use peat_gateway.Tenant.Models.{Organization, FormationConfig, EnrollmentPolicy}
use peat_gateway.Tenant.Mesh.{Mesh, mesh_policy}
use peat_gateway.Tenant.Validate.{validate_identifier}
use peat_gateway.Tenant.Manager.{TenantManager, as_u32, get_org, create_formation}

module _ {G : Type 0} (mesh : Mesh G) where
  -- The formation of a genesis.
  abbrev pub formation_of : Text → EnrollmentPolicy → G → FormationConfig
  formation_of a pol g = record { app_id = a; mesh_id = mesh.mesh_id g; enrollment_policy = pol }

  abbrev pub stored_as : ⦃aead : Aead⦄ → TenantManager → Draws → G → Result Bytes
  stored_as mgr d g =
      if mgr.encrypt_enabled then seal mgr.key_provider d (mesh.encode g) else ok (mesh.encode g)

module _ {T : Type 0} ⦃r : Redb T⦄ ⦃j : Json⦄ where
  abbrev pub admitted : Db T → Text → FormationConfig → Bytes → Db T
  admitted db o f bytes = Backend.store_genesis (Backend.create_formation db o f) o f.app_id bytes

  -- What `create_formation` has found before it writes.
  pub record IsAdmitted (db : Db T) (o a : Text) (org : Organization)
      (existing : List FormationConfig) : Type 0 where
    pub valid : validate_identifier a ≡ ok tt
    pub org_found : Backend.get_org db o ≡ ok (some org)
    pub listed : Backend.list_formations db o ≡ ok existing
    pub room : leb org.quotas.max_formations (as_u32 (length existing)) ≡ false
    pub unused : Backend.get_formation db o a ≡ ok none

module _ {T G : Type 0} ⦃r : Redb T⦄ ⦃j : Json⦄ ⦃aead : Aead⦄ (mesh : Mesh G)
    (mgr : TenantManager) where
  -- The two writes of `create_formation`.
  writes_cases :
      (P : Result FormationConfig × Db T → Type 0) (g : Rng) (d : Draws) (o a : Text)
      (pol : EnrollmentPolicy) (db : Db T) (bytes : Bytes)
      → let f = formation_of mesh a pol (mesh.create g a (mesh_policy pol)) in
        ((e : Error) → P (err e, db))
        → (mgr.store.stores_genesis ≡ false → P (err query_failed, Backend.create_formation db o f))
        → P (ok f, admitted db o f bytes)
        → P (
            (do
              attempted mgr.store.creates_formation
                  (writes (λ db'. Backend.create_formation db' o f))
              attempted mgr.store.stores_genesis
                  (writes (λ db'. Backend.store_genesis db' o a bytes))
              pure f)
              db)
  writes_cases P g d o a pol db bytes bad half good =
      elim (Bool-cases mgr.store.creates_formation) [
        | inr refused ↦ simp refused (bad query_failed)
        | inl created ↦ simp created (elim (Bool-cases mgr.store.stores_genesis) [
          | inr refused ↦ simp refused (half refused)
          | inl stored ↦ simp stored good
        ])
      ]

  pub create_formation_cases :
      (P : Result FormationConfig × Db T → Type 0) (g : Rng) (d : Draws) (o a : Text)
      (pol : EnrollmentPolicy) (db : Db T)
      → ((e : Error) → P (err e, db))
      → (mgr.store.stores_genesis ≡ false
          → P (
            err query_failed,
            Backend.create_formation db o
                (formation_of mesh a pol (mesh.create g a (mesh_policy pol))),
          ))
      → ((org : Organization) (l : List FormationConfig) (bytes : Bytes)
          → IsAdmitted db o a org l
          → stored_as mesh mgr d (mesh.create g a (mesh_policy pol)) ≡ ok bytes
          → P (
            ok (formation_of mesh a pol (mesh.create g a (mesh_policy pol))),
            admitted db o (formation_of mesh a pol (mesh.create g a (mesh_policy pol))) bytes,
          ))
      → P (create_formation mesh mgr g d o a pol db)
  unfolding create_formation get_org
  create_formation_cases P g d o a pol db bad half good =
      elim (Result-cases (validate_identifier a)) [
        | inl (e, q) ↦ rw q (bad e)
        | inr (u, v) ↦ rw v (elim (Result-cases (Backend.get_org db o)) [
          | inl (e, q) ↦ rw q (bad e)
          | inr (none, q) ↦ rw q (bad org_not_found)
          | inr (some org, found) ↦ rw found (elim (Result-cases (Backend.list_formations db o)) [
            | inl (e, q) ↦ rw q (bad e)
            | inr (l, listed) ↦
                rw listed (elim (Bool-cases (leb org.quotas.max_formations (as_u32 (length l)))) [
                  | inl full ↦ simp full (bad quota_reached)
                  | inr room ↦ simp room (elim (Result-cases (Backend.get_formation db o a)) [
                    | inl (e, q) ↦ rw q (bad e)
                    | inr (some f, q) ↦ rw q (bad formation_exists)
                    | inr (none, unused) ↦
                        rw unused
                          (elim (Result-cases
                            (stored_as mesh mgr d (mesh.create g a (mesh_policy pol)))) [
                              | inl (e, q) ↦ rw q (bad e)
                              | inr (bytes, q) ↦ rw q (
                                  writes_cases P g d o a pol db bytes bad half (
                                    good org l bytes
                                      (record {
                                        valid = v;
                                        org_found = found;
                                        listed = listed;
                                        room = room;
                                        unused = unused;
                                      })
                                      q))
                            ])
                  ])
                ])
          ])
        ])
      ]
