-- ===== src/Api/Certificate.antt =====
-- api/enroll.rs: the request of an enrollment, and `try_issue_certificate`.
use peat_gateway.Base.{
  ℕ, ◌*◌, Text, Bytes, Option, none, some, Result, ok, err, length, nat_eq, if◌then◌else◌,
}
use peat_gateway.Storage.Redb.{Redb, Json}
use peat_gateway.Storage.Backend.{Db}
use peat_gateway.Crypto.Interfaces.{Aead, Hex}
use peat_gateway.Tenant.Models.{MeshTier, EnrollmentDecision, approved, denied}
use peat_gateway.Tenant.Models.Permissions.{to_mesh}
use peat_gateway.Tenant.Mesh.{Mesh, to_mesh_tier}
use peat_gateway.Tenant.Manager.{TenantManager, load_genesis}

pub record EnrollRequest : Type 0 where
  pub token : Option Text
  pub public_key : Option Text
  pub node_id : Option Text

-- certificate, mesh identifier, public key of the authority
abbrev pub Issued : Type 0
Issued = Option Text × (Option Text × Option Text)

abbrev pub nothing_issued : Issued
nothing_issued = (none, (none, none))

module _ {G : Type 0} ⦃hex : Hex⦄ (mesh : Mesh G) where
  abbrev pub issue : MeshTier → ℕ → Text → Bytes → Result G → Issued
  issue tier perms node_id pk (err e) = nothing_issued
  issue tier perms node_id pk (ok genesis) =
      let cert =
        mesh.issue_certificate genesis pk node_id (to_mesh_tier tier) (to_mesh mesh.bits perms)
          (24 * 60 * 60 * 1000) in
      (
        some (hex.encode cert),
        (some (mesh.mesh_id genesis), some (hex.encode (mesh.authority_public_key genesis))),
      )

  abbrev pub issue_for : MeshTier → ℕ → Text → Option Bytes → Result G → Issued
  issue_for tier perms node_id none genesis = nothing_issued
  issue_for tier perms node_id (some pk) genesis =
      if nat_eq (length pk) 32 then issue tier perms node_id pk genesis else nothing_issued

  abbrev pub issue_request : MeshTier → ℕ → Option Text → Option Text → Result G → Issued
  issue_request tier perms (some pk_hex) (some node_id) genesis =
      issue_for tier perms node_id (hex.decode pk_hex) genesis
  issue_request tier perms (some pk_hex) none genesis = nothing_issued
  issue_request tier perms none node_id genesis = nothing_issued

module _ {T G : Type 0} ⦃r : Redb T⦄ ⦃j : Json⦄ ⦃aead : Aead⦄ ⦃hex : Hex⦄ (mesh : Mesh G)
    (mgr : TenantManager) where
  unfoldable pub try_issue_certificate :
      Text → Text → EnrollmentDecision → Option EnrollRequest → Db T → Issued
  try_issue_certificate org_id app_id (denied reason) body db = nothing_issued
  try_issue_certificate org_id app_id (approved tier perms) none db = nothing_issued
  try_issue_certificate org_id app_id (approved tier perms) (some b) db =
      issue_request mesh tier perms b.public_key b.node_id
        (load_genesis mesh mgr org_id app_id db).0
