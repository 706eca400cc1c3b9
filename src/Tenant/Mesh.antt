-- ===== src/Tenant/Mesh.antt =====
-- What the gateway uses of the library `peat-mesh`, which is not part of the repository. `G` is
-- the type `MeshGenesis`. The one law is that `decode` reads back what `encode` wrote.
use peat_gateway.Base.{ℕ, Text, Bytes, Option, some, ◌≡◌}
use peat_gateway.Crypto.Interfaces.{Rng}
use peat_gateway.Tenant.Models.{
  EnrollmentPolicy, open_policy, controlled, strict, MeshTier, authority, infrastructure, endpoint,
}
use peat_gateway.Tenant.Models.Permissions.{MeshBits}

-- `peat_mesh::security::MembershipPolicy`
pub data MembershipPolicy : Type 0 where
  open_membership controlled_membership strict_membership : MembershipPolicy

-- `peat_mesh::security::MeshTier`
pub data WireTier : Type 0 where
  enterprise regional tactical : WireTier

-- `peat_mesh::security::MeshCertificate`, as far as the gateway reads one
pub record RootCertificate : Type 0 where
  pub subject_public_key : Bytes
  pub node_id : Text
  pub issued_at_ms : ℕ
  pub expires_at_ms : ℕ

pub record Mesh (G : Type 0) : Type 0 where
  pub create : Rng → Text → MembershipPolicy → G
  pub mesh_id : G → Text
  pub authority_public_key : G → Bytes
  pub encode : G → Bytes
  pub decode : Bytes → Option G
  pub decode-encode : (g : G) → decode (encode g) ≡ some g
  -- `genesis.issue_certificate(public_key, node_id, tier, permissions, validity_ms).encode()`
  pub issue_certificate : G → Bytes → Text → WireTier → ℕ → ℕ → Bytes
  pub root_certificate : G → Text → RootCertificate
  pub bits : MeshBits

-- The `match` of `create_formation`
unfoldable pub mesh_policy : EnrollmentPolicy → MembershipPolicy
mesh_policy open_policy = open_membership
mesh_policy controlled = controlled_membership
mesh_policy strict = strict_membership

-- `MeshTier::to_mesh_tier` of tenant/models.rs
unfoldable pub to_mesh_tier : MeshTier → WireTier
to_mesh_tier authority = enterprise
to_mesh_tier infrastructure = regional
to_mesh_tier endpoint = tactical
