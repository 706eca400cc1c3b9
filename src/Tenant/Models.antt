-- ===== src/Tenant/Models.antt =====
-- tenant/models.rs: the data types. A `u32` or `u64` field is a native number; the operations
-- that compute with one write its wrap-around out. `mod Permissions` has the permission bits.
pub mod Permissions
use peat_gateway.Base.{ℕ, Text, Bytes, Bool, Option}

pub record OrgQuotas : Type 0 where
  pub max_formations : ℕ
  pub max_peers_per_formation : ℕ
  pub max_documents_per_formation : ℕ
  pub max_cdc_sinks : ℕ
  pub max_enrollments_per_hour : ℕ

abbrev pub default_quotas : OrgQuotas
default_quotas = record {
  max_formations = 10;
  max_peers_per_formation = 100;
  max_documents_per_formation = 10_000;
  max_cdc_sinks = 5;
  max_enrollments_per_hour = 1000;
}

pub record Organization : Type 0 where
  pub org_id : Text
  pub display_name : Text
  pub quotas : OrgQuotas
  pub created_at : ℕ

pub data EnrollmentPolicy : Type 0 where
  open_policy controlled strict : EnrollmentPolicy

pub record FormationConfig : Type 0 where
  pub app_id : Text
  pub mesh_id : Text
  pub enrollment_policy : EnrollmentPolicy

pub record EnrollmentToken : Type 0 where
  pub token_id : Text
  pub org_id : Text
  pub app_id : Text
  pub label : Text
  pub max_uses : Option ℕ
  pub uses : ℕ
  pub expires_at : Option ℕ
  pub created_at : ℕ
  pub revoked : Bool

pub data CdcSinkType : Type 0 where
  nats : Text → CdcSinkType
  kafka : Text → CdcSinkType
  webhook : Text → CdcSinkType

pub record CdcSinkConfig : Type 0 where
  pub sink_id : Text
  pub org_id : Text
  pub sink_type : CdcSinkType
  pub enabled : Bool
  pub created_at : ℕ

pub data PeerStatus : Type 0 where
  connected disconnected pending_peer : PeerStatus

pub record PeerInfo : Type 0 where
  pub peer_id : Text
  pub app_id : Text
  pub status : PeerStatus
  pub last_seen : ℕ

pub record IdpConfig : Type 0 where
  pub idp_id : Text
  pub org_id : Text
  pub issuer_url : Text
  pub client_id : Text
  pub client_secret : Text
  pub enabled : Bool
  pub created_at : ℕ

pub record IdpConfigResponse : Type 0 where
  pub idp_id : Text
  pub org_id : Text
  pub issuer_url : Text
  pub client_id : Text
  pub enabled : Bool
  pub created_at : ℕ

-- `impl From<IdpConfig> for IdpConfigResponse`
pub to_response : IdpConfig → IdpConfigResponse
to_response idp = record {
  idp_id = idp.idp_id;
  org_id = idp.org_id;
  issuer_url = idp.issuer_url;
  client_id = idp.client_id;
  enabled = idp.enabled;
  created_at = idp.created_at;
}

pub data MeshTier : Type 0 where
  authority infrastructure endpoint : MeshTier

pub record PolicyRule : Type 0 where
  pub rule_id : Text
  pub org_id : Text
  pub claim_key : Text
  pub claim_value : Text
  pub tier : MeshTier
  pub permissions : ℕ
  pub priority : ℕ

pub data EnrollmentDecision : Type 0 where
  approved : MeshTier → ℕ → EnrollmentDecision
  denied : Text → EnrollmentDecision

pub record EnrollmentAuditEntry : Type 0 where
  pub audit_id : Text
  pub org_id : Text
  pub app_id : Text
  pub idp_id : Text
  pub subject : Text
  pub decision : EnrollmentDecision
  pub timestamp_ms : ℕ
