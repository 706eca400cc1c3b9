-- ===== src/Api/Handlers/Formations.antt =====
-- api/formations.rs: the peers, documents and certificates of a formation. What the mesh knows comes
-- from the broker that is registered for it.
use peat_gateway.Base.{
  ℕ, ◌+◌, Text, codes, Bool, true, false, Option, none, some, is_some, List, [], ◌∷◌, ◌++◌, map,
  take, Exec, pure, ◌>>=◌, ◌>>◌, map_err, not_found, internal, if◌then◌else◌,
}
use peat_gateway.Storage.Redb.{Redb, Json}
use peat_gateway.Storage.Backend.{Db}
use peat_gateway.Crypto.Interfaces.{Aead, Hex}
use peat_gateway.Tenant.Mesh.{Mesh, RootCertificate}
use peat_gateway.Tenant.Models.{
  PeerInfo, connected, disconnected, EnrollmentDecision, approved, denied, EnrollmentAuditEntry,
}
use peat_gateway.Tenant.Manager
use peat_gateway.Tenant.Manager.{TenantManager}
use peat_gateway.Tenant.Identity
use peat_gateway.Api.Claims.{
  Value, Members, null, boolean, number, string, array, object, no_member, member,
}
use peat_gateway.Api.Replies.{DocumentSummary, CertificateSummary}
use peat_gateway.Api.Registry
use peat_gateway.Api.Registry.{BrokerMap}
use peat_gateway.Ingest.{PeerSummary, member_of, value_at, first_of, text_in}
use peat_gateway.Ingest.Broker.{MeshBrokerState}

-- `match state.mesh.get(…) { Some(b) => …, None => return Ok(Json(Vec::new())) }`
abbrev pub listed_by : {A : Type 0} → (MeshBrokerState → List A) → Option MeshBrokerState → List A
listed_by f none = []
listed_by f (some broker) = f broker

abbrev pub peer_info : Text → ℕ → PeerSummary → PeerInfo
peer_info app_id now_ms s = record {
  peer_id = s.id;
  app_id = app_id;
  status = if s.connected then connected else disconnected;
  last_seen = now_ms;
}

-- `obj.entry("_collection").or_insert_with(|| …)`, where the document is an object
unfoldable pub tagged : Text → Value → Value
tagged collection (object ms) =
    if is_some (member_of (codes "_collection") ms)
    then object ms
    else object (member (codes "_collection") (string collection) ms)
tagged collection null = null
tagged collection (boolean b) = boolean b
tagged collection (number n) = number n
tagged collection (string s) = string s
tagged collection (array vs) = array vs

abbrev pub default_collections : List Text
default_collections =
    codes "cot-broadcast" ∷ codes "contacts" ∷ codes "markers" ∷ codes "missions" ∷ []

abbrev pub tagged_all : Text → Option (List Value) → List Value
tagged_all collection none = []
tagged_all collection (some docs) = map (tagged collection) docs

-- `for collection in [ … ]`
unfoldable pub aggregated : MeshBrokerState → List Text → List Value
aggregated broker [] = []
aggregated broker (c ∷ cs) = tagged_all c (broker.list_documents c) ++ aggregated broker cs

abbrev pub own_or : List Value → Option (List Value) → List Value
own_or rest none = rest
own_or rest (some docs) = docs

unfoldable pub documents_of : Text → MeshBrokerState → List Value
documents_of app_id broker =
    own_or (aggregated broker default_collections) (broker.list_documents app_id)

unfoldable pub count_members : Members → ℕ
count_members no_member = 0
count_members (member k v ms) = count_members ms + 1

-- `val.as_object().map(|m| m.len() as u64).unwrap_or(0)`
unfoldable pub key_count_of : Value → ℕ
unfolding count_members
key_count_of (object ms) = count_members ms
key_count_of null = 0
key_count_of (boolean b) = 0
key_count_of (number n) = 0
key_count_of (string s) = 0
key_count_of (array vs) = 0

abbrev pub unwrap_or : {A : Type 0} → A → Option A → A
unwrap_or d none = d
unwrap_or d (some a) = a

abbrev pub modified_at : (Value → Option ℕ) → Option Value → Option ℕ
modified_at as_u64 none = none
modified_at as_u64 (some v) = as_u64 v

-- `as_u64` is `serde_json::Value::as_u64`.
unfoldable pub summarize : (Value → Option ℕ) → Value → DocumentSummary
summarize as_u64 val = record {
  doc_id =
      unwrap_or (codes "unknown")
        (text_in (first_of (value_at (codes "_id") val) (value_at (codes "uid") val)));
  key_count = key_count_of val;
  last_modified = unwrap_or 0 (modified_at as_u64 (value_at (codes "_last_modified") val));
}

abbrev pub authority_certificate : ⦃hex : Hex⦄ → RootCertificate → CertificateSummary
authority_certificate ⦃hex⦄ root_cert = record {
  peer_id = root_cert.node_id;
  fingerprint = hex.encode (take 8 root_cert.subject_public_key);
  issued_at = root_cert.issued_at_ms;
  expires_at = root_cert.expires_at_ms;
  revoked = false;
}

abbrev pub enrolled_certificate : ⦃hex : Hex⦄ → EnrollmentAuditEntry → CertificateSummary
enrolled_certificate ⦃hex⦄ entry = record {
  peer_id = entry.subject;
  fingerprint = hex.encode (take 8 entry.subject);
  issued_at = entry.timestamp_ms;
  expires_at = 0;
  revoked = false;
}

-- `if let EnrollmentDecision::Approved { .. } = &entry.decision`
abbrev pub is_approved : EnrollmentDecision → Bool
is_approved (approved tier permissions) = true
is_approved (denied reason) = false

-- `for entry in audit_entries`
unfoldable pub approved_certificates :
    ⦃hex : Hex⦄ → List EnrollmentAuditEntry → List CertificateSummary
approved_certificates [] = []
approved_certificates (entry ∷ entries) =
    let rest = approved_certificates entries in
    if is_approved entry.decision then enrolled_certificate entry ∷ rest else rest

module _ {T : Type 0} ⦃r : Redb T⦄ ⦃j : Json⦄ where
  unfoldable pub list_peers : BrokerMap → ℕ → Text → Text → Exec (Db T) (List PeerInfo)
  list_peers mesh now_ms org_id app_id = do
    map_err not_found (Manager.get_formation org_id app_id)
    pure (
        listed_by (λ broker. map (peer_info app_id now_ms) broker.list_peers)
          (Registry.get org_id app_id mesh))

  unfoldable pub list_documents :
      (Value → Option ℕ) → BrokerMap → Text → Text → Exec (Db T) (List DocumentSummary)
  list_documents as_u64 mesh org_id app_id = do
    map_err not_found (Manager.get_formation org_id app_id)
    pure (
        listed_by (λ broker. map (summarize as_u64) (documents_of app_id broker))
          (Registry.get org_id app_id mesh))

  unfoldable pub list_certificates :
      {G : Type 0} ⦃aead : Aead⦄ ⦃hex : Hex⦄
      → Mesh G
      → TenantManager
      → Text
      → Text
      → Exec (Db T) (List CertificateSummary)
  list_certificates mesh mgr org_id app_id = do
    map_err not_found (Manager.get_formation org_id app_id)
    genesis ← map_err internal (Manager.load_genesis mesh mgr org_id app_id)
    let authority = authority_certificate (mesh.root_certificate genesis (codes "authority-0"))
    audit_entries ← map_err internal (Identity.list_audit org_id (some app_id) 1000)
    pure (authority ∷ approved_certificates audit_entries)
