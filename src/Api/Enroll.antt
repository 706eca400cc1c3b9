-- ===== src/Api/Enroll.antt =====
-- api/enroll.rs: the enrollment handler.
pub mod Outcomes
pub mod Granted
pub mod Admits
pub mod NewTokens
pub mod Introspection
pub mod Vouched
use peat_gateway.Base.{
  ◌*◌, ℕ, ◌-◌, Text, Bytes, codes, strip_prefix, starts_with, ◌++◌, Bool, true, false, Option, none,
  some, List, [], ◌∷◌, Result, ok, err, Exec, pure, fail, lift, reads, writes, ◌>>=◌, ◌>>◌, map_err,
  replace_err, logged, attempted, ok_or, bad_request, unauthorized, forbidden, too_many_requests,
  internal, length, leb, nat_eq, not, if◌then◌else◌,
}
use peat_gateway.Storage.Redb.{Redb, Json}
use peat_gateway.Storage.Backend.{Db}
use peat_gateway.Crypto.Interfaces.{Aead, Hex, Rng, random_bytes}
use peat_gateway.Tenant.Models.{
  MeshTier, endpoint, EnrollmentPolicy, open_policy, controlled, strict, EnrollmentDecision,
  approved, denied, EnrollmentAuditEntry, EnrollmentToken, FormationConfig, IdpConfig, Organization,
}
use peat_gateway.Tenant.Models.Permissions.{to_mesh}
use peat_gateway.Tenant.Mesh.{Mesh, to_mesh_tier}
use peat_gateway.Tenant.Manager.{
  TenantManager, as_u32, get_org, get_formation, count_recent_enrollments, load_genesis,
}
use peat_gateway.Tenant.Tokens.{validate_and_consume_token}
use peat_gateway.Tenant.Identity.{list_idps, list_policy_rules, append_audit}
use peat_gateway.Api.Certificate.{EnrollRequest, try_issue_certificate}
use peat_gateway.Api.Claims.{Claims, Value, as_str}
use peat_gateway.Api.Policy.{evaluate_policy, default_decision}

pub record EnrollmentResponse : Type 0 where
  pub decision : EnrollmentDecision
  pub audit_id : Text
  pub certificate : Option Text
  pub mesh_id : Option Text
  pub authority_public_key : Option Text

-- The header `authorization`: missing, or with what `to_str` makes of it.
abbrev pub Authorization : Type 0
Authorization = Option (Option Text)

abbrev body_token : Option EnrollRequest → Option Text
body_token none = none
body_token (some b) = b.token

unfoldable pub extract_bearer : Authorization → Option EnrollRequest → Option Text
extract_bearer none body = body_token body
extract_bearer (some none) body = body_token body
extract_bearer (some (some val)) body = elim (strip_prefix val (codes "Bearer ")) [
  | some token ↦ some token
  | none ↦ body_token body
]

module _ ⦃hex : Hex⦄ where
  unfoldable pub validate_public_key : Text → Result (Unit {0})
  validate_public_key pk_hex = elim (hex.decode pk_hex) [
    | none ↦ err bad_request
    | some bytes ↦ if not (nat_eq (length bytes) 32) then err bad_request else ok tt
  ]

  -- `if let Some(ref b) = body { if let Some(ref pk) = b.public_key { … } }`
  unfoldable pub validate_body : Option EnrollRequest → Result (Unit {0})
  unfolding validate_public_key
  validate_body none = ok tt
  validate_body (some b) = elim b.public_key [ none ↦ ok tt | some pk ↦ validate_public_key pk ]

  unfoldable pub generate_id : Rng → Text
  generate_id rng = hex.encode (random_bytes 8 rng)

unfoldable pub build_audit :
    ℕ → Text → Text → Text → Text → Text → EnrollmentDecision → EnrollmentAuditEntry
build_audit now audit_id org_id app_id idp_id subject decision = record {
  audit_id = audit_id;
  org_id = org_id;
  app_id = app_id;
  idp_id = idp_id;
  subject = subject;
  decision = decision;
  timestamp_ms = now;
}

-- `idps.iter().find(|i| i.enabled)`
abbrev pub find_enabled : List IdpConfig → Option IdpConfig
find_enabled [] = none
find_enabled (i ∷ is) = let rest = find_enabled is in if i.enabled then some i else rest

abbrev text_or : Text → Option Value → Text
text_or t none = t
text_or t (some v) = elim (as_str v) [ none ↦ t | some s ↦ s ]

-- `claims.get("sub").and_then(|v| v.as_str()).unwrap_or("unknown")`
unfoldable pub subject_of : Claims → Text
subject_of claims = text_or (codes "unknown") (claims (codes "sub"))

-- What the handler takes from outside: the clock at three points, random bytes, and what
-- `introspect_oidc_token` learns of the identity provider.
pub record Outside : Type 0 where
  pub request_ms : ℕ
  pub token_ms : ℕ
  pub audit_ms : ℕ
  pub audit_rng : Rng
  pub introspect : Text → Text → Text → Text → Result Claims

-- The decision, the identity provider and the subject.
abbrev pub Verdict : Type 0
Verdict = EnrollmentDecision × (Text × Text)

module _ {T : Type 0} ⦃r : Redb T⦄ ⦃j : Json⦄ (out : Outside) (org_id app_id : Text) where
  -- the branch `bearer.starts_with("peat_")`
  unfoldable pub by_token : Text → Exec (Db T) Verdict
  by_token bearer = do
    token ← map_err unauthorized (validate_and_consume_token out.token_ms org_id app_id bearer)
    pure (default_decision, (codes "token", codes "token:" ++ token.token_id))

  -- the branch that asks the identity provider
  unfoldable pub by_idp : Text → Exec (Db T) Verdict
  by_idp bearer = do
    idps ← map_err bad_request (list_idps org_id)
    idp ← lift (ok_or (find_enabled idps) bad_request)
    claims ← lift (
        replace_err unauthorized
          (out.introspect idp.issuer_url idp.client_id idp.client_secret bearer))
    let subject : Text = subject_of claims
    rules ← map_err bad_request (list_policy_rules org_id)
    let decision : EnrollmentDecision = evaluate_policy rules claims
    pure (decision, (idp.idp_id, subject))

  -- `match formation.enrollment_policy`, after the check that it is not `Strict`
  unfoldable pub decide :
      Authorization → Option EnrollRequest → EnrollmentPolicy → Exec (Db T) Verdict
  unfolding by_token by_idp
  decide headers body open_policy = pure (default_decision, (codes "none", codes "anonymous"))
  decide headers body controlled = do
    bearer ← lift (ok_or (extract_bearer headers body) unauthorized)
    if starts_with bearer (codes "peat_") then by_token bearer else by_idp bearer
  decide headers body strict = fail forbidden

-- `match &decision { … Denied { reason } => return Err(forbidden(…)) }`
abbrev pub granted : EnrollmentDecision → Result (Unit {0})
granted (approved tier perms) = ok tt
granted (denied reason) = err forbidden

abbrev pub is_strict : EnrollmentPolicy → Bool
is_strict strict = true
is_strict open_policy = false
is_strict controlled = false

module _ {T G : Type 0} ⦃r : Redb T⦄ ⦃j : Json⦄ ⦃aead : Aead⦄ ⦃hex : Hex⦄ (mesh : Mesh G)
    (mgr : TenantManager) where
  -- from the comment `Record audit` to the end
  unfoldable pub finish :
      Outside → Option EnrollRequest → Text → Text → Verdict → Exec (Db T) EnrollmentResponse
  finish out body org_id app_id verdict = do
    let audit_id : Text = generate_id out.audit_rng
    let entry : EnrollmentAuditEntry =
        build_audit out.audit_ms audit_id org_id app_id verdict.1.0 verdict.1.1 verdict.0
    logged (attempted mgr.store.appends_audit (append_audit entry))
    lift (granted verdict.0)
    issued ← reads (λ db. ok (try_issue_certificate mesh mgr org_id app_id verdict.0 body db))
    pure (record {
      decision = verdict.0;
      audit_id = audit_id;
      certificate = issued.0;
      mesh_id = issued.1.0;
      authority_public_key = issued.1.1;
    })

  unfoldable pub enroll :
      Outside → Authorization → Option EnrollRequest → Text → Text → Exec (Db T) EnrollmentResponse
  unfolding decide validate_body finish
  enroll out headers body org_id app_id = do
    org ← map_err bad_request (get_org org_id)
    formation ← map_err bad_request (get_formation org_id app_id)
    lift (validate_body body)
    recent ← map_err internal (count_recent_enrollments org_id (out.request_ms - 3_600_000))
    if leb org.quotas.max_enrollments_per_hour (as_u32 recent)
        then fail too_many_requests
        else if is_strict formation.enrollment_policy
        then fail forbidden
        else do
          verdict ← decide out org_id app_id headers body formation.enrollment_policy
          finish out body org_id app_id verdict
