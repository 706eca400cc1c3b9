-- ===== src/Api/Enroll/Admits.antt =====
-- api/enroll.rs: an enrollment that has grounds succeeds.
use peat_gateway.Base.{codes, ◌++◌, ◌∙◌, ℕ, ◌≡◌, refl, Text, Option, some, false, ok, leb}
use peat_gateway.Storage.Redb.{Redb, Json}
use peat_gateway.Storage.Backend
use peat_gateway.Storage.Backend.{Db}
use peat_gateway.Crypto.Interfaces.{Aead, Hex}
use peat_gateway.Tenant.Models.{
  Organization, FormationConfig, EnrollmentPolicy, EnrollmentDecision, MeshTier, approved,
}
use peat_gateway.Tenant.Mesh.{Mesh}
use peat_gateway.Tenant.Manager.{
  TenantManager, as_u32, get_org, get_formation, count_recent_enrollments,
}
use peat_gateway.Tenant.Identity.{list_idps, list_policy_rules}
use peat_gateway.Tenant.Tokens.{count_use, validate_and_consume_token}
use peat_gateway.Api.Certificate.{EnrollRequest}
use peat_gateway.Api.Policy.{default_decision, evaluate_policy}
use peat_gateway.Api.Enroll.{
  Authorization, Outside, Verdict, EnrollmentResponse, enroll, decide, by_token, by_idp,
  validate_body, is_strict, subject_of,
}
use peat_gateway.Api.Enroll.Outcomes.{
  Grounds, anyone, token_used, idp_vouched, evaluate_policy_approves,
}
use peat_gateway.Api.Enroll.Granted.{
  audited, since, finish_lem, response_to, count_recent_enrollments-state,
}

module _ {T : Type 0} ⦃r : Redb T⦄ ⦃j : Json⦄ {out : Outside} {o a : Text} {headers : Authorization}
    {body : Option EnrollRequest} {db : Db T} where
  Grounds-lenient :
      {p : EnrollmentPolicy} {d : EnrollmentDecision} {db₁ : Db T}
      → Grounds out o a headers body db p d db₁
      → is_strict p ≡ false
  Grounds-lenient anyone = refl
  Grounds-lenient (token_used bearer t b0 b1 b2 b3) = refl
  Grounds-lenient (idp_vouched bearer idps idp claims rules b0 b1 b2 b3 b4 b5 b6) = refl

  Grounds-approves :
      {p : EnrollmentPolicy} {d : EnrollmentDecision} {db₁ : Db T}
      → Grounds out o a headers body db p d db₁
      → (tier : MeshTier) × (permissions : ℕ) × (d ≡ approved tier permissions)
  Grounds-approves anyone = (_, _, refl)
  Grounds-approves (token_used bearer t b0 b1 b2 b3) = (_, _, refl)
  Grounds-approves (idp_vouched bearer idps idp claims rules b0 b1 b2 b3 b4 b5 b6) =
      evaluate_policy_approves rules claims

  decide-Grounds :
      {org : Organization} {p : EnrollmentPolicy} {d : EnrollmentDecision} {db₁ : Db T}
      → Backend.get_org db o ≡ ok (some org)
      → Grounds out o a headers body db p d db₁
      → (v : Verdict) × (decide out o a headers body p db ≡ (ok v, db₁)) × (v.0 ≡ d)
  unfolding decide by_token by_idp validate_and_consume_token list_idps list_policy_rules get_org
      Backend.get_token
  decide-Grounds found anyone = (_, refl, refl)
  decide-Grounds found (token_used bearer t given prefixed there usable) =
      let v : Verdict = (default_decision, (codes "token", codes "token:" ++ t.token_id)) in
      (
        v,
        rw (given, prefixed, there)
            (simp (usable.same_app, usable.not_revoked, usable.not_expired, usable.not_exhausted)
              (unfold count_use in refl)),
        refl,
      )
  decide-Grounds found
        (idp_vouched bearer idps idp claims rules given other listed first on vouches ruled) =
      let v : Verdict = (evaluate_policy rules claims, (idp.idp_id, subject_of claims)) in
      (v, rw (given, other, found, listed, first, vouches, found, ruled) refl, refl)

module _ {T G : Type 0} ⦃r : Redb T⦄ ⦃j : Json⦄ ⦃aead : Aead⦄ ⦃hex : Hex⦄ (mesh : Mesh G)
    (mgr : TenantManager) (out : Outside) (headers : Authorization) (body : Option EnrollRequest)
    (o a : Text) (db : Db T) where
  -- What the handler checks before it decides.
  pub record IsReceived (org : Organization) (f : FormationConfig) : Type 0 where
    pub org_found : Backend.get_org db o ≡ ok (some org)
    pub formation_found : Backend.get_formation db o a ≡ ok (some f)
    pub body_valid : validate_body body ≡ ok tt
    pub recent : ℕ
    pub counted :
        (count_recent_enrollments o (since mesh mgr out headers body o a db) db).0 ≡ ok recent
    pub room : leb org.quotas.max_enrollments_per_hour (as_u32 recent) ≡ false

  -- An enrollment with a valid body, in an organisation and a formation that exist, succeeds
  -- with the decision that its grounds are for, if the count of the enrollments of the last
  -- hour, taken as a u32, is below the organisation's limit and there are grounds: the formation
  -- is open, or the request carries a usable token of the formation, or an enabled identity
  -- provider of the organisation, the first of the list, vouches for it.
  pub enroll-Grounds :
      (org : Organization) (f : FormationConfig) (d : EnrollmentDecision) (db₁ : Db T)
      → IsReceived org f
      → Grounds out o a headers body db f.enrollment_policy d db₁
      → (response : EnrollmentResponse) × ((enroll mesh mgr out headers body o a db).0
          ≡ ok response)
        × (response.decision ≡ d)
  unfolding enroll get_org get_formation
  enroll-Grounds org f d db₁ w g =
      let (v, decided, same) = decide-Grounds w.org_found g in
      let (tier, permissions, approves) = Grounds-approves g in
      (
        response_to mesh mgr out headers body o a db v
            (audited mesh mgr out headers body o a db v db₁),
        rw
            (
              w.org_found,
              w.formation_found,
              w.body_valid,
              count_recent_enrollments-state o (since mesh mgr out headers body o a db) db,
              w.counted,
              w.room,
              Grounds-lenient g,
              decided,
              finish_lem mesh mgr out headers body o a db v db₁ tier permissions (same ∙ approves),
            )
            refl,
        same,
      )
