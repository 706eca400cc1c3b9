-- ===== src/Api/Enroll/Outcomes.antt =====
-- api/enroll.rs: the outcomes of an enrollment.
use peat_gateway.Base.{
  [], ◌∷◌, ◌>>=◌, ℕ, ◌≡◌, ◌∙◌, refl, ap, inl, inr, Text, codes, starts_with, ◌++◌, true, false,
  Option, none, some, Error, List, Result, ok, err, Result-cases, Option-cases, Bool-cases, map_err,
  bad_request, unauthorized, forbidden, arith,
}
use peat_gateway.Storage.Redb.{Redb, Json}
use peat_gateway.Storage.Keys.{token_key}
use peat_gateway.Storage.Backend
use peat_gateway.Storage.Backend.{Db}
use peat_gateway.Storage.Identity
use peat_gateway.Tenant.Models.{
  MeshTier, EnrollmentPolicy, open_policy, controlled, strict, EnrollmentDecision, approved,
  EnrollmentToken, IdpConfig, PolicyRule,
}
use peat_gateway.Tenant.Manager.{get_org}
use peat_gateway.Tenant.Tokens.{count_use}
use peat_gateway.Tenant.Tokens.Cases.{stored, IsUsable, consume_cases}
use peat_gateway.Tenant.Identity.{list_idps, list_policy_rules}
use peat_gateway.Api.Claims.{Claims}
use peat_gateway.Api.Policy.{evaluate_policy, default_decision}
use peat_gateway.Api.Policy.FirstMatch.{evaluate_policy_lem}
use peat_gateway.Api.Certificate.{EnrollRequest}
use peat_gateway.Api.Enroll.{
  endpoint, ◌∷◌, pure, Authorization, extract_bearer, find_enabled, Outside, Verdict, by_token,
  by_idp, decide, subject_of,
}

-- `evaluate_policy` never denies.
pub evaluate_policy_approves :
    (rules : List PolicyRule) (claims : Claims)
    → (tier : MeshTier) × (permissions : ℕ) × (evaluate_policy rules claims
        ≡ approved tier permissions)
evaluate_policy_approves rules claims = elim (evaluate_policy_lem claims rules) [
  | inl (rule, d, e) ↦ (rule.tier, rule.permissions, e)
  | inr (n, e) ↦ (endpoint, 0, e)
]

find_enabled-enabled :
    (idps : List IdpConfig) (idp : IdpConfig) → find_enabled idps ≡ some idp → idp.enabled ≡ true
find_enabled-enabled [] idp h = ground arith
find_enabled-enabled (i ∷ is) idp h = elim (Bool-cases i.enabled) [
  | inl on ↦ ap (λ (x : IdpConfig). x.enabled) {x = idp} {y = i} (ground arith) ∙ on
  | inr off ↦ find_enabled-enabled is idp (simp off at h)
]

module _ {T : Type 0} ⦃r : Redb T⦄ ⦃j : Json⦄ (out : Outside) (o a : Text) (headers : Authorization)
    (body : Option EnrollRequest) (db : Db T) where
  -- What a decision may rest on, and the database it leaves: an open formation; a usable token of
  -- the formation, which is counted; or claims that an enabled identity provider of the
  -- organisation vouches for, by the organisation's rules.
  pub data Grounds : EnrollmentPolicy → EnrollmentDecision → Db T → Type 0 where
    anyone : Grounds open_policy default_decision db
    token_used :
        (bearer : Text) (t : EnrollmentToken)
        → extract_bearer headers body ≡ some bearer
        → starts_with bearer (codes "peat_") ≡ true
        → stored db (token_key o bearer) ≡ ok (some t)
        → IsUsable a out.token_ms t
        → Grounds controlled default_decision (Backend.update_token db (count_use t))
    idp_vouched :
        (bearer : Text) (idps : List IdpConfig) (idp : IdpConfig) (claims : Claims)
        (rules : List PolicyRule)
        → extract_bearer headers body ≡ some bearer
        → starts_with bearer (codes "peat_") ≡ false
        → Identity.list_idps db o ≡ ok idps
        → find_enabled idps ≡ some idp
        → idp.enabled ≡ true
        → out.introspect idp.issuer_url idp.client_id idp.client_secret bearer ≡ ok claims
        → Identity.list_policy_rules db o ≡ ok rules
        → Grounds controlled (evaluate_policy rules claims) db

  -- A verdict that approves, on grounds.
  pub record IsGrounded (pol : EnrollmentPolicy) (v : Verdict) (db₁ : Db T) : Type 0 where
    pub grounds : Grounds pol v.0 db₁
    pub tier : MeshTier
    pub permissions : ℕ
    pub approves : v.0 ≡ approved tier permissions

  module _ (P : Result Verdict × Db T → Type 0) (bad : (e : Error) → P (err e, db))
      (good : (v : Verdict) (db₁ : Db T) → IsGrounded controlled v db₁ → P (ok v, db₁))
      (bearer : Text) (given : extract_bearer headers body ≡ some bearer) where
    by_token_cases : starts_with bearer (codes "peat_") ≡ true → P (by_token out o a bearer db)
    unfolding by_token
    by_token_cases h =
        consume_cases
          (λ q. P (
            (map_err unauthorized (λ s. q) >>= λ token.
            pure (default_decision, (codes "token", codes "token:" ++ token.token_id)))
              db))
          out.token_ms o a bearer db (λ e. bad unauthorized)
          λ t found usable. good _ _ (record {
            grounds = token_used bearer t given h found usable;
            tier = _;
            permissions = _;
            approves = refl;
          })

    vouched :
        starts_with bearer (codes "peat_") ≡ false
        → (idps : List IdpConfig) (idp : IdpConfig) (claims : Claims) (rules : List PolicyRule)
        → Identity.list_idps db o ≡ ok idps
        → find_enabled idps ≡ some idp
        → out.introspect idp.issuer_url idp.client_id idp.client_secret bearer ≡ ok claims
        → Identity.list_policy_rules db o ≡ ok rules
        → P (ok (evaluate_policy rules claims, (idp.idp_id, subject_of claims)), db)
    vouched h idps idp claims rules qi qe qc qr =
        let (tier, permissions, e) = evaluate_policy_approves rules claims in
        good _ db (record {
          grounds =
              idp_vouched bearer idps idp claims rules given h qi qe
                (find_enabled-enabled idps idp qe) qc qr;
          tier = tier;
          permissions = permissions;
          approves = e;
        })

    by_idp_cases : starts_with bearer (codes "peat_") ≡ false → P (by_idp out o a bearer db)
    unfolding by_idp list_idps list_policy_rules get_org
    by_idp_cases h = elim (Result-cases (Backend.get_org db o)) [
      | inl (e, q) ↦ rw q (bad bad_request)
      | inr (none, q) ↦ rw q (bad bad_request)
      | inr (some org, q) ↦ rw q (elim (Result-cases (Identity.list_idps db o)) [
        | inl (e, qi) ↦ rw qi (bad bad_request)
        | inr (idps, qi) ↦ rw qi (elim (Option-cases (find_enabled idps)) [
          | inl qe ↦ rw qe (bad bad_request)
          | inr (idp, qe) ↦
              rw qe
                (elim (Result-cases
                  (out.introspect idp.issuer_url idp.client_id idp.client_secret bearer)) [
                    | inl (e, qc) ↦ rw qc (bad unauthorized)
                    | inr (claims, qc) ↦
                        rw (qc, q)
                          (elim (Result-cases (Identity.list_policy_rules db o)) [
                            | inl (e, qr) ↦ rw qr (bad bad_request)
                            | inr (rules, qr) ↦ rw qr (vouched h idps idp claims rules qi qe qc qr)
                          ])
                  ])
        ])
      ])
    ]

  pub decide_cases :
      (P : Result Verdict × Db T → Type 0) (pol : EnrollmentPolicy)
      → ((e : Error) → P (err e, db))
      → ((v : Verdict) (db₁ : Db T) → IsGrounded pol v db₁ → P (ok v, db₁))
      → P (decide out o a headers body pol db)
  unfolding decide
  decide_cases P open_policy bad good =
      good _ db (record { grounds = anyone; tier = _; permissions = _; approves = refl })
  decide_cases P strict bad good = bad forbidden
  decide_cases P controlled bad good = elim (Option-cases (extract_bearer headers body)) [
    | inl nothing ↦ rw nothing (bad unauthorized)
    | inr (bearer, given) ↦ rw given (elim (Bool-cases (starts_with bearer (codes "peat_"))) [
      | inl token ↦ rw token (by_token_cases P bad good bearer given token)
      | inr other ↦ rw other (by_idp_cases P bad good bearer given other)
    ])
  ]
