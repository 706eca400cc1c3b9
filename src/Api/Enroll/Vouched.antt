-- ===== src/Api/Enroll/Vouched.antt =====
-- api/enroll.rs: what an identity provider has answered where its word admits a device.
use peat_gateway.Base.{
  ◌∙◌, List, ◌≡◌, refl, sym, ap, inl, inr, Text, codes, starts_with, true, false, Option, none,
  some, ok, Result-cases, Option-cases, subst,
}
use peat_gateway.Storage.Redb.{Redb, Json}
use peat_gateway.Storage.Backend
use peat_gateway.Storage.Identity
use peat_gateway.Storage.Backend.{Db}
use peat_gateway.Crypto.Interfaces.{Aead, Hex}
use peat_gateway.Tenant.Models.{
  FormationConfig, IdpConfig, EnrollmentPolicy, controlled, EnrollmentDecision,
}
use peat_gateway.Tenant.Mesh.{Mesh}
use peat_gateway.Tenant.Manager.{TenantManager}
use peat_gateway.Api.Certificate.{EnrollRequest}
use peat_gateway.Api.Claims.{Claims, Value, Members, null, boolean, number, string, array, object}
use peat_gateway.Api.Enroll.{
  Authorization, Outside, EnrollmentResponse, enroll, extract_bearer, find_enabled,
}
use peat_gateway.Api.Enroll.Introspection.{
  Response, no_response, responds, Web, json_of, map_of, if_active, discovery_url, from_userinfo,
  introspect_at, introspect_oidc_token,
}
use peat_gateway.Api.Enroll.Outcomes.{Grounds, anyone, token_used, idp_vouched}
use peat_gateway.Api.Enroll.Granted.{enroll-ok}
use peat_gateway.Ingest.{member_of, value_at, text_in}

map_of-ok : (q : Response) {ms : Members} → map_of q ≡ ok ms → q ≡ responds true (some (object ms))
map_of-ok no_response h = cc
map_of-ok (responds false body) h = cc
map_of-ok (responds true none) h = cc
map_of-ok (responds true (some (object ms))) h = cc
map_of-ok (responds true (some null)) h = cc
map_of-ok (responds true (some (boolean b))) h = cc
map_of-ok (responds true (some (number n))) h = cc
map_of-ok (responds true (some (string s))) h = cc
map_of-ok (responds true (some (array vs))) h = cc

if_active-ok :
    (body : Members) (v : Option Value) {c : Claims}
    → if_active body v ≡ ok c
    → v ≡ some (boolean true)
if_active-ok body none h = cc
if_active-ok body (some null) h = cc
if_active-ok body (some (boolean true)) h = refl
if_active-ok body (some (boolean false)) h = cc
if_active-ok body (some (number n)) h = cc
if_active-ok body (some (string s)) h = cc
if_active-ok body (some (array vs)) h = cc
if_active-ok body (some (object ms)) h = cc

module _ (web : Web) (issuer client_id client_secret bearer : Text) where
  -- The provider that the issuer's discovery document describes has an introspection endpoint,
  -- which calls the token active; or it has none, and its userinfo endpoint accepts the token.
  pub data Vouches : Type 0 where
    introspected :
        (discovery : Value) (url : Text) (ms : Members)
        → json_of (web.get (discovery_url issuer)) ≡ ok discovery
        → text_in (value_at (codes "introspection_endpoint") discovery) ≡ some url
        → web.post_token url client_id client_secret bearer ≡ responds true (some (object ms))
        → member_of (codes "active") ms ≡ some (boolean true)
        → Vouches
    accepted :
        (discovery : Value) (url : Text) (ms : Members)
        → json_of (web.get (discovery_url issuer)) ≡ ok discovery
        → text_in (value_at (codes "introspection_endpoint") discovery) ≡ none
        → text_in (value_at (codes "userinfo_endpoint") discovery) ≡ some url
        → web.get_bearing url bearer ≡ responds true (some (object ms))
        → Vouches

  from_introspection :
      (discovery : Value) (url : Text) {claims : Claims}
      → json_of (web.get (discovery_url issuer)) ≡ ok discovery
      → text_in (value_at (codes "introspection_endpoint") discovery) ≡ some url
      → introspect_at web client_id client_secret bearer discovery (some url) ≡ ok claims
      → Vouches
  from_introspection discovery url found named h =
      elim (Result-cases (map_of (web.post_token url client_id client_secret bearer))) [
        | inl (e, q) ↦ let bad = rw q at h in absurd cc
        | inr (ms, q) ↦
            introspected discovery url ms found named (map_of-ok _ q)
              (if_active-ok ms (member_of (codes "active") ms) (rw q at h))
      ]

  through_userinfo :
      (discovery : Value) {claims : Claims}
      → json_of (web.get (discovery_url issuer)) ≡ ok discovery
      → text_in (value_at (codes "introspection_endpoint") discovery) ≡ none
      → from_userinfo web client_id client_secret bearer discovery ≡ ok claims
      → Vouches
  unfolding from_userinfo
  through_userinfo discovery found unnamed h =
      elim (Option-cases (text_in (value_at (codes "userinfo_endpoint") discovery))) [
        | inl none_named ↦ let bad = rw none_named at h in absurd cc
        | inr (url, named) ↦ elim (Result-cases (map_of (web.get_bearing url bearer))) [
          | inl (e, q) ↦ let bad = rw (named, q) at h in absurd cc
          | inr (ms, q) ↦ accepted discovery url ms found unnamed named (map_of-ok _ q)
        ]
      ]

  introspect-Vouches :
      {claims : Claims}
      → introspect_oidc_token web issuer client_id client_secret bearer ≡ ok claims
      → Vouches
  unfolding introspect_oidc_token
  introspect-Vouches h = elim (Result-cases (json_of (web.get (discovery_url issuer)))) [
    | inl (e, q) ↦ let bad = rw q at h in absurd cc
    | inr (discovery, q) ↦
        elim (Option-cases (text_in (value_at (codes "introspection_endpoint") discovery))) [
          | inl unnamed ↦ through_userinfo discovery q unnamed (rw (q, unnamed) at h)
          | inr (url, named) ↦ from_introspection discovery url q named (rw (q, named) at h)
        ]
  ]

-- The handler with the provider that `reqwest` reaches.
abbrev pub asking : Web → Outside → Outside
asking web out = record out { introspect = introspect_oidc_token web }

module _ {T : Type 0} ⦃r : Redb T⦄ ⦃j : Json⦄ (web : Web) (out : Outside) (o a : Text)
    (headers : Authorization) (body : Option EnrollRequest) (db : Db T) (bearer : Text) where
  -- An enabled identity provider of the organisation, which vouches for the bearer.
  pub record IsVouched : Type 0 where
    pub idps : List IdpConfig
    pub idp : IdpConfig
    pub listed : Identity.list_idps db o ≡ ok idps
    pub first : find_enabled idps ≡ some idp
    pub enabled : idp.enabled ≡ true
    pub vouches : Vouches web idp.issuer_url idp.client_id idp.client_secret bearer

  Grounds-IsVouched :
      extract_bearer headers body ≡ some bearer
      → starts_with bearer (codes "peat_") ≡ false
      → {p : EnrollmentPolicy} {d : EnrollmentDecision} {db₁ : Db T}
      → Grounds (asking web out) o a headers body db p d db₁
      → p ≡ controlled
      → IsVouched
  Grounds-IsVouched given other anyone closed = absurd cc
  Grounds-IsVouched given other (token_used b t given' prefixed b2 b3) closed =
      let same : b ≡ bearer = cc in
      let clash : true ≡ false =
        sym prefixed ∙ ap (λ s. starts_with s (codes "peat_")) same ∙ other in
      absurd cc
  Grounds-IsVouched given other
        (idp_vouched b idps idp claims rules given' b1 listed first on vouches b6) closed =
      let same : b ≡ bearer = cc in
      record {
        idps = idps;
        idp = idp;
        listed = listed;
        first = first;
        enabled = on;
        vouches =
            subst (Vouches web idp.issuer_url idp.client_id idp.client_secret) same
              (introspect-Vouches web idp.issuer_url idp.client_id idp.client_secret b vouches);
      }

module _ {T G : Type 0} ⦃r : Redb T⦄ ⦃j : Json⦄ ⦃aead : Aead⦄ ⦃hex : Hex⦄ (mesh : Mesh G)
    (mgr : TenantManager) (web : Web) (out : Outside) (headers : Authorization)
    (body : Option EnrollRequest) (o a : Text) (db : Db T) where
  -- An enrollment in a controlled formation that succeeds with a bearer that is no enrollment
  -- token has an identity provider that vouches for it, the first one that is enabled in the
  -- listing of the organisation: the introspection endpoint of its discovery document calls the
  -- bearer active, with a status of success, or there is no such endpoint, and its userinfo
  -- endpoint accepts the bearer.
  pub enroll-IsVouched :
      (response : EnrollmentResponse) (f : FormationConfig) (bearer : Text)
      → (enroll mesh mgr (asking web out) headers body o a db).0 ≡ ok response
      → Backend.get_formation db o a ≡ ok (some f)
      → f.enrollment_policy ≡ controlled
      → extract_bearer headers body ≡ some bearer
      → starts_with bearer (codes "peat_") ≡ false
      → IsVouched web out o a headers body db bearer
  enroll-IsVouched response f bearer admitted found closed given other =
      let (v, db₁, g, decided, audited) =
        enroll-ok mesh mgr (asking web out) headers body o a db response admitted in
      let same : f ≡ g.formation = cc (g.formation_found) in
      Grounds-IsVouched web out o a headers body db bearer given other g.grounded.grounds
        (subst (λ x. x.enrollment_policy ≡ controlled) same closed)
