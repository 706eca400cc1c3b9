-- ===== src/Api/Enroll/NewTokens.antt =====
-- api/enroll.rs and tenant/manager.rs: a device enrolls with a token that was made for it.
use peat_gateway.Base.{
  Result-cases, inl, inr, codes, ◌++◌, ◌∙◌, subst, ==_refl, starts_with, ℕ, ◌≡◌, refl, sym, ap,
  Text, Option, none, some, false, ok,
}
use peat_gateway.Storage.Redb.{Redb, Json}
use peat_gateway.Storage.Backend
use peat_gateway.Storage.Backend.{Db}
use peat_gateway.Storage.Identity
use peat_gateway.Crypto.Interfaces.{Aead, Hex, Rng, random_bytes}
use peat_gateway.Tenant.Models.{EnrollmentToken, controlled, Organization, FormationConfig}
use peat_gateway.Tenant.Mesh.{Mesh}
use peat_gateway.Tenant.Manager.{
  usize_max, TenantManager, get_org, get_formation, count_recent_enrollments,
}
use peat_gateway.Storage.Keys.{token_key}
use peat_gateway.Tenant.Tokens.Valid.{stored-update}
use peat_gateway.Tenant.Validate.{validate_non_empty}
use peat_gateway.Tenant.Tokens.{create_token, expired, exhausted, count_use}
use peat_gateway.Tenant.Tokens.Cases.{IsUsable, stored}
use peat_gateway.Api.Certificate.{EnrollRequest}
use peat_gateway.Api.Policy.{default_decision}
use peat_gateway.Api.Enroll.{Authorization, Outside, EnrollmentResponse, enroll, extract_bearer}
use peat_gateway.Api.Enroll.Outcomes.{Grounds, token_used}
use peat_gateway.Api.Enroll.Admits.{IsReceived, enroll-Grounds}

module _ {T G : Type 0} ⦃r : Redb T⦄ ⦃j : Json⦄ ⦃aead : Aead⦄ ⦃hex : Hex⦄ (mesh : Mesh G)
    (mgr : TenantManager) (out : Outside) (headers : Authorization) (body : Option EnrollRequest)
    (o a : Text) (db : Db T) (rng : Rng) (now : ℕ) (label : Text)
    (max_uses expires_at : Option ℕ) where
  -- the token that `create_token` makes
  abbrev pub new_token : EnrollmentToken
  new_token = record {
    token_id = codes "peat_" ++ hex.encode (random_bytes 16 rng);
    org_id = o;
    app_id = a;
    label = label;
    max_uses = max_uses;
    uses = 0;
    expires_at = expires_at;
    created_at = now;
    revoked = false;
  }

  create_token_made :
      (org : Organization) (f : FormationConfig)
      → Backend.get_org db o ≡ ok (some org)
      → Backend.get_formation db o a ≡ ok (some f)
      → validate_non_empty label ≡ ok tt
      → create_token rng now o a label max_uses expires_at db
        ≡ (ok new_token, Backend.create_token db new_token)
  unfolding create_token get_org get_formation
  create_token_made org f found there named = rw (named, found, there) refl

  stored_new :
      stored (Backend.create_token db new_token) (token_key o new_token.token_id)
      ≡ ok (some new_token)
  stored_new =
      let key = token_key o new_token.token_id in
      unfold Backend.update_token in (stored-update db new_token key ∙ rw (==_refl key) refl)

  new_token-IsUsable :
      expired expires_at out.token_ms ≡ false
      → exhausted max_uses 0 ≡ false
      → IsUsable a out.token_ms new_token
  new_token-IsUsable timely room = record {
    same_app = ==_refl a;
    not_revoked = refl;
    not_expired = timely;
    not_exhausted = room;
  }

  -- Tokens do not count.
  counted_new :
      (from_ms : ℕ)
      → (count_recent_enrollments o from_ms (Backend.create_token db new_token)).0
        ≡ (count_recent_enrollments o from_ms db).0
  unfolding count_recent_enrollments Identity.list_audit Backend.create_token
  counted_new from_ms = elim (Result-cases (Identity.list_audit db o none usize_max)) [
    | inl (e, q) ↦ rw q refl
    | inr (l, q) ↦ rw q refl
  ]

  -- If a device presents a token right after create_token was called for it, with a label, in an
  -- organisation and a controlled formation that exist, then the creation succeeds and the
  -- enrollment is admitted as an endpoint without permissions, given that the token allows a use
  -- and has not expired, the body is valid, and the count of the last hour is below the limit.
  pub create_token-enroll :
      (org : Organization) (f : FormationConfig)
      → IsReceived mesh mgr out headers body o a db org f
      → f.enrollment_policy ≡ controlled
      → validate_non_empty label ≡ ok tt
      → expired expires_at out.token_ms ≡ false
      → exhausted max_uses 0 ≡ false
      → extract_bearer headers body ≡ some (codes "peat_" ++ hex.encode (random_bytes 16 rng))
      → let (made, db') = create_token rng now o a label max_uses expires_at db in
        (token : EnrollmentToken) × (made ≡ ok token)
        × (response : EnrollmentResponse) × ((enroll mesh mgr out headers body o a db').0
            ≡ ok response)
        × (response.decision ≡ default_decision)
  unfolding Backend.create_token Backend.get_org Backend.get_formation starts_with
  create_token-enroll org f w policy named timely room given =
      let made = create_token_made org f w.org_found w.formation_found named in
      let db' = Backend.create_token db new_token in
      let used = Backend.update_token db' (count_use new_token) in
      let w' : IsReceived mesh mgr out headers body o a db' org f = record {
        org_found = w.org_found;
        formation_found = w.formation_found;
        body_valid = w.body_valid;
        recent = w.recent;
        counted = counted_new _ ∙ w.counted;
        room = w.room;
      } in
      let g : Grounds out o a headers body db' f.enrollment_policy default_decision used =
        subst (λ p. Grounds out o a headers body db' p default_decision used) (sym policy)
          (token_used new_token.token_id new_token given refl stored_new
            (new_token-IsUsable timely room)) in
      let (response, admitted, same) =
        enroll-Grounds mesh mgr out headers body o a db' org f default_decision used w' g in
      (new_token, ap (λ q. q.0) made, response, rw made admitted, same)
