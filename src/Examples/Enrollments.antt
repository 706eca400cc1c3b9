-- ===== src/Examples/Enrollments.antt =====
-- Runs of the enrollment theorems.
use peat_gateway.Base.{
  ◌≡◌, ◌⊎◌, refl, Text, codes, Option, none, some, true, false, [], ◌∷◌, Result, ok, err, ◌==◌,
  starts_with, strip_prefix, unauthorized,
}
use peat_gateway.Base.Entries.{Entries, lookup, put}
use peat_gateway.Storage.Keys.{token_key, formation_key}
use peat_gateway.Storage.Backend
use peat_gateway.Storage.Backend.{Db}
use peat_gateway.Storage.Identity
use peat_gateway.Storage.Table.{decode_opt, decode_all}
use peat_gateway.Crypto.Interfaces.{random_bytes}
use peat_gateway.Tenant.Models.{PolicyRule, approved, authority, endpoint}
use peat_gateway.Tenant.Manager.{get_org, get_formation, count_recent_enrollments}
use peat_gateway.Tenant.Tokens.{validate_and_consume_token, count_use}
use peat_gateway.Tenant.Identity.{append_audit}
use peat_gateway.Api.Claims.{Value, string}
use peat_gateway.Api.Policy.{evaluate_policy, default_decision}
use peat_gateway.Api.Policy.FirstMatch.{Decides, NoMatch, evaluate_policy_lem}
use peat_gateway.Api.Certificate.{try_issue_certificate}
use peat_gateway.Api.Enroll.{
  Authorization, Outside, Verdict, EnrollmentResponse, enroll, decide, finish, by_token,
  validate_body, extract_bearer, build_audit, generate_id,
}
use peat_gateway.Api.Enroll.Granted.{IsAudited, IsGranted, enroll-ok, enroll-err}
use peat_gateway.Examples.Stores.{entries_redb, entries_json}
use peat_gateway.Examples.World.{tagging, plain_hex, named_mesh, counting, mgr}
use peat_gateway.Examples.Databases.{token_db}

abbrev admins : PolicyRule
admins = record {
  rule_id = codes "1";
  org_id = codes "acme";
  claim_key = codes "role";
  claim_value = codes "admin";
  tier = authority;
  permissions = 15;
  priority = 10;
}

abbrev everyone : PolicyRule
everyone = record admins { claim_value = codes "viewer"; priority = 1 }

abbrev role_claim : Text → Option Value
role_claim k = elim (k == codes "role") [ true ↦ some (string (codes "admin")) | false ↦ none ]

evaluate_policy_lem_example :
    ((rule : PolicyRule) × Decides role_claim (everyone ∷ admins ∷ []) rule
      × (evaluate_policy (everyone ∷ admins ∷ []) role_claim ≡ approved rule.tier rule.permissions))
    ⊎ (NoMatch role_claim (everyone ∷ admins ∷ [])
        × (evaluate_policy (everyone ∷ admins ∷ []) role_claim ≡ approved endpoint 0))
evaluate_policy_lem_example = evaluate_policy_lem role_claim (everyone ∷ admins ∷ [])

abbrev pub outside : Outside
outside = record {
  request_ms = 10_000_000;
  token_ms = 10_000_001;
  audit_ms = 10_000_002;
  audit_rng = counting;
  introspect = λ issuer id secret bearer. err unauthorized;
}

abbrev pub headers : Authorization
headers = some (some (codes "Bearer peat_1"))

abbrev run_on : Authorization → Db Entries → Result EnrollmentResponse × Db Entries
run_on h db = enroll named_mesh mgr outside h none (codes "acme") (codes "app") db

abbrev response : EnrollmentResponse
response = record {
  decision = default_decision;
  audit_id = 7 ∷ 6 ∷ 5 ∷ 4 ∷ 3 ∷ 2 ∷ 1 ∷ 0 ∷ [];
  certificate = none;
  mesh_id = none;
  authority_public_key = none;
}

granted_ok : (run_on headers token_db).0 ≡ ok response
unfolding enroll decide finish by_token validate_body extract_bearer build_audit generate_id
    random_bytes try_issue_certificate validate_and_consume_token append_audit Identity.append_audit
    count_recent_enrollments Identity.list_audit Identity.collect_audit get_org get_formation
    Backend.get_org Backend.get_formation Backend.update_token Backend.create_token
    Backend.create_formation Backend.create_org Backend.create entries_redb entries_json lookup put
    decode_opt decode_all token_key formation_key starts_with strip_prefix ◌==◌ count_use
    Backend.get_token
granted_ok = refl

enroll-ok_example :
    (v : Verdict) × (db₁ : Db Entries) × IsGranted named_mesh mgr outside headers none
      (codes "acme")
      (codes "app")
      token_db
      v
      db₁
    × (response.decision ≡ v.0)
    × IsAudited named_mesh mgr outside headers none
        (codes "acme")
        (codes "app")
        token_db
        v
        db₁
        response
        (run_on headers token_db).1
enroll-ok_example =
    enroll-ok named_mesh mgr outside headers none (codes "acme") (codes "app") token_db response
      granted_ok

refused : (run_on none token_db).0 ≡ err unauthorized
unfolding enroll decide validate_body extract_bearer count_recent_enrollments Identity.list_audit
    Identity.collect_audit get_org get_formation Backend.get_org Backend.get_formation
    Backend.update_token Backend.create_token Backend.create_formation Backend.create_org
    Backend.create entries_redb entries_json lookup put decode_opt decode_all formation_key ◌==◌
refused = refl

enroll-err_example : (run_on none token_db).1 ≡ token_db
enroll-err_example =
    enroll-err named_mesh mgr outside none none (codes "acme") (codes "app") token_db unauthorized
      refused
