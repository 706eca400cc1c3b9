-- ===== src/Examples/Introspections.antt =====
-- A run of the theorem on identity providers.
use peat_gateway.Base.{
  ◌≡◌, refl, codes, none, some, true, false, [], ◌∷◌, ok, ◌==◌, starts_with, strip_prefix,
  trim_slashes,
}
use peat_gateway.Base.Entries.{Entries, lookup, put}
use peat_gateway.Storage.Keys.{formation_key, idp_key}
use peat_gateway.Storage.Backend
use peat_gateway.Storage.Backend.{Db}
use peat_gateway.Storage.Identity
use peat_gateway.Storage.Table.{decode_opt, decode_all}
use peat_gateway.Crypto.Interfaces.{random_bytes}
use peat_gateway.Tenant.Models.{IdpConfig}
use peat_gateway.Tenant.Manager.{get_org, get_formation, count_recent_enrollments}
use peat_gateway.Tenant.Identity.{append_audit, list_idps, list_policy_rules}
use peat_gateway.Api.Claims.{boolean, string, object, no_member, member}
use peat_gateway.Api.Policy.{evaluate_policy, default_decision, first_match, sort_by_priority}
use peat_gateway.Api.Certificate.{try_issue_certificate}
use peat_gateway.Api.Enroll.{
  Authorization, EnrollmentResponse, enroll, decide, finish, by_idp, validate_body, extract_bearer,
  build_audit, generate_id, subject_of,
}
use peat_gateway.Api.Enroll.Introspection.{responds, Web, introspect_oidc_token, from_userinfo}
use peat_gateway.Api.Enroll.Vouched.{asking, IsVouched, enroll-IsVouched}
use peat_gateway.Ingest.{value_at, member_of}
use peat_gateway.Examples.Stores.{entries_redb, entries_json}
use peat_gateway.Examples.World.{tagging, plain_hex, named_mesh, mgr}
use peat_gateway.Examples.Databases.{app_formation, app_db}
use peat_gateway.Examples.Enrollments.{outside}

abbrev issuer : IdpConfig
issuer = record {
  idp_id = codes "1";
  org_id = codes "acme";
  issuer_url = codes "https://id.example/";
  client_id = codes "gateway";
  client_secret = codes "secret";
  enabled = true;
  created_at = 1;
}

-- A provider whose introspection endpoint calls the token `abc` active.
abbrev provider : Web
provider = record {
  get = λ url. responds true (
      some (
        object
          (member (codes "introspection_endpoint") (string (codes "https://id/i")) no_member)));
  post_token = λ url id secret bearer. responds true (
      some (
        object (
          member (codes "active") (boolean (bearer == codes "abc"))
            (member (codes "sub") (string (codes "pilot")) no_member))));
  get_bearing = λ url bearer. responds false none;
}

abbrev idp_db : Db Entries
idp_db = Identity.create_idp app_db issuer

abbrev bearing : Authorization
bearing = some (some (codes "Bearer abc"))

abbrev response : EnrollmentResponse
response = record {
  decision = default_decision;
  audit_id = 7 ∷ 6 ∷ 5 ∷ 4 ∷ 3 ∷ 2 ∷ 1 ∷ 0 ∷ [];
  certificate = none;
  mesh_id = none;
  authority_public_key = none;
}

vouched_ok :
    (enroll named_mesh mgr
      (asking provider outside)
      bearing
      none
      (codes "acme")
      (codes "app")
      idp_db).0
    ≡ ok response
unfolding enroll decide finish by_idp validate_body extract_bearer build_audit generate_id
    random_bytes try_issue_certificate append_audit Identity.append_audit count_recent_enrollments
    Identity.list_audit Identity.collect_audit get_org get_formation Backend.get_org
    Backend.get_formation Backend.create_formation Backend.create_org Backend.create entries_redb
    entries_json lookup put decode_opt decode_all formation_key idp_key starts_with strip_prefix
    ◌==◌ list_idps list_policy_rules Identity.list_idps Identity.list_policy_rules
    Identity.create_idp evaluate_policy first_match sort_by_priority introspect_oidc_token
    from_userinfo value_at member_of trim_slashes subject_of
vouched_ok = refl

formation_there :
    Backend.get_formation idp_db (codes "acme") (codes "app") ≡ ok (some app_formation)
unfolding Backend.get_formation Backend.create_formation Backend.create_org Backend.create
    entries_redb entries_json lookup put decode_opt formation_key ◌==◌ Identity.create_idp
formation_there = refl

abc_given : extract_bearer bearing none ≡ some (codes "abc")
unfolding extract_bearer strip_prefix
abc_given = refl

abc_other : starts_with (codes "abc") (codes "peat_") ≡ false
unfolding starts_with
abc_other = refl

enroll-IsVouched_example :
    IsVouched provider outside (codes "acme") (codes "app") bearing none idp_db (codes "abc")
enroll-IsVouched_example =
    enroll-IsVouched named_mesh mgr provider outside bearing none (codes "acme") (codes "app")
      idp_db response app_formation (codes "abc") vouched_ok formation_there refl abc_given
      abc_other
