-- ===== src/Examples/Admissions.antt =====
-- Runs of the theorems on enrollments that succeed.
use peat_gateway.Base.{
  ◌≡◌, refl, Text, codes, none, some, ◌++◌, ok, ◌==◌, starts_with, strip_prefix,
}
use peat_gateway.Base.Entries.{lookup, put}
use peat_gateway.Storage.Keys.{token_key, formation_key}
use peat_gateway.Storage.Backend
use peat_gateway.Storage.Backend.{Db}
use peat_gateway.Storage.Identity
use peat_gateway.Storage.Table.{decode_opt, decode_all}
use peat_gateway.Crypto.Interfaces.{random_bytes}
use peat_gateway.Tenant.Models.{EnrollmentToken, controlled}
use peat_gateway.Tenant.Manager.{count_recent_enrollments}
use peat_gateway.Tenant.Validate.{validate_non_empty}
use peat_gateway.Tenant.Tokens.{create_token, count_use}
use peat_gateway.Api.Policy.{default_decision}
use peat_gateway.Api.Enroll.{
  Authorization, EnrollmentResponse, enroll, validate_body, extract_bearer,
}
use peat_gateway.Api.Enroll.Outcomes.{Grounds, token_used}
use peat_gateway.Api.Enroll.Admits.{IsReceived, enroll-Grounds}
use peat_gateway.Api.Enroll.NewTokens.{create_token-enroll}
use peat_gateway.Examples.Stores.{entries_redb, entries_json}
use peat_gateway.Examples.World.{tagging, plain_hex, named_mesh, counting, mgr}
use peat_gateway.Examples.Databases.{acme_org, app_formation, token, app_db, token_db}
use peat_gateway.Examples.Enrollments.{outside, headers}

abbrev acme : Text
acme = codes "acme"

abbrev app : Text
app = codes "app"

received : IsReceived named_mesh mgr outside headers none acme app token_db acme_org app_formation
unfolding validate_body count_recent_enrollments Identity.list_audit Identity.collect_audit
    Backend.get_org Backend.get_formation Backend.update_token Backend.create_token
    Backend.create_formation Backend.create_org Backend.create entries_redb entries_json lookup put
    decode_opt decode_all formation_key ◌==◌
received = record {
  org_found = refl;
  formation_found = refl;
  body_valid = refl;
  recent = 0;
  counted = refl;
  room = refl;
}

grounds :
    Grounds outside acme app headers none token_db controlled default_decision
      (Backend.update_token token_db (count_use token))
unfolding extract_bearer starts_with strip_prefix Backend.update_token Backend.create_token
    Backend.create_formation Backend.create_org Backend.create entries_redb entries_json lookup put
    decode_opt token_key ◌==◌
grounds =
    token_used (codes "peat_1") token refl refl refl
      (record { same_app = refl; not_revoked = refl; not_expired = refl; not_exhausted = refl })

enroll-Grounds_example :
    (response : EnrollmentResponse) × ((enroll named_mesh mgr outside headers none acme app
        token_db).0
      ≡ ok response)
    × (response.decision ≡ default_decision)
enroll-Grounds_example =
    enroll-Grounds named_mesh mgr outside headers none acme app token_db acme_org app_formation
      default_decision (Backend.update_token token_db (count_use token)) received grounds

-- the header with the token that the next call makes
abbrev fresh_headers : Authorization
fresh_headers =
    some (some (codes "Bearer " ++ (codes "peat_" ++ plain_hex.encode (random_bytes 16 counting))))

received_fresh :
    IsReceived named_mesh mgr outside fresh_headers none acme app app_db acme_org app_formation
unfolding validate_body count_recent_enrollments Identity.list_audit Identity.collect_audit
    Backend.get_org Backend.get_formation Backend.create_formation Backend.create_org Backend.create
    entries_redb entries_json lookup put decode_opt decode_all formation_key ◌==◌
received_fresh = record {
  org_found = refl;
  formation_found = refl;
  body_valid = refl;
  recent = 0;
  counted = refl;
  room = refl;
}

labelled : validate_non_empty (codes "tablets") ≡ ok tt
unfolding validate_non_empty
labelled = refl

given_fresh :
    extract_bearer fresh_headers none
    ≡ some (codes "peat_" ++ plain_hex.encode (random_bytes 16 counting))
unfolding extract_bearer strip_prefix
given_fresh = refl

create_token-enroll_example :
    let (made, db') = create_token counting 1 acme app (codes "tablets") (some 2) none app_db in
    (t : EnrollmentToken) × (made ≡ ok t)
    × (response : EnrollmentResponse) × ((enroll named_mesh mgr outside fresh_headers none acme app
          db').0
        ≡ ok response)
    × (response.decision ≡ default_decision)
create_token-enroll_example =
    create_token-enroll named_mesh mgr outside fresh_headers none acme app app_db counting 1
      (codes "tablets") (some 2) none acme_org app_formation received_fresh refl labelled refl refl
      given_fresh
