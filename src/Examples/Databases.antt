-- ===== src/Examples/Databases.antt =====
-- The databases that the examples start from.
use peat_gateway.Storage.Keys.Prefixes.{NulFree}
use peat_gateway.Tenant.Validate.{validate_identifier}
use peat_gateway.Tenant.Validate.Identifiers.{validate_identifier-NulFree}
use peat_gateway.Base.{refl, ◌≢◌, arith, codes, none, some, false}
use peat_gateway.Base.Entries.{Entries}
use peat_gateway.Storage.Backend
use peat_gateway.Storage.Backend.{Db}
use peat_gateway.Tenant.Models.{
  Organization, default_quotas, FormationConfig, EnrollmentToken, controlled,
}
use peat_gateway.Examples.Stores.{entries_redb, entries_json}

abbrev pub acme_org : Organization
acme_org = record {
  org_id = codes "acme";
  display_name = codes "Acme";
  quotas = default_quotas;
  created_at = 1;
}

abbrev pub app_formation : FormationConfig
app_formation = record {
  app_id = codes "app";
  mesh_id = codes "mesh-app";
  enrollment_policy = controlled;
}

-- A token of which two uses are left.
abbrev pub token : EnrollmentToken
token = record {
  token_id = codes "peat_1";
  org_id = codes "acme";
  app_id = codes "app";
  label = codes "tablets";
  max_uses = some 2;
  uses = 0;
  expires_at = none;
  created_at = 1;
  revoked = false;
}

-- One organisation.
abbrev pub acme_db : Db Entries
acme_db = Backend.create_org Backend.create acme_org

-- One organisation with a formation.
abbrev pub app_db : Db Entries
app_db = Backend.create_formation acme_db (codes "acme") app_formation

-- With a token too.
abbrev pub token_db : Db Entries
token_db = Backend.update_token app_db token

pub acme-NulFree : NulFree (codes "acme")
unfolding validate_identifier
acme-NulFree = validate_identifier-NulFree (codes "acme") refl

pub app-NulFree : NulFree (codes "app")
unfolding validate_identifier
app-NulFree = validate_identifier-NulFree (codes "app") refl

pub beta-NulFree : NulFree (codes "beta")
unfolding validate_identifier
beta-NulFree = validate_identifier-NulFree (codes "beta") refl

pub beta-other : codes "beta" ≢ codes "acme"
beta-other h = ground arith
