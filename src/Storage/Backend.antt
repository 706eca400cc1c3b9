-- ===== src/Storage/Backend.antt =====
-- storage/redb_backend.rs: `impl StorageBackend for RedbBackend`. A method that only reads is a
-- function of the database; a write transaction returns the new one. What is given is a call that goes
-- through: one that redb refuses changes nothing, and a caller that survives it says `attempted`.

use peat_gateway.Base.{Text, Bytes, ◌==◌, Bool, Option, is_some, List, filter, Result, ok, and_then}
use peat_gateway.Storage.Redb.{Redb, Json}
use peat_gateway.Storage.Keys.{
  formation_key, formation_prefix, token_key, token_prefix, sink_key, sink_prefix, cursor_key,
}
use peat_gateway.Storage.Table.{decode_opt, decode_all, with_prefix, remove_prefix}
use peat_gateway.Tenant.Models.{Organization, FormationConfig, EnrollmentToken, CdcSinkConfig}

-- `RedbBackend`: one field for each table.
pub record Db (T : Type 0) : Type 0 where
  pub orgs : T
  pub formations : T
  pub tokens : T
  pub sinks : T
  pub cursors : T
  pub idps : T
  pub policy_rules : T
  pub audit : T
  pub genesis : T

module _ {T : Type 0} ⦃r : Redb T⦄ where
  -- The database that `RedbBackend::open` makes of a new file.
  unfoldable pub create : Db T
  create = record {
    orgs = r.create;
    formations = r.create;
    tokens = r.create;
    sinks = r.create;
    cursors = r.create;
    idps = r.create;
    policy_rules = r.create;
    audit = r.create;
    genesis = r.create;
  }

  unfoldable pub delete_org : Db T → Text → Bool × Db T
  unfolding formation_prefix
  delete_org db org_id =
      let prefix = formation_prefix org_id in
      let removed = r.remove db.orgs org_id in
      (
        is_some removed.0,
        record {
          orgs = removed.1;
          formations = remove_prefix prefix db.formations;
          tokens = remove_prefix prefix db.tokens;
          sinks = remove_prefix prefix db.sinks;
          cursors = remove_prefix prefix db.cursors;
          idps = remove_prefix prefix db.idps;
          policy_rules = remove_prefix prefix db.policy_rules;
          audit = remove_prefix prefix db.audit;
          genesis = remove_prefix prefix db.genesis;
        },
      )

  unfoldable pub delete_formation : Db T → Text → Text → Bool × Db T
  delete_formation db org_id app_id =
      let removed = r.remove db.formations (formation_key org_id app_id) in
      (is_some removed.0, record db { formations = removed.1 })

  unfoldable pub delete_token : Db T → Text → Text → Bool × Db T
  delete_token db org_id token_id =
      let removed = r.remove db.tokens (token_key org_id token_id) in
      (is_some removed.0, record db { tokens = removed.1 })

  unfoldable pub delete_sink : Db T → Text → Text → Bool × Db T
  delete_sink db org_id sink_id =
      let removed = r.remove db.sinks (sink_key org_id sink_id) in
      (is_some removed.0, record db { sinks = removed.1 })

  unfoldable pub store_genesis : Db T → Text → Text → Bytes → Db T
  store_genesis db org_id app_id encoded = record db {
    genesis = r.insert db.genesis (formation_key org_id app_id) encoded;
  }

  unfoldable pub get_genesis : Db T → Text → Text → Option Bytes
  get_genesis db org_id app_id = r.get db.genesis (formation_key org_id app_id)

  unfoldable pub delete_genesis : Db T → Text → Text → Bool × Db T
  delete_genesis db org_id app_id =
      let removed = r.remove db.genesis (formation_key org_id app_id) in
      (is_some removed.0, record db { genesis = removed.1 })

  -- When it goes through; Cdc/Watcher has what an `Err` leads to.
  unfoldable pub get_cursor : Db T → Text → Text → Text → Option Text
  get_cursor db org_id app_id document_id = r.get db.cursors (cursor_key org_id app_id document_id)

  -- When it goes through; Cdc/Watcher has what an `Err` leads to.
  unfoldable pub set_cursor : Db T → Text → Text → Text → Text → Db T
  set_cursor db org_id app_id document_id change_hash = record db {
    cursors = r.insert db.cursors (cursor_key org_id app_id document_id) change_hash;
  }

module _ {T : Type 0} ⦃r : Redb T⦄ ⦃j : Json⦄ where
  unfoldable pub create_org : Db T → Organization → Db T
  create_org db org = record db { orgs = r.insert db.orgs org.org_id (j.organization.to_vec org) }

  unfoldable pub get_org : Db T → Text → Result (Option Organization)
  get_org db org_id = decode_opt j.organization (r.get db.orgs org_id)

  unfoldable pub list_orgs : Db T → Result (List Organization)
  list_orgs db = decode_all j.organization (r.iter db.orgs)

  unfoldable pub update_org : Db T → Organization → Db T
  unfolding create_org
  update_org db org = create_org db org

  unfoldable pub create_formation : Db T → Text → FormationConfig → Db T
  create_formation db org_id formation = record db {
    formations =
        r.insert db.formations (formation_key org_id formation.app_id)
          (j.formation.to_vec formation);
  }

  unfoldable pub get_formation : Db T → Text → Text → Result (Option FormationConfig)
  get_formation db org_id app_id =
      decode_opt j.formation (r.get db.formations (formation_key org_id app_id))

  unfoldable pub list_formations : Db T → Text → Result (List FormationConfig)
  list_formations db org_id =
      decode_all j.formation (with_prefix (formation_prefix org_id) (r.iter db.formations))

  unfoldable pub create_token : Db T → EnrollmentToken → Db T
  create_token db token = record db {
    tokens = r.insert db.tokens (token_key token.org_id token.token_id) (j.token.to_vec token);
  }

  unfoldable pub get_token : Db T → Text → Text → Result (Option EnrollmentToken)
  get_token db org_id token_id = decode_opt j.token (r.get db.tokens (token_key org_id token_id))

  unfoldable pub list_tokens : Db T → Text → Text → Result (List EnrollmentToken)
  list_tokens db org_id app_id =
      and_then (decode_all j.token (with_prefix (token_prefix org_id) (r.iter db.tokens)))
        λ tokens. ok (filter (λ t. t.app_id == app_id) tokens)

  unfoldable pub update_token : Db T → EnrollmentToken → Db T
  unfolding create_token
  update_token db token = create_token db token

  unfoldable pub create_sink : Db T → CdcSinkConfig → Db T
  create_sink db sink = record db {
    sinks = r.insert db.sinks (sink_key sink.org_id sink.sink_id) (j.sink.to_vec sink);
  }

  unfoldable pub get_sink : Db T → Text → Text → Result (Option CdcSinkConfig)
  get_sink db org_id sink_id = decode_opt j.sink (r.get db.sinks (sink_key org_id sink_id))

  unfoldable pub list_sinks : Db T → Text → Result (List CdcSinkConfig)
  list_sinks db org_id = decode_all j.sink (with_prefix (sink_prefix org_id) (r.iter db.sinks))

  unfoldable pub update_sink : Db T → CdcSinkConfig → Db T
  unfolding create_sink
  update_sink db sink = create_sink db sink
