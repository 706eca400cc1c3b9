-- ===== src/Storage/Postgres.antt =====
-- storage/postgres.rs: `impl StorageBackend for PostgresBackend`. A column of type JSONB holds
-- what serde_json makes of a record. A query fails only by violating a constraint.
pub mod Columns
pub mod Tables
pub mod Agrees
pub mod Statements
pub mod Calls
use peat_gateway.Base.{
  ℕ, Text, Bytes, ◌==◌, Bool, Option, none, some, List, [], ◌∷◌, filter, Result, ok, err, and_then,
  ok_or, corrupt_record, Exec, reads, writes, ltb, query_failed,
}
use peat_gateway.Storage.Redb.{Codec, Json}
use peat_gateway.Storage.Table.{decode_opt}
use peat_gateway.Storage.Sql.{
  Sql, TableName, PrimaryKey, orgs, formations, enrollment_tokens, cdc_sinks, cdc_cursors,
  idp_configs, policy_rules, genesis, AuditRow, as_i64,
}
use peat_gateway.Tenant.Models.{
  Organization, FormationConfig, EnrollmentToken, CdcSinkConfig, IdpConfig, PolicyRule,
  EnrollmentAuditEntry,
}

-- `for row in rows { … list.push(serde_json::from_value(data)?) }`
unfoldable pub decode_rows : {A : Type 0} → Codec A → List Bytes → Result (List A)
decode_rows c [] = ok []
decode_rows c (v ∷ rows) =
    let rest = decode_rows c rows in
    and_then (ok_or (c.from_slice v) corrupt_record) λ a. and_then rest λ l. ok (a ∷ l)

-- `.execute(&self.pool).await?`
abbrev pub executed : {D : Type 0} → Option D → D → Result (Unit {0}) × D
executed none d = (err query_failed, d)
executed (some d') d = (ok tt, d')

abbrev pub execute : {D : Type 0} → (D → Option D) → Exec D (Unit {0})
execute statement d = executed (statement d) d

module _ {D : Type 0} ⦃sql : Sql D⦄ where
  unfoldable pub connect : D
  connect = sql.created

  -- `Ok(result.rows_affected() > 0)`
  unfoldable pub delete_row : TableName → PrimaryKey → Exec D Bool
  delete_row t k d = let result = sql.delete t k d in (ok (ltb 0 result.0), result.1)

  -- `Ok(row.map(|r| r.get(…)))`
  unfoldable pub read_row : TableName → PrimaryKey → Exec D (Option Bytes)
  read_row t k = reads (λ d. ok (sql.select d t k))

  unfoldable pub delete_org : Text → Exec D Bool
  delete_org org_id = delete_row orgs (org_id, [])

  unfoldable pub delete_formation : Text → Text → Exec D Bool
  delete_formation org_id app_id = delete_row formations (org_id, app_id ∷ [])

  unfoldable pub delete_token : Text → Text → Exec D Bool
  delete_token org_id token_id = delete_row enrollment_tokens (org_id, token_id ∷ [])

  unfoldable pub delete_sink : Text → Text → Exec D Bool
  delete_sink org_id sink_id = delete_row cdc_sinks (org_id, sink_id ∷ [])

  unfoldable pub delete_idp : Text → Text → Exec D Bool
  delete_idp org_id idp_id = delete_row idp_configs (org_id, idp_id ∷ [])

  unfoldable pub delete_policy_rule : Text → Text → Exec D Bool
  delete_policy_rule org_id rule_id = delete_row policy_rules (org_id, rule_id ∷ [])

  unfoldable pub delete_genesis : Text → Text → Exec D Bool
  delete_genesis org_id app_id = delete_row genesis (org_id, app_id ∷ [])

  unfoldable pub store_genesis : Text → Text → Bytes → Exec D (Unit {0})
  store_genesis org_id app_id encoded = execute (sql.upsert genesis (org_id, app_id ∷ []) encoded)

  unfoldable pub get_genesis : Text → Text → Exec D (Option Bytes)
  get_genesis org_id app_id = read_row genesis (org_id, app_id ∷ [])

  unfoldable pub get_cursor : Text → Text → Text → Exec D (Option Text)
  get_cursor org_id app_id document_id = read_row cdc_cursors (org_id, app_id ∷ document_id ∷ [])

  unfoldable pub set_cursor : Text → Text → Text → Text → Exec D (Unit {0})
  set_cursor org_id app_id document_id change_hash =
      execute (sql.upsert cdc_cursors (org_id, app_id ∷ document_id ∷ []) change_hash)

module _ {D : Type 0} ⦃sql : Sql D⦄ ⦃j : Json⦄ where
  unfoldable pub create_org : Organization → Exec D (Unit {0})
  create_org org = execute (sql.insert orgs (org.org_id, []) (j.organization.to_vec org))

  unfoldable pub get_org : Text → Exec D (Option Organization)
  get_org org_id = reads (λ d. decode_opt j.organization (sql.select d orgs (org_id, [])))

  unfoldable pub list_orgs : Exec D (List Organization)
  list_orgs = reads (λ d. decode_rows j.organization (sql.select_orgs d))

  unfoldable pub update_org : Organization → Exec D (Unit {0})
  update_org org = writes (sql.update orgs (org.org_id, []) (j.organization.to_vec org))

  unfoldable pub create_formation : Text → FormationConfig → Exec D (Unit {0})
  create_formation org_id formation =
      execute (sql.insert formations (org_id, formation.app_id ∷ []) (j.formation.to_vec formation))

  unfoldable pub get_formation : Text → Text → Exec D (Option FormationConfig)
  get_formation org_id app_id =
      reads (λ d. decode_opt j.formation (sql.select d formations (org_id, app_id ∷ [])))

  unfoldable pub list_formations : Text → Exec D (List FormationConfig)
  list_formations org_id = reads (λ d. decode_rows j.formation (sql.select_of d formations org_id))

  unfoldable pub create_token : EnrollmentToken → Exec D (Unit {0})
  create_token token =
      execute
        (sql.insert enrollment_tokens (token.org_id, token.token_id ∷ []) (j.token.to_vec token))

  unfoldable pub get_token : Text → Text → Exec D (Option EnrollmentToken)
  get_token org_id token_id =
      reads (λ d. decode_opt j.token (sql.select d enrollment_tokens (org_id, token_id ∷ [])))

  unfoldable pub list_tokens : Text → Text → Exec D (List EnrollmentToken)
  list_tokens org_id app_id = reads (λ d.
      and_then (decode_rows j.token (sql.select_of d enrollment_tokens org_id))
        λ tokens. ok (filter (λ t. t.app_id == app_id) tokens))

  unfoldable pub update_token : EnrollmentToken → Exec D (Unit {0})
  update_token token =
      writes
        (sql.update enrollment_tokens (token.org_id, token.token_id ∷ []) (j.token.to_vec token))

  unfoldable pub create_sink : CdcSinkConfig → Exec D (Unit {0})
  create_sink sink =
      execute (sql.insert cdc_sinks (sink.org_id, sink.sink_id ∷ []) (j.sink.to_vec sink))

  unfoldable pub get_sink : Text → Text → Exec D (Option CdcSinkConfig)
  get_sink org_id sink_id =
      reads (λ d. decode_opt j.sink (sql.select d cdc_sinks (org_id, sink_id ∷ [])))

  unfoldable pub list_sinks : Text → Exec D (List CdcSinkConfig)
  list_sinks org_id = reads (λ d. decode_rows j.sink (sql.select_of d cdc_sinks org_id))

  unfoldable pub update_sink : CdcSinkConfig → Exec D (Unit {0})
  update_sink sink =
      writes (sql.update cdc_sinks (sink.org_id, sink.sink_id ∷ []) (j.sink.to_vec sink))

  unfoldable pub create_idp : IdpConfig → Exec D (Unit {0})
  create_idp idp = execute (sql.insert idp_configs (idp.org_id, idp.idp_id ∷ []) (j.idp.to_vec idp))

  unfoldable pub get_idp : Text → Text → Exec D (Option IdpConfig)
  get_idp org_id idp_id =
      reads (λ d. decode_opt j.idp (sql.select d idp_configs (org_id, idp_id ∷ [])))

  unfoldable pub list_idps : Text → Exec D (List IdpConfig)
  list_idps org_id = reads (λ d. decode_rows j.idp (sql.select_of d idp_configs org_id))

  unfoldable pub update_idp : IdpConfig → Exec D (Unit {0})
  update_idp idp = writes (sql.update idp_configs (idp.org_id, idp.idp_id ∷ []) (j.idp.to_vec idp))

  unfoldable pub create_policy_rule : PolicyRule → Exec D (Unit {0})
  create_policy_rule rule =
      execute (sql.insert policy_rules (rule.org_id, rule.rule_id ∷ []) (j.policy_rule.to_vec rule))

  unfoldable pub list_policy_rules : Text → Exec D (List PolicyRule)
  list_policy_rules org_id =
      reads (λ d. decode_rows j.policy_rule (sql.select_of d policy_rules org_id))

  unfoldable pub append_audit : EnrollmentAuditEntry → Exec D (Unit {0})
  append_audit entry = execute (
      sql.insert_audit (record {
        org_id = entry.org_id;
        audit_id = entry.audit_id;
        app_id = entry.app_id;
        timestamp_ms = as_i64 entry.timestamp_ms;
        stored = j.audit_entry.to_vec entry;
      }))

  unfoldable pub list_audit : Text → Option Text → ℕ → Exec D (List EnrollmentAuditEntry)
  list_audit org_id app_id limit = reads (λ d.
      and_then (ok_or (sql.select_audit d org_id app_id (as_i64 limit)) query_failed)
        λ rows. decode_rows j.audit_entry rows)
