-- ===== src/Storage/Postgres/Calls.antt =====
-- storage/postgres.rs and storage/redb_backend.rs: the calls of a `StorageBackend` that write, on either.
pub mod Refines
use peat_gateway.Storage.Postgres.Agrees.{Agree}
use peat_gateway.Storage.Postgres.Columns.{NulFreeColumns}
use peat_gateway.Tenant.Models.{
  PolicyRule, IdpConfig, CdcSinkConfig, EnrollmentToken, FormationConfig, Organization,
  EnrollmentAuditEntry,
}
use peat_gateway.Base.{List, Bytes, sym, subst, ◌∷◌, err, is_some, [], ok, true, ◌≡◌}
use peat_gateway.Storage.Keys.Prefixes.{NulFree}
use peat_gateway.Storage.Redb.{Json, Redb}
use peat_gateway.Storage.Postgres.{Bool, Result, Text}
use peat_gateway.Storage.Postgres
use peat_gateway.Storage.Backend
use peat_gateway.Storage.Identity
use peat_gateway.Storage.Backend.{Db}
use peat_gateway.Storage.Sql.{
  Sql, TableName, PrimaryKey, orgs, formations, enrollment_tokens, cdc_sinks, cdc_cursors,
  idp_configs, policy_rules, genesis,
}

pub data Call : Type 0 where
  delete_org : Text → Call
  append_audit : EnrollmentAuditEntry → Call
  create_org : Organization → Call
  update_org : Organization → Call
  create_formation : Text → FormationConfig → Call
  delete_formation : Text → Text → Call
  create_token : EnrollmentToken → Call
  update_token : EnrollmentToken → Call
  delete_token : Text → Text → Call
  create_sink : CdcSinkConfig → Call
  update_sink : CdcSinkConfig → Call
  delete_sink : Text → Text → Call
  create_idp : IdpConfig → Call
  update_idp : IdpConfig → Call
  delete_idp : Text → Text → Call
  create_policy_rule : PolicyRule → Call
  delete_policy_rule : Text → Text → Call
  store_genesis : Text → Text → Bytes → Call
  delete_genesis : Text → Text → Call
  set_cursor : Text → Text → Text → Text → Call

-- The answer of a call that has none.
abbrev unit_answer : {D : Type 0} → Result (Unit {0}) × D → Result Bool × D
unit_answer (ok u, d) = (ok true, d)
unit_answer (err e, d) = (err e, d)

module _ {T : Type 0} ⦃r : Redb T⦄ ⦃j : Json⦄ where
  unfoldable pub on_redb : Call → Db T → Bool × Db T
  on_redb (delete_org o) db = Backend.delete_org db o
  on_redb (append_audit entry) db = (true, Identity.append_audit db entry)
  on_redb (create_org org) db = (true, Backend.create_org db org)
  on_redb (update_org org) db = (true, Backend.update_org db org)
  on_redb (create_formation o formation) db = (true, Backend.create_formation db o formation)
  on_redb (delete_formation o app) db = Backend.delete_formation db o app
  on_redb (create_token token) db = (true, Backend.create_token db token)
  on_redb (update_token token) db = (true, Backend.update_token db token)
  on_redb (delete_token o id) db = Backend.delete_token db o id
  on_redb (create_sink sink) db = (true, Backend.create_sink db sink)
  on_redb (update_sink sink) db = (true, Backend.update_sink db sink)
  on_redb (delete_sink o id) db = Backend.delete_sink db o id
  on_redb (create_idp idp) db = (true, Identity.create_idp db idp)
  on_redb (update_idp idp) db = (true, Identity.update_idp db idp)
  on_redb (delete_idp o id) db = Identity.delete_idp db o id
  on_redb (create_policy_rule rule) db = (true, Identity.create_policy_rule db rule)
  on_redb (delete_policy_rule o id) db = Identity.delete_policy_rule db o id
  on_redb (store_genesis o app encoded) db = (true, Backend.store_genesis db o app encoded)
  on_redb (delete_genesis o app) db = Backend.delete_genesis db o app
  on_redb (set_cursor o app doc_id change_hash) db =
      (true, Backend.set_cursor db o app doc_id change_hash)

  unfoldable pub run_redb : List Call → Db T → Db T
  run_redb [] db = db
  run_redb (c ∷ cs) db = run_redb cs (on_redb c db).1

module _ {D : Type 0} ⦃sql : Sql D⦄ ⦃j : Json⦄ where
  unfoldable pub on_postgres : Call → D → Result Bool × D
  on_postgres (delete_org o) d = Postgres.delete_org o d
  on_postgres (append_audit entry) d = unit_answer (Postgres.append_audit entry d)
  on_postgres (create_org org) d = unit_answer (Postgres.create_org org d)
  on_postgres (update_org org) d = unit_answer (Postgres.update_org org d)
  on_postgres (create_formation o formation) d =
      unit_answer (Postgres.create_formation o formation d)
  on_postgres (delete_formation o app) d = Postgres.delete_formation o app d
  on_postgres (create_token token) d = unit_answer (Postgres.create_token token d)
  on_postgres (update_token token) d = unit_answer (Postgres.update_token token d)
  on_postgres (delete_token o id) d = Postgres.delete_token o id d
  on_postgres (create_sink sink) d = unit_answer (Postgres.create_sink sink d)
  on_postgres (update_sink sink) d = unit_answer (Postgres.update_sink sink d)
  on_postgres (delete_sink o id) d = Postgres.delete_sink o id d
  on_postgres (create_idp idp) d = unit_answer (Postgres.create_idp idp d)
  on_postgres (update_idp idp) d = unit_answer (Postgres.update_idp idp d)
  on_postgres (delete_idp o id) d = Postgres.delete_idp o id d
  on_postgres (create_policy_rule rule) d = unit_answer (Postgres.create_policy_rule rule d)
  on_postgres (delete_policy_rule o id) d = Postgres.delete_policy_rule o id d
  on_postgres (store_genesis o app encoded) d = unit_answer (Postgres.store_genesis o app encoded d)
  on_postgres (delete_genesis o app) d = Postgres.delete_genesis o app d
  on_postgres (set_cursor o app doc_id change_hash) d =
      unit_answer (Postgres.set_cursor o app doc_id change_hash d)

  unfoldable pub run_postgres : List Call → D → D
  run_postgres [] d = d
  run_postgres (c ∷ cs) d = run_postgres cs (on_postgres c d).1

-- What a caller sees to: the columns of the call have no zero byte, and the row of an update is there.
module _ {D : Type 0} ⦃sql : Sql D⦄ ⦃j : Json⦄ where
  unfoldable pub IsAllowed : D → Call → Type 0
  IsAllowed d (delete_org o) = NulFree o
  IsAllowed d (append_audit entry) = Unit
  IsAllowed d (create_org org) = NulFreeColumns org.org_id ([])
  IsAllowed d (update_org org) =
      NulFreeColumns org.org_id ([]) × (is_some (sql.select d orgs (org.org_id, [])) ≡ true)
  IsAllowed d (create_formation o formation) = NulFreeColumns o (formation.app_id ∷ [])
  IsAllowed d (delete_formation o app) = NulFreeColumns o (app ∷ [])
  IsAllowed d (create_token token) = NulFreeColumns token.org_id (token.token_id ∷ [])
  IsAllowed d (update_token token) =
      NulFreeColumns token.org_id (token.token_id ∷ [])
      × (is_some (sql.select d enrollment_tokens (token.org_id, token.token_id ∷ [])) ≡ true)
  IsAllowed d (delete_token o id) = NulFreeColumns o (id ∷ [])
  IsAllowed d (create_sink sink) = NulFreeColumns sink.org_id (sink.sink_id ∷ [])
  IsAllowed d (update_sink sink) =
      NulFreeColumns sink.org_id (sink.sink_id ∷ [])
      × (is_some (sql.select d cdc_sinks (sink.org_id, sink.sink_id ∷ [])) ≡ true)
  IsAllowed d (delete_sink o id) = NulFreeColumns o (id ∷ [])
  IsAllowed d (create_idp idp) = NulFreeColumns idp.org_id (idp.idp_id ∷ [])
  IsAllowed d (update_idp idp) =
      NulFreeColumns idp.org_id (idp.idp_id ∷ [])
      × (is_some (sql.select d idp_configs (idp.org_id, idp.idp_id ∷ [])) ≡ true)
  IsAllowed d (delete_idp o id) = NulFreeColumns o (id ∷ [])
  IsAllowed d (create_policy_rule rule) = NulFreeColumns rule.org_id (rule.rule_id ∷ [])
  IsAllowed d (delete_policy_rule o id) = NulFreeColumns o (id ∷ [])
  IsAllowed d (store_genesis o app encoded) = NulFreeColumns o (app ∷ [])
  IsAllowed d (delete_genesis o app) = NulFreeColumns o (app ∷ [])
  IsAllowed d (set_cursor o app doc_id change_hash) = NulFreeColumns o (app ∷ doc_id ∷ [])

  -- Each call succeeds on PostgreSQL.
  unfoldable pub AllSucceed : D → List Call → Type 0
  AllSucceed d [] = Unit {0}
  AllSucceed d (c ∷ cs) =
      IsAllowed d c
      × ((b : Bool) × ((on_postgres c d).0 ≡ ok b))
      × AllSucceed (on_postgres c d).1 cs
