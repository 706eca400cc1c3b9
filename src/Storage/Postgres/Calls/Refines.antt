-- ===== src/Storage/Postgres/Calls/Refines.antt =====
-- storage/postgres.rs implements `StorageBackend` as storage/redb_backend.rs does.
use peat_gateway.Storage.Table.{decode_opt}
use peat_gateway.Storage.Keys.Prefixes.{NulFree}
use peat_gateway.Base.Entries.{lookup}
use peat_gateway.Storage.Postgres.Statements.{
  executed-some, deleted_agrees, upsert_agrees, delete_agrees, update_agrees, insert_agrees,
}
use peat_gateway.Storage.Keys.{
  cursor_key, policy_rule_key, idp_key, sink_key, token_key, formation_key,
}
use peat_gateway.Storage.Postgres.Columns.{joined}
use peat_gateway.Tenant.Models.{EnrollmentAuditEntry}
use peat_gateway.Storage.Postgres.Tables.{by_table, set_table, table}
use peat_gateway.Storage.Postgres.Agrees.{lookup-nil, deleted_org_agrees, Agree}
use peat_gateway.Storage.Postgres.Calls.{
  run_postgres, AllSucceed, run_redb, delete_org, append_audit, create_org, update_org,
  create_formation, delete_formation, create_token, update_token, delete_token, create_sink,
  update_sink, delete_sink, create_idp, update_idp, delete_idp, create_policy_rule,
  delete_policy_rule, store_genesis, delete_genesis, set_cursor, IsAllowed, on_postgres,
  unit_answer, Call, on_redb,
}
use peat_gateway.Storage.Sql.{
  TableName, Sql, orgs, formations, enrollment_tokens, cdc_sinks, cdc_cursors, idp_configs,
  policy_rules, genesis,
}
use peat_gateway.Base.{Text, List, ◌∙◌, ap, [], ◌∷◌}
use peat_gateway.Storage.Redb.{Json, Redb}
use peat_gateway.Base.{sym, subst, err, true, ok, ◌≡◌, Bool, Result, refl}
use peat_gateway.Storage.Postgres
use peat_gateway.Storage.Backend
use peat_gateway.Storage.Identity
use peat_gateway.Storage.Backend.{create, Db}
use peat_gateway.Storage.Postgres.{delete_row, read_row, connect}

unit_answer-true :
    {D : Type 0} (q : Result (Unit {0}) × D) (b : Bool)
    → (unit_answer q).0 ≡ ok b
    → (q.0 ≡ ok tt) × (true ≡ b)
unit_answer-true (ok u, d) b h = (refl, cc)
unit_answer-true (err e, d) b h = absurd cc

unit_answer_state : {D : Type 0} (q : Result (Unit {0}) × D) → (unit_answer q).1 ≡ q.1
unit_answer_state (ok u, d) = refl
unit_answer_state (err e, d) = refl

answered : {x y b : Bool} → x ≡ y → ok x ≡ ok b → y ≡ b
answered q h = cc

created_table : {T : Type 0} ⦃r : Redb T⦄ (t : TableName) → table t create ≡ r.create
unfolding create table
created_table ⦃r⦄ =
    by_table (λ t. table t create ≡ r.create) refl refl refl refl refl refl refl refl

-- The new databases of both backends.
created_agrees : (T D : Type 0) ⦃r : Redb T⦄ ⦃sql : Sql D⦄ → Agree {T = T} {D = D} create connect
unfolding Agree create connect
created_agrees T D ⦃r⦄ ⦃sql⦄ t o cs fits free =
    ap (λ x. r.get x (joined o cs)) (created_table t)
    ∙ r.get_lem r.create (joined o cs)
    ∙ ap (lookup (joined o cs)) r.iter-create
    ∙ lookup-nil (joined o cs)
    ∙ sym (sql.select-created t (o, cs))

module _ {T D : Type 0} ⦃r : Redb T⦄ ⦃j : Json⦄ ⦃sql : Sql D⦄ where
  -- The outcome of a call on both, where it succeeds on PostgreSQL.
  abbrev Same : Db T → D → Call → Type 0
  Same db d c =
      (b : Bool)
      → (on_postgres c d).0 ≡ ok b
      → ((on_redb c db).0 ≡ b) × Agree (on_redb c db).1 (on_postgres c d).1

  written :
      (x : Db T) (q : Result (Unit {0}) × D)
      → (q.0 ≡ ok tt → Agree x q.1)
      → (b : Bool) → (unit_answer q).0 ≡ ok b
      → (true ≡ b) × Agree x (unit_answer q).1
  written x q agree b h =
      let (fine, same) = unit_answer-true q b h in
      (same, subst (Agree x) (sym (unit_answer_state q)) (agree fine))

  appended :
      (entry : EnrollmentAuditEntry) (db : Db T) (d : D)
      → Agree db d
      → Same db d (append_audit entry)
  unfolding Agree Postgres.append_audit Identity.append_audit on_redb on_postgres table
  appended entry db d agree = written _ _ λ h t o cs fits free.
      let same =
        by_table (λ u. table u (Identity.append_audit db entry) ≡ table u db) refl refl refl refl
          refl refl refl refl t in
      ap (λ x. r.get x (joined o cs)) same
      ∙ agree t o cs fits free
      ∙ sym (sql.select-insert_audit _ d _ t (o, cs) (executed-some _ d h))

  step_agrees : (c : Call) (db : Db T) (d : D) → IsAllowed d c → Agree db d → Same db d c
  unfolding on_redb on_postgres IsAllowed delete_row table set_table joined formation_key token_key
      sink_key idp_key policy_rule_key cursor_key Backend.delete_org Postgres.delete_org
      Backend.create_formation Backend.create_org Backend.create_sink Backend.create_token
      Backend.delete_formation Backend.delete_genesis Backend.delete_sink Backend.delete_token
      Backend.set_cursor Backend.store_genesis Backend.update_org Backend.update_sink
      Backend.update_token Identity.create_idp Identity.create_policy_rule Identity.delete_idp
      Identity.delete_policy_rule Identity.update_idp Postgres.create_formation Postgres.create_idp
      Postgres.create_org Postgres.create_policy_rule Postgres.create_sink Postgres.create_token
      Postgres.delete_formation Postgres.delete_genesis Postgres.delete_idp
      Postgres.delete_policy_rule Postgres.delete_sink Postgres.delete_token Postgres.set_cursor
      Postgres.store_genesis Postgres.update_idp Postgres.update_org Postgres.update_sink
      Postgres.update_token
  step_agrees (delete_org o) db d free agree = λ b h. (
    answered (deleted_agrees orgs o [] db d free agree tt) h,
    deleted_org_agrees o db d free agree,
  )
  step_agrees (append_audit entry) db d free agree = appended entry db d agree
  step_agrees (create_org org) db d free agree =
      written _ _ λ h. insert_agrees orgs (org.org_id) ([]) db d free agree _ h
  step_agrees (update_org org) db d free agree =
      written _ (Postgres.update_org org d)
        λ h. update_agrees orgs (org.org_id) ([]) db d free.0 agree _ free.1
  step_agrees (create_formation o formation) db d free agree =
      written _ _ λ h. insert_agrees formations (o) (formation.app_id ∷ []) db d free agree _ h
  step_agrees (delete_formation o app) db d free agree = λ b h. (
    answered (deleted_agrees formations (o) (app ∷ []) db d free agree tt) h,
    delete_agrees formations (o) (app ∷ []) db d free agree refl,
  )
  step_agrees (create_token token) db d free agree =
      written _ _ λ h.
        insert_agrees enrollment_tokens (token.org_id) (token.token_id ∷ []) db d free agree _ h
  step_agrees (update_token token) db d free agree = written _ (Postgres.update_token token d) λ h.
      update_agrees enrollment_tokens (token.org_id) (token.token_id ∷ []) db d free.0 agree _
        free.1
  step_agrees (delete_token o id) db d free agree = λ b h. (
    answered (deleted_agrees enrollment_tokens (o) (id ∷ []) db d free agree tt) h,
    delete_agrees enrollment_tokens (o) (id ∷ []) db d free agree refl,
  )
  step_agrees (create_sink sink) db d free agree =
      written _ _ λ h. insert_agrees cdc_sinks (sink.org_id) (sink.sink_id ∷ []) db d free agree _ h
  step_agrees (update_sink sink) db d free agree =
      written _ (Postgres.update_sink sink d)
        λ h. update_agrees cdc_sinks (sink.org_id) (sink.sink_id ∷ []) db d free.0 agree _ free.1
  step_agrees (delete_sink o id) db d free agree = λ b h. (
    answered (deleted_agrees cdc_sinks (o) (id ∷ []) db d free agree tt) h,
    delete_agrees cdc_sinks (o) (id ∷ []) db d free agree refl,
  )
  step_agrees (create_idp idp) db d free agree =
      written _ _ λ h. insert_agrees idp_configs (idp.org_id) (idp.idp_id ∷ []) db d free agree _ h
  step_agrees (update_idp idp) db d free agree =
      written _ (Postgres.update_idp idp d)
        λ h. update_agrees idp_configs (idp.org_id) (idp.idp_id ∷ []) db d free.0 agree _ free.1
  step_agrees (delete_idp o id) db d free agree = λ b h. (
    answered (deleted_agrees idp_configs (o) (id ∷ []) db d free agree tt) h,
    delete_agrees idp_configs (o) (id ∷ []) db d free agree refl,
  )
  step_agrees (create_policy_rule rule) db d free agree =
      written _ _
        λ h. insert_agrees policy_rules (rule.org_id) (rule.rule_id ∷ []) db d free agree _ h
  step_agrees (delete_policy_rule o id) db d free agree = λ b h. (
    answered (deleted_agrees policy_rules (o) (id ∷ []) db d free agree tt) h,
    delete_agrees policy_rules (o) (id ∷ []) db d free agree refl,
  )
  step_agrees (store_genesis o app encoded) db d free agree =
      written _ _ λ h. upsert_agrees genesis (o) (app ∷ []) db d free agree _ h
  step_agrees (delete_genesis o app) db d free agree = λ b h. (
    answered (deleted_agrees genesis (o) (app ∷ []) db d free agree tt) h,
    delete_agrees genesis (o) (app ∷ []) db d free agree refl,
  )
  step_agrees (set_cursor o app doc_id change_hash) db d free agree =
      written _ _ λ h. upsert_agrees cdc_cursors (o) (app ∷ doc_id ∷ []) db d free agree _ h

  run_agrees :
      (cs : List Call) (db : Db T) (d : D)
      → AllSucceed d cs
      → Agree db d
      → Agree (run_redb cs db) (run_postgres cs d)
  unfolding run_redb run_postgres AllSucceed
  run_agrees [] db d fine agree = agree
  run_agrees (c ∷ cs) db d (allowed, (b, h), rest) agree =
      run_agrees cs (on_redb c db).1 (on_postgres c d).1 rest
        (step_agrees c db d allowed agree b h).1

  -- What the backends answer for one organisation, formation, identifier and document.
  abbrev pub SameReads : Db T → D → Text → Text → Text → Type 0
  SameReads db d o a x =
      (Backend.get_org db o ≡ (Postgres.get_org o d).0)
      × (Backend.get_formation db o a ≡ (Postgres.get_formation o a d).0)
      × (Backend.get_token db o x ≡ (Postgres.get_token o x d).0)
      × (Backend.get_sink db o x ≡ (Postgres.get_sink o x d).0)
      × (Identity.get_idp db o x ≡ (Postgres.get_idp o x d).0)
      × (ok (Backend.get_genesis db o a) ≡ (Postgres.get_genesis o a d).0)
      × (ok (Backend.get_cursor db o a x) ≡ (Postgres.get_cursor o a x d).0)

  reads_same :
      (db : Db T) (d : D) (o a x : Text)
      → NulFree o
      → NulFree a
      → NulFree x
      → Agree db d
      → SameReads db d o a x
  unfolding Agree table joined read_row formation_key token_key sink_key idp_key cursor_key
      Backend.get_org Postgres.get_org Backend.get_formation Postgres.get_formation
      Backend.get_token Postgres.get_token Backend.get_sink Postgres.get_sink Identity.get_idp
      Postgres.get_idp Backend.get_genesis Postgres.get_genesis Backend.get_cursor
      Postgres.get_cursor
  reads_same db d o a x free_o free_a free_x agree = (
    ap (decode_opt j.organization) (agree orgs o [] tt free_o),
    ap (decode_opt j.formation) (agree formations o (a ∷ []) tt (free_o, free_a)),
    ap (decode_opt j.token) (agree enrollment_tokens o (x ∷ []) tt (free_o, free_x)),
    ap (decode_opt j.sink) (agree cdc_sinks o (x ∷ []) tt (free_o, free_x)),
    ap (decode_opt j.idp) (agree idp_configs o (x ∷ []) tt (free_o, free_x)),
    ap ok (agree genesis o (a ∷ []) tt (free_o, free_a)),
    ap ok (agree cdc_cursors o (a ∷ x ∷ []) tt (free_o, (free_a, free_x))),
  )

-- After any calls from new databases that all succeed on PostgreSQL, whose texts have no zero
-- byte and which update only what is there, every read by a key returns the same on the
-- PostgreSQL backend as on the redb backend, for keys without a zero byte.
pub run_postgres-run_redb :
    (T D : Type 0) ⦃r : Redb T⦄ ⦃j : Json⦄ ⦃sql : Sql D⦄ (cs : List Call)
    → AllSucceed {D = D} connect cs
    → (o a x : Text) → NulFree o
    → NulFree a
    → NulFree x
    → SameReads {T = T} {D = D} (run_redb cs create) (run_postgres cs connect) o a x
run_postgres-run_redb T D cs fine o a x free_o free_a free_x =
    reads_same _ _ o a x free_o free_a free_x
      (run_agrees cs create connect fine (created_agrees T D))
