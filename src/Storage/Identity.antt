-- ===== src/Storage/Identity.antt =====
-- storage/redb_backend.rs: `impl StorageBackend for RedbBackend`, the identity providers, the
-- policy rules and the audit log.
use mathlib.Core.List.{reverse}
use peat_gateway.Base.{
  ℕ, ◌+◌, Text, ◌==◌, Bool, true, Option, none, some, is_some, List, [], ◌∷◌, ◌++◌, starts_with,
  Result, ok, and_then, ok_or, corrupt_record, leb, if◌then◌else◌,
}
use peat_gateway.Base.Entries.{Entries}
use peat_gateway.Storage.Redb.{Redb, Codec, Json}
use peat_gateway.Storage.Keys.{idp_key, policy_rule_key, audit_key}
use peat_gateway.Storage.Table.{decode_opt, decode_all, with_prefix}
use peat_gateway.Storage.Backend.{Db}
use peat_gateway.Tenant.Models.{IdpConfig, PolicyRule, EnrollmentAuditEntry}

-- `format!("{}\0", org_id)`
abbrev pub org_prefix : Text → Text
org_prefix org_id = org_id ++ (0 ∷ [])

-- `if let Some(ref filter_app) = app_id { if &e.app_id != filter_app { continue; } }`
abbrev pub wanted : Option Text → EnrollmentAuditEntry → Bool
wanted none e = true
wanted (some app) e = e.app_id == app

-- The loop of `list_audit`, from the newest entry. `count` entries were pushed before; the limit
-- is tested after a push.
unfoldable pub collect_audit :
    Codec EnrollmentAuditEntry
    → Text
    → Option Text
    → ℕ
    → ℕ
    → Entries
    → Result (List EnrollmentAuditEntry)
collect_audit c prefix app limit count [] = ok []
collect_audit c prefix app limit count ((k, v) ∷ m) =
    let skip = collect_audit c prefix app limit count m in
    let rest = collect_audit c prefix app limit (count + 1) m in
    if starts_with k prefix
    then and_then (ok_or (c.from_slice v) corrupt_record) (λ e.
      if wanted app e
      then if leb limit (count + 1) then ok (e ∷ []) else and_then rest (λ l. ok (e ∷ l))
      else skip)
    else skip

module _ {T : Type 0} ⦃r : Redb T⦄ where
  unfoldable pub delete_idp : Db T → Text → Text → Bool × Db T
  delete_idp db org_id idp_id =
      let removed = r.remove db.idps (idp_key org_id idp_id) in
      (is_some removed.0, record db { idps = removed.1 })

  unfoldable pub delete_policy_rule : Db T → Text → Text → Bool × Db T
  delete_policy_rule db org_id rule_id =
      let removed = r.remove db.policy_rules (policy_rule_key org_id rule_id) in
      (is_some removed.0, record db { policy_rules = removed.1 })

module _ {T : Type 0} ⦃r : Redb T⦄ ⦃j : Json⦄ where
  unfoldable pub create_idp : Db T → IdpConfig → Db T
  create_idp db idp = record db {
    idps = r.insert db.idps (idp_key idp.org_id idp.idp_id) (j.idp.to_vec idp);
  }

  unfoldable pub get_idp : Db T → Text → Text → Result (Option IdpConfig)
  get_idp db org_id idp_id = decode_opt j.idp (r.get db.idps (idp_key org_id idp_id))

  unfoldable pub list_idps : Db T → Text → Result (List IdpConfig)
  list_idps db org_id = decode_all j.idp (with_prefix (org_prefix org_id) (r.iter db.idps))

  unfoldable pub update_idp : Db T → IdpConfig → Db T
  unfolding create_idp
  update_idp db idp = create_idp db idp

  unfoldable pub create_policy_rule : Db T → PolicyRule → Db T
  create_policy_rule db rule = record db {
    policy_rules =
        r.insert db.policy_rules (policy_rule_key rule.org_id rule.rule_id)
          (j.policy_rule.to_vec rule);
  }

  unfoldable pub list_policy_rules : Db T → Text → Result (List PolicyRule)
  list_policy_rules db org_id =
      decode_all j.policy_rule (with_prefix (org_prefix org_id) (r.iter db.policy_rules))

  unfoldable pub append_audit : Db T → EnrollmentAuditEntry → Db T
  append_audit db entry = record db {
    audit =
        r.insert db.audit (audit_key entry.org_id entry.timestamp_ms entry.audit_id)
          (j.audit_entry.to_vec entry);
  }

  unfoldable pub list_audit : Db T → Text → Option Text → ℕ → Result (List EnrollmentAuditEntry)
  unfolding collect_audit
  list_audit db org_id app_id limit =
      collect_audit j.audit_entry (org_prefix org_id) app_id limit 0 (reverse (r.iter db.audit))
