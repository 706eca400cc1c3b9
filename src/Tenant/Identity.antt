-- ===== src/Tenant/Identity.antt =====
-- tenant/manager.rs: identity providers, policy rules and the enrollment audit.
use peat_gateway.Base.{
  required, ℕ, Text, Bool, true, not, Option, List, Exec, pure, fail, lift, reads, writes, ◌>>=◌,
  ◌>>◌, idp_not_found, rule_not_found, if◌then◌else◌,
}
use peat_gateway.Storage.Redb.{Redb, Json}
use peat_gateway.Storage.Identity
use peat_gateway.Storage.Backend.{Db}
use peat_gateway.Crypto.Interfaces.{Hex, Rng, random_bytes}
use peat_gateway.Tenant.Models.{IdpConfig, PolicyRule, MeshTier, EnrollmentAuditEntry}
use peat_gateway.Tenant.Manager.{get_org, deletes}
use peat_gateway.Tenant.Validate.{validate_issuer_url, validate_non_empty}

module _ {T : Type 0} ⦃r : Redb T⦄ ⦃j : Json⦄ where
  unfoldable pub create_idp :
      ⦃hex : Hex⦄ → Rng → ℕ → Text → Text → Text → Text → Exec (Db T) IdpConfig
  create_idp ⦃hex⦄ rng now org_id issuer_url client_id client_secret = do
    lift (validate_issuer_url issuer_url)
    lift (validate_non_empty client_id)
    lift (validate_non_empty client_secret)
    get_org org_id
    let idp : IdpConfig = record {
      idp_id = hex.encode (random_bytes 8 rng);
      org_id = org_id;
      issuer_url = issuer_url;
      client_id = client_id;
      client_secret = client_secret;
      enabled = true;
      created_at = now;
    }
    writes (λ db. Identity.create_idp db idp)
    pure idp

  unfoldable pub get_idp : Text → Text → Exec (Db T) IdpConfig
  get_idp org_id idp_id = reads (λ db. required (Identity.get_idp db org_id idp_id) idp_not_found)

  unfoldable pub list_idps : Text → Exec (Db T) (List IdpConfig)
  list_idps org_id = do get_org org_id; reads (λ db. Identity.list_idps db org_id)

  unfoldable pub toggle_idp : Text → Text → Bool → Exec (Db T) IdpConfig
  unfolding get_idp
  toggle_idp org_id idp_id enabled = do
    idp ← get_idp org_id idp_id
    let toggled : IdpConfig = record idp { enabled = enabled }
    writes (λ db. Identity.update_idp db toggled)
    pure toggled

  unfoldable pub delete_idp : Text → Text → Exec (Db T) (Unit {0})
  delete_idp org_id idp_id = do
    removed ← deletes (λ db. Identity.delete_idp db org_id idp_id)
    if not removed then fail idp_not_found else pure tt

  unfoldable pub create_policy_rule :
      ⦃hex : Hex⦄ → Rng → Text → Text → Text → MeshTier → ℕ → ℕ → Exec (Db T) PolicyRule
  create_policy_rule ⦃hex⦄ rng org_id claim_key claim_value tier permissions priority = do
    get_org org_id
    let rule : PolicyRule = record {
      rule_id = hex.encode (random_bytes 8 rng);
      org_id = org_id;
      claim_key = claim_key;
      claim_value = claim_value;
      tier = tier;
      permissions = permissions;
      priority = priority;
    }
    writes (λ db. Identity.create_policy_rule db rule)
    pure rule

  unfoldable pub list_policy_rules : Text → Exec (Db T) (List PolicyRule)
  list_policy_rules org_id = do get_org org_id; reads (λ db. Identity.list_policy_rules db org_id)

  unfoldable pub delete_policy_rule : Text → Text → Exec (Db T) (Unit {0})
  delete_policy_rule org_id rule_id = do
    removed ← deletes (λ db. Identity.delete_policy_rule db org_id rule_id)
    if not removed then fail rule_not_found else pure tt

  unfoldable pub append_audit : EnrollmentAuditEntry → Exec (Db T) (Unit {0})
  append_audit entry = writes (λ db. Identity.append_audit db entry)

  unfoldable pub list_audit : Text → Option Text → ℕ → Exec (Db T) (List EnrollmentAuditEntry)
  list_audit org_id app_id limit = do
    get_org org_id
    reads (λ db. Identity.list_audit db org_id app_id limit)
