-- ===== src/Api/Handlers/Identity.antt =====
-- api/identity.rs: the handlers of identity providers, policy rules and the audit log.
use peat_gateway.Base.{ℕ, Text, Bool, Option, List, map, Exec, map_err, bad_request, not_found}
use peat_gateway.Storage.Redb.{Redb, Json}
use peat_gateway.Storage.Backend.{Db}
use peat_gateway.Crypto.Interfaces.{Hex}
use peat_gateway.Tenant.Models.{
  IdpConfigResponse, to_response, MeshTier, PolicyRule, EnrollmentAuditEntry,
}
use peat_gateway.Tenant.Identity
use peat_gateway.Api.Replies.{Ambient, StatusCode, created, returning, or_default}

pub record CreateIdpRequest : Type 0 where
  pub issuer_url : Text
  pub client_id : Text
  pub client_secret : Text

pub record ToggleIdpRequest : Type 0 where
  pub enabled : Bool

pub record CreatePolicyRuleRequest : Type 0 where
  pub claim_key : Text
  pub claim_value : Text
  pub tier : MeshTier
  pub permissions : Option ℕ
  pub priority : Option ℕ

abbrev pub default_priority : ℕ
default_priority = 100

pub record AuditQuery : Type 0 where
  pub app_id : Option Text
  pub limit : Option ℕ

abbrev pub default_limit : ℕ
default_limit = 100

module _ {T : Type 0} ⦃r : Redb T⦄ ⦃j : Json⦄ where
  unfoldable pub create_idp :
      ⦃hex : Hex⦄ → Ambient → Text → CreateIdpRequest → Exec (Db T) (StatusCode × IdpConfigResponse)
  create_idp amb org_id req = map_err bad_request (
      returning (λ idp. (created, to_response idp))
        (Identity.create_idp amb.rng amb.now org_id req.issuer_url req.client_id req.client_secret))

  unfoldable pub list_idps : Text → Exec (Db T) (List IdpConfigResponse)
  list_idps org_id =
      map_err not_found (returning (λ idps. map to_response idps) (Identity.list_idps org_id))

  unfoldable pub get_idp : Text → Text → Exec (Db T) IdpConfigResponse
  get_idp org_id idp_id = map_err not_found (returning to_response (Identity.get_idp org_id idp_id))

  unfoldable pub toggle_idp : Text → Text → ToggleIdpRequest → Exec (Db T) IdpConfigResponse
  toggle_idp org_id idp_id req =
      map_err not_found (returning to_response (Identity.toggle_idp org_id idp_id req.enabled))

  unfoldable pub delete_idp : Text → Text → Exec (Db T) (Unit {0})
  delete_idp org_id idp_id = map_err not_found (Identity.delete_idp org_id idp_id)

  unfoldable pub create_policy_rule :
      ⦃hex : Hex⦄ → Ambient → Text → CreatePolicyRuleRequest → Exec (Db T) (StatusCode × PolicyRule)
  create_policy_rule amb org_id req = map_err bad_request (
      returning (λ rule. (created, rule))
        (Identity.create_policy_rule amb.rng org_id req.claim_key req.claim_value req.tier
          (or_default 0 req.permissions) (or_default default_priority req.priority)))

  unfoldable pub list_policy_rules : Text → Exec (Db T) (List PolicyRule)
  list_policy_rules org_id = map_err not_found (Identity.list_policy_rules org_id)

  unfoldable pub delete_policy_rule : Text → Text → Exec (Db T) (Unit {0})
  delete_policy_rule org_id rule_id = map_err not_found (Identity.delete_policy_rule org_id rule_id)

  unfoldable pub list_audit : Text → AuditQuery → Exec (Db T) (List EnrollmentAuditEntry)
  list_audit org_id q =
      map_err not_found (Identity.list_audit org_id q.app_id (or_default default_limit q.limit))
