-- ===== src/Api/Handlers/Tokens.antt =====
-- api/tokens.rs: the handlers of enrollment tokens.
use peat_gateway.Base.{ℕ, Text, Option, List, Exec, map_err, bad_request, not_found}
use peat_gateway.Storage.Redb.{Redb, Json}
use peat_gateway.Storage.Backend.{Db}
use peat_gateway.Crypto.Interfaces.{Hex}
use peat_gateway.Tenant.Models.{EnrollmentToken}
use peat_gateway.Tenant.Tokens
use peat_gateway.Api.Replies.{Ambient, StatusCode, created, returning}

pub record CreateTokenRequest : Type 0 where
  pub app_id : Text
  pub label : Text
  pub max_uses : Option ℕ
  pub expires_at : Option ℕ

module _ {T : Type 0} ⦃r : Redb T⦄ ⦃j : Json⦄ where
  unfoldable pub create_token :
      ⦃hex : Hex⦄ → Ambient → Text → CreateTokenRequest → Exec (Db T) (StatusCode × EnrollmentToken)
  create_token amb org_id req = map_err bad_request (
      returning (λ t. (created, t))
        (Tokens.create_token amb.rng amb.now org_id req.app_id req.label req.max_uses
          req.expires_at))

  unfoldable pub list_tokens : Text → Text → Exec (Db T) (List EnrollmentToken)
  list_tokens org_id app_id = map_err not_found (Tokens.list_tokens org_id app_id)

  unfoldable pub get_token : Text → Text → Exec (Db T) EnrollmentToken
  get_token org_id token_id = map_err not_found (Tokens.get_token org_id token_id)

  unfoldable pub revoke_token : Text → Text → Exec (Db T) EnrollmentToken
  revoke_token org_id token_id = map_err bad_request (Tokens.revoke_token org_id token_id)

  unfoldable pub delete_token : Text → Text → Exec (Db T) (Unit {0})
  delete_token org_id token_id = map_err not_found (Tokens.delete_token org_id token_id)
