-- ===== src/Api/Routes.antt =====
-- api/: the routes of the admin API, one constructor for each method and path, with what axum takes
-- from the path, the query and the body.
use peat_gateway.Base.{Text, Bool, true, false, Option, none, some}
use peat_gateway.Api.Handlers.Orgs.{CreateOrgRequest, UpdateOrgRequest, CreateFormationRequest}
use peat_gateway.Api.Handlers.Tokens.{CreateTokenRequest}
use peat_gateway.Api.Handlers.Sinks.{CreateSinkRequest, ToggleSinkRequest}
use peat_gateway.Api.Handlers.Identity.{
  CreateIdpRequest, ToggleIdpRequest, CreatePolicyRuleRequest, AuditQuery,
}

-- `orgs::router`
pub data OrgsRoute : Type 0 where
  create_org : CreateOrgRequest → OrgsRoute
  list_orgs : OrgsRoute
  get_org : Text → OrgsRoute
  update_org : Text → UpdateOrgRequest → OrgsRoute
  delete_org : Text → OrgsRoute
  create_formation : Text → CreateFormationRequest → OrgsRoute
  list_formations : Text → OrgsRoute
  get_formation : Text → Text → OrgsRoute
  delete_formation : Text → Text → OrgsRoute

-- `tokens::router`
pub data TokensRoute : Type 0 where
  create_token : Text → CreateTokenRequest → TokensRoute
  list_tokens : Text → Text → TokensRoute
  get_token : Text → Text → TokensRoute
  delete_token : Text → Text → TokensRoute
  revoke_token : Text → Text → TokensRoute

-- `sinks::router`
pub data SinksRoute : Type 0 where
  create_sink : Text → CreateSinkRequest → SinksRoute
  list_sinks : Text → SinksRoute
  get_sink : Text → Text → SinksRoute
  toggle_sink : Text → Text → ToggleSinkRequest → SinksRoute
  delete_sink : Text → Text → SinksRoute

-- `identity::router`
pub data IdentityRoute : Type 0 where
  create_idp : Text → CreateIdpRequest → IdentityRoute
  list_idps : Text → IdentityRoute
  get_idp : Text → Text → IdentityRoute
  toggle_idp : Text → Text → ToggleIdpRequest → IdentityRoute
  delete_idp : Text → Text → IdentityRoute
  create_policy_rule : Text → CreatePolicyRuleRequest → IdentityRoute
  list_policy_rules : Text → IdentityRoute
  delete_policy_rule : Text → Text → IdentityRoute
  list_audit : Text → AuditQuery → IdentityRoute

-- `formations::router_with_mesh`
pub data FormationsRoute : Type 0 where
  list_peers : Text → Text → FormationsRoute
  list_documents : Text → Text → FormationsRoute
  list_certificates : Text → Text → FormationsRoute

-- `admin_routes`
pub data Route : Type 0 where
  orgs : OrgsRoute → Route
  tokens : TokensRoute → Route
  sinks : SinksRoute → Route
  identity : IdentityRoute → Route
  formations : FormationsRoute → Route

-- The routes that are reached by GET.
abbrev pub orgs_get : OrgsRoute → Bool
orgs_get (create_org req) = false
orgs_get list_orgs = true
orgs_get (get_org o) = true
orgs_get (update_org o req) = false
orgs_get (delete_org o) = false
orgs_get (create_formation o req) = false
orgs_get (list_formations o) = true
orgs_get (get_formation o a) = true
orgs_get (delete_formation o a) = false

abbrev pub tokens_get : TokensRoute → Bool
tokens_get (create_token o req) = false
tokens_get (list_tokens o a) = true
tokens_get (get_token o t) = true
tokens_get (delete_token o t) = false
tokens_get (revoke_token o t) = false

abbrev pub sinks_get : SinksRoute → Bool
sinks_get (create_sink o req) = false
sinks_get (list_sinks o) = true
sinks_get (get_sink o s) = true
sinks_get (toggle_sink o s req) = false
sinks_get (delete_sink o s) = false

abbrev pub identity_get : IdentityRoute → Bool
identity_get (create_idp o req) = false
identity_get (list_idps o) = true
identity_get (get_idp o i) = true
identity_get (toggle_idp o i req) = false
identity_get (delete_idp o i) = false
identity_get (create_policy_rule o req) = false
identity_get (list_policy_rules o) = true
identity_get (delete_policy_rule o x) = false
identity_get (list_audit o q) = true

abbrev pub is_get : Route → Bool
is_get (orgs x) = orgs_get x
is_get (tokens x) = tokens_get x
is_get (sinks x) = sinks_get x
is_get (identity x) = identity_get x
is_get (formations x) = true

-- The organisation that a route names; all but one name one in their path, or create it.
abbrev pub orgs_org : OrgsRoute → Option Text
orgs_org (create_org req) = some req.org_id
orgs_org list_orgs = none
orgs_org (get_org o) = some o
orgs_org (update_org o req) = some o
orgs_org (delete_org o) = some o
orgs_org (create_formation o req) = some o
orgs_org (list_formations o) = some o
orgs_org (get_formation o a) = some o
orgs_org (delete_formation o a) = some o

abbrev pub tokens_org : TokensRoute → Text
tokens_org (create_token o req) = o
tokens_org (list_tokens o a) = o
tokens_org (get_token o t) = o
tokens_org (delete_token o t) = o
tokens_org (revoke_token o t) = o

abbrev pub sinks_org : SinksRoute → Text
sinks_org (create_sink o req) = o
sinks_org (list_sinks o) = o
sinks_org (get_sink o s) = o
sinks_org (toggle_sink o s req) = o
sinks_org (delete_sink o s) = o

abbrev pub identity_org : IdentityRoute → Text
identity_org (create_idp o req) = o
identity_org (list_idps o) = o
identity_org (get_idp o i) = o
identity_org (toggle_idp o i req) = o
identity_org (delete_idp o i) = o
identity_org (create_policy_rule o req) = o
identity_org (list_policy_rules o) = o
identity_org (delete_policy_rule o x) = o
identity_org (list_audit o q) = o

abbrev pub formations_org : FormationsRoute → Text
formations_org (list_peers o a) = o
formations_org (list_documents o a) = o
formations_org (list_certificates o a) = o

abbrev pub org_of : Route → Option Text
org_of (orgs x) = orgs_org x
org_of (tokens x) = some (tokens_org x)
org_of (sinks x) = some (sinks_org x)
org_of (identity x) = some (identity_org x)
org_of (formations x) = some (formations_org x)
