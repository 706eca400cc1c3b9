-- ===== src/Api/Handlers.antt =====
-- api/mod.rs: the admin routes with their handlers, behind the check of the administrator's token.
pub mod Orgs
pub mod Tokens
pub mod Sinks
pub mod Identity
pub mod Formations
pub mod Effects
pub mod Guarded
use peat_gateway.Base.{ℕ, Text, Option, List, [], ◌∷◌, Exec, lift, ◌>>=◌, ◌>>◌}
use peat_gateway.Storage.Redb.{Redb, Json}
use peat_gateway.Storage.Backend.{Db}
use peat_gateway.Crypto.Interfaces.{Aead, Hex}
use peat_gateway.Tenant.Mesh.{Mesh}
use peat_gateway.Tenant.Manager.{TenantManager}
use peat_gateway.Api.Claims.{Value}
use peat_gateway.Api.Enroll.{Authorization}
use peat_gateway.Api.Auth.{require_admin_token}
use peat_gateway.Api.Registry.{BrokerMap}
use peat_gateway.Api.Replies.{
  Ambient, success, Body, no_body, one_org, many_orgs, one_formation, many_formations, one_token,
  many_tokens, one_sink, many_sinks, one_idp, many_idps, one_rule, many_rules, audit_entries, peers,
  documents, certificates, Reply, returning,
}
use peat_gateway.Api.Routes.{
  Route, orgs, tokens, sinks, identity, formations, OrgsRoute, create_org, list_orgs, get_org,
  update_org, delete_org, create_formation, list_formations, get_formation, delete_formation,
  TokensRoute, create_token, list_tokens, get_token, delete_token, revoke_token, SinksRoute,
  create_sink, list_sinks, get_sink, toggle_sink, delete_sink, IdentityRoute, create_idp, list_idps,
  get_idp, toggle_idp, delete_idp, create_policy_rule, list_policy_rules, delete_policy_rule,
  list_audit, FormationsRoute, list_peers, list_documents, list_certificates,
}

-- `Json(…)` beside no status, and beside one
abbrev pub plainly : {S A : Type 0} → (A → Body) → Exec S A → Exec S Reply
plainly f = returning λ a. (success, f a)

abbrev pub with_status : {S A B : Type 0} → (A → Body) → Exec S (B × A) → Exec S (B × Body)
with_status f = returning λ a. (a.0, f a.1)

-- What the routers share: the manager with its libraries, the registry of brokers, and
-- `serde_json::Value::as_u64`.
pub record FormationState (G : Type 0) : Type 0 where
  pub library : Mesh G
  pub mgr : TenantManager
  pub mesh : BrokerMap
  pub as_u64 : Value → Option ℕ

module _ {T G : Type 0} ⦃r : Redb T⦄ ⦃j : Json⦄ ⦃aead : Aead⦄ where
  unfoldable pub serve_orgs : FormationState G → Ambient → OrgsRoute → Exec (Db T) Reply
  serve_orgs st amb (create_org req) = plainly one_org (Orgs.create_org amb req)
  serve_orgs st amb list_orgs = plainly many_orgs Orgs.list_orgs
  serve_orgs st amb (get_org o) = plainly one_org (Orgs.get_org o)
  serve_orgs st amb (update_org o req) = plainly one_org (Orgs.update_org o req)
  serve_orgs st amb (delete_org o) = plainly (λ done. no_body) (Orgs.delete_org o)
  serve_orgs st amb (create_formation o req) =
      with_status one_formation (Orgs.create_formation st.library st.mgr amb o req)
  serve_orgs st amb (list_formations o) = plainly many_formations (Orgs.list_formations o)
  serve_orgs st amb (get_formation o a) = plainly one_formation (Orgs.get_formation o a)
  serve_orgs st amb (delete_formation o a) =
      plainly (λ done. no_body) (Orgs.delete_formation st.mgr o a)

module _ {T : Type 0} ⦃r : Redb T⦄ ⦃j : Json⦄ ⦃hex : Hex⦄ where
  unfoldable pub serve_tokens : Ambient → TokensRoute → Exec (Db T) Reply
  serve_tokens amb (create_token o req) = with_status one_token (Tokens.create_token amb o req)
  serve_tokens amb (list_tokens o a) = plainly many_tokens (Tokens.list_tokens o a)
  serve_tokens amb (get_token o t) = plainly one_token (Tokens.get_token o t)
  serve_tokens amb (delete_token o t) = plainly (λ done. no_body) (Tokens.delete_token o t)
  serve_tokens amb (revoke_token o t) = plainly one_token (Tokens.revoke_token o t)

  unfoldable pub serve_sinks : Ambient → SinksRoute → Exec (Db T) Reply
  serve_sinks amb (create_sink o req) = with_status one_sink (Sinks.create_sink amb o req)
  serve_sinks amb (list_sinks o) = plainly many_sinks (Sinks.list_sinks o)
  serve_sinks amb (get_sink o s) = plainly one_sink (Sinks.get_sink o s)
  serve_sinks amb (toggle_sink o s req) = plainly one_sink (Sinks.toggle_sink o s req)
  serve_sinks amb (delete_sink o s) = plainly (λ done. no_body) (Sinks.delete_sink o s)

  unfoldable pub serve_identity : Ambient → IdentityRoute → Exec (Db T) Reply
  serve_identity amb (create_idp o req) = with_status one_idp (Identity.create_idp amb o req)
  serve_identity amb (list_idps o) = plainly many_idps (Identity.list_idps o)
  serve_identity amb (get_idp o i) = plainly one_idp (Identity.get_idp o i)
  serve_identity amb (toggle_idp o i req) = plainly one_idp (Identity.toggle_idp o i req)
  serve_identity amb (delete_idp o i) = plainly (λ done. no_body) (Identity.delete_idp o i)
  serve_identity amb (create_policy_rule o req) =
      with_status one_rule (Identity.create_policy_rule amb o req)
  serve_identity amb (list_policy_rules o) = plainly many_rules (Identity.list_policy_rules o)
  serve_identity amb (delete_policy_rule o x) =
      plainly (λ done. no_body) (Identity.delete_policy_rule o x)
  serve_identity amb (list_audit o q) = plainly audit_entries (Identity.list_audit o q)

module _ {T G : Type 0} ⦃r : Redb T⦄ ⦃j : Json⦄ ⦃aead : Aead⦄ ⦃hex : Hex⦄ where
  unfoldable pub serve_formations : FormationState G → Ambient → FormationsRoute → Exec (Db T) Reply
  serve_formations st amb (list_peers o a) =
      plainly peers (Formations.list_peers st.mesh amb.now o a)
  serve_formations st amb (list_documents o a) =
      plainly documents (Formations.list_documents st.as_u64 st.mesh o a)
  serve_formations st amb (list_certificates o a) =
      plainly certificates (Formations.list_certificates st.library st.mgr o a)

  unfoldable pub serve : FormationState G → Ambient → Route → Exec (Db T) Reply
  serve st amb (orgs route) = serve_orgs st amb route
  serve st amb (tokens route) = serve_tokens amb route
  serve st amb (sinks route) = serve_sinks amb route
  serve st amb (identity route) = serve_identity amb route
  serve st amb (formations route) = serve_formations st amb route

  -- `admin_routes` of `app_with_metrics_and_mesh`, with the layer around them
  unfoldable pub admin_routes :
      FormationState G → Option Text → Authorization → Ambient → Route → Exec (Db T) Reply
  admin_routes st admin_token headers amb route =
      lift (require_admin_token admin_token headers) >> serve st amb route
