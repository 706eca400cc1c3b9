-- ===== src/Api/Handlers/Guarded.antt =====
-- api/mod.rs: which requests cannot change the database.
use peat_gateway.Base.{
  ok_or, genesis_not_found, map_err, replace_err, not_found, internal, ◌>>=◌, ◌⊎◌, Text, true,
  Option, some, ◌≡◌, ◌≢◌, refl, Result, Result-cases, ok, err, inl, inr, continue, Exec, Error,
  required, org_not_found, formation_not_found,
}
use peat_gateway.Storage.Redb.{Redb, Json}
use peat_gateway.Storage.Backend
use peat_gateway.Storage.Backend.{Db}
use peat_gateway.Crypto.Interfaces.{Aead, Hex}
use peat_gateway.Tenant.Manager
use peat_gateway.Tenant.Manager.{TenantManager, decrypt_or_legacy}
use peat_gateway.Tenant.Models.{FormationConfig}
use peat_gateway.Tenant.Tokens
use peat_gateway.Tenant.Sinks
use peat_gateway.Tenant.Identity
use peat_gateway.Api.Enroll.{Authorization}
use peat_gateway.Api.Auth.{require_admin_token}
use peat_gateway.Api.Replies.{Ambient}
use peat_gateway.Api.Handlers.{
  FormationState, serve_orgs, serve_tokens, serve_sinks, serve_identity, serve_formations, serve,
  admin_routes,
}
use peat_gateway.Api.Handlers.Orgs
use peat_gateway.Api.Handlers.Tokens as TokenHandlers
use peat_gateway.Api.Handlers.Sinks as SinkHandlers
use peat_gateway.Api.Handlers.Identity as IdentityHandlers
use peat_gateway.Api.Handlers.Formations
use peat_gateway.Api.Routes.{
  is_get, orgs_get, tokens_get, sinks_get, identity_get, Route, orgs, tokens, sinks, identity,
  formations, OrgsRoute, create_org, list_orgs, get_org, update_org, delete_org, create_formation,
  list_formations, get_formation, delete_formation, TokensRoute, create_token, list_tokens,
  get_token, delete_token, revoke_token, SinksRoute, create_sink, list_sinks, get_sink, toggle_sink,
  delete_sink, IdentityRoute, create_idp, list_idps, get_idp, toggle_idp, delete_idp,
  create_policy_rule, list_policy_rules, delete_policy_rule, list_audit, FormationsRoute,
  list_peers, list_documents, list_certificates,
}

module _ {S A B : Type 0} (s : S) where
  continue-state :
      (q : Result A) (f : A → Exec S B) → ((a : A) → (f a s).1 ≡ s) → (continue q f s).1 ≡ s
  continue-state (ok a) f h = h a
  continue-state (err e) f h = refl

  bind-state :
      (e : Error) (m : Exec S A) (k : A → Exec S B)
      → (m s).1 ≡ s
      → ((a : A) → (k a s).1 ≡ s)
      → ((map_err e m >>= k) s).1 ≡ s
  bind-state e m k same h = rw same (continue-state (replace_err e (m s).0) k h)

module _ {T : Type 0} ⦃r : Redb T⦄ ⦃j : Json⦄ (db : Db T) where
  abbrev formation_at : Text → Text → Result FormationConfig
  formation_at o a =
      replace_err not_found (required (Backend.get_formation db o a) formation_not_found)

  -- after a check that the organisation is there
  list_after_org :
      {A : Type 0} (o : Text) (f : Db T → Result A)
      → (continue (required (Backend.get_org db o) org_not_found) (λ org s. (f s, s)) db).1 ≡ db
  list_after_org o f =
      continue-state db (required (Backend.get_org db o) org_not_found) (λ org s. (f s, s))
        λ org. refl

  pub serve_tokens-get :
      ⦃hex : Hex⦄ (amb : Ambient) (x : TokensRoute)
      → tokens_get x ≡ true
      → (serve_tokens amb x db).1 ≡ db
  unfolding serve_tokens TokenHandlers.list_tokens TokenHandlers.get_token Tokens.list_tokens
      Tokens.get_token Manager.get_org Manager.get_formation
  serve_tokens-get amb (create_token o req) h = cc
  serve_tokens-get amb (list_tokens o a) h =
      continue-state db (required (Backend.get_org db o) org_not_found) _ λ org.
        continue-state db (required (Backend.get_formation db o a) formation_not_found) _ λ f. refl
  serve_tokens-get amb (get_token o t) h = refl
  serve_tokens-get amb (delete_token o t) h = cc
  serve_tokens-get amb (revoke_token o t) h = cc

  pub serve_sinks-get :
      ⦃hex : Hex⦄ (amb : Ambient) (x : SinksRoute)
      → sinks_get x ≡ true
      → (serve_sinks amb x db).1 ≡ db
  unfolding serve_sinks SinkHandlers.list_sinks SinkHandlers.get_sink Sinks.list_sinks
      Sinks.get_sink Manager.get_org
  serve_sinks-get amb (create_sink o req) h = cc
  serve_sinks-get amb (list_sinks o) h = list_after_org o _
  serve_sinks-get amb (get_sink o s) h = refl
  serve_sinks-get amb (toggle_sink o s req) h = cc
  serve_sinks-get amb (delete_sink o s) h = cc

  pub serve_identity-get :
      ⦃hex : Hex⦄ (amb : Ambient) (x : IdentityRoute)
      → identity_get x ≡ true
      → (serve_identity amb x db).1 ≡ db
  unfolding serve_identity IdentityHandlers.list_idps IdentityHandlers.get_idp
      IdentityHandlers.list_policy_rules IdentityHandlers.list_audit Identity.list_idps
      Identity.get_idp Identity.list_policy_rules Identity.list_audit Manager.get_org
  serve_identity-get amb (create_idp o req) h = cc
  serve_identity-get amb (list_idps o) h = list_after_org o _
  serve_identity-get amb (get_idp o i) h = refl
  serve_identity-get amb (toggle_idp o i req) h = cc
  serve_identity-get amb (delete_idp o i) h = cc
  serve_identity-get amb (create_policy_rule o req) h = cc
  serve_identity-get amb (list_policy_rules o) h = list_after_org o _
  serve_identity-get amb (delete_policy_rule o x) h = cc
  serve_identity-get amb (list_audit o q) h = list_after_org o _

module _ {T G : Type 0} ⦃r : Redb T⦄ ⦃j : Json⦄ ⦃aead : Aead⦄ (st : FormationState G)
    (amb : Ambient) (db : Db T) where
  pub serve_orgs-get : (x : OrgsRoute) → orgs_get x ≡ true → (serve_orgs st amb x db).1 ≡ db
  unfolding serve_orgs Orgs.list_orgs Orgs.get_org Orgs.list_formations Orgs.get_formation
      Manager.list_orgs Manager.get_org Manager.list_formations Manager.get_formation
  serve_orgs-get (create_org req) h = cc
  serve_orgs-get list_orgs h = refl
  serve_orgs-get (get_org o) h = refl
  serve_orgs-get (update_org o req) h = cc
  serve_orgs-get (delete_org o) h = cc
  serve_orgs-get (create_formation o req) h = cc
  serve_orgs-get (list_formations o) h = list_after_org db o _
  serve_orgs-get (get_formation o a) h = refl
  serve_orgs-get (delete_formation o a) h = cc

  load_genesis-state : (o a : Text) → (Manager.load_genesis st.library st.mgr o a db).1 ≡ db
  unfolding Manager.load_genesis
  load_genesis-state o a =
      continue-state db (ok_or (Backend.get_genesis db o a) genesis_not_found) _
        λ stored. continue-state db (decrypt_or_legacy st.mgr stored) _ λ plaintext. refl

  pub serve_formations-state :
      ⦃hex : Hex⦄ (x : FormationsRoute) → (serve_formations st amb x db).1 ≡ db
  unfolding serve_formations Formations.list_peers Formations.list_documents
      Formations.list_certificates Manager.get_formation Identity.list_audit Manager.get_org
  serve_formations-state (list_peers o a) = continue-state db (formation_at db o a) _ λ f. refl
  serve_formations-state (list_documents o a) = continue-state db (formation_at db o a) _ λ f. refl
  serve_formations-state (list_certificates o a) = continue-state db (formation_at db o a) _ λ f.
      bind-state db internal (Manager.load_genesis st.library st.mgr o a) _ (load_genesis-state o a)
        λ genesis.
          bind-state db internal (Identity.list_audit o (some a) 1000) _ (list_after_org db o _)
            λ entries. refl

  -- An administrative request leaves the database as it was if the check of the administrator's
  -- token refuses it, or if its method is GET.
  pub admin_routes-unchanged :
      ⦃hex : Hex⦄ (admin_token : Option Text) (headers : Authorization) (route : Route)
      → (require_admin_token admin_token headers ≢ ok tt) ⊎ (is_get route ≡ true)
      → (admin_routes st admin_token headers amb route db).1 ≡ db
  unfolding admin_routes serve
  admin_routes-unchanged admin_token headers route (inl refused) =
      elim (Result-cases (require_admin_token admin_token headers)) [
        | inl (e, q) ↦ rw q refl
        | inr (tt, q) ↦ absurd (refused q)
      ]
  admin_routes-unchanged admin_token headers (orgs x) (inr h) =
      continue-state db (require_admin_token admin_token headers) _ λ u. serve_orgs-get x h
  admin_routes-unchanged admin_token headers (tokens x) (inr h) =
      continue-state db (require_admin_token admin_token headers) _ λ u. serve_tokens-get db amb x h
  admin_routes-unchanged admin_token headers (sinks x) (inr h) =
      continue-state db (require_admin_token admin_token headers) _ λ u. serve_sinks-get db amb x h
  admin_routes-unchanged admin_token headers (identity x) (inr h) =
      continue-state db (require_admin_token admin_token headers) _
        λ u. serve_identity-get db amb x h
  admin_routes-unchanged admin_token headers (formations x) (inr h) =
      continue-state db (require_admin_token admin_token headers) _ λ u. serve_formations-state x
