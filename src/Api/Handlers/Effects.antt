-- ===== src/Api/Handlers/Effects.antt =====
-- api/: the admin handlers write only what names the organisation of their route.
use peat_gateway.Base.{
  Text, Option, none, some, ◌≡◌, refl, sym, subst, Result, ok, err, continue, Exec,
}
use peat_gateway.Storage.Redb.{Redb, Json}
use peat_gateway.Storage.Backend.{Db}
use peat_gateway.Storage.Keyed.{Keyed}
use peat_gateway.Storage.Keyed.Effects.{Effect, unchanged}
use peat_gateway.Crypto.Interfaces.{Aead, Hex}
use peat_gateway.Tenant.Effects.{
  create_org-Effect, update_org-Effect, delete_org-Effect, create_formation-Effect,
  delete_formation-Effect, create_token-Effect, revoke_token-Effect, delete_token-Effect,
  create_sink-Effect, toggle_sink-Effect, delete_sink-Effect, create_idp-Effect, toggle_idp-Effect,
  delete_idp-Effect, create_policy_rule-Effect, delete_policy_rule-Effect,
}
use peat_gateway.Api.Enroll.{Authorization}
use peat_gateway.Api.Auth.{require_admin_token}
use peat_gateway.Api.Replies.{Ambient, or_default}
use peat_gateway.Api.Handlers.{
  FormationState, serve_orgs, serve_tokens, serve_sinks, serve_identity, serve, admin_routes,
}
use peat_gateway.Api.Handlers.Guarded.{
  serve_orgs-get, serve_tokens-get, serve_sinks-get, serve_identity-get, serve_formations-state,
}
use peat_gateway.Api.Handlers.Orgs
use peat_gateway.Api.Handlers.Tokens
use peat_gateway.Api.Handlers.Sinks
use peat_gateway.Api.Handlers.Identity
use peat_gateway.Api.Handlers.Identity.{default_priority}
use peat_gateway.Api.Handlers.Orgs.{default_enrollment_policy}
use peat_gateway.Api.Routes.{
  org_of, orgs_org, tokens_org, sinks_org, identity_org, formations_org, Route, orgs, tokens, sinks,
  identity, formations, OrgsRoute, create_org, list_orgs, get_org, update_org, delete_org,
  create_formation, list_formations, get_formation, delete_formation, TokensRoute, create_token,
  list_tokens, get_token, delete_token, revoke_token, SinksRoute, create_sink, list_sinks, get_sink,
  toggle_sink, delete_sink, IdentityRoute, create_idp, list_idps, get_idp, toggle_idp, delete_idp,
  create_policy_rule, list_policy_rules, delete_policy_rule, list_audit,
}

module _ {T : Type 0} ⦃r : Redb T⦄ ⦃j : Json⦄ where
  -- The same for a route that names no organisation: it changes nothing.
  abbrev pub EffectOf : Option Text → Db T → Db T → Type 0
  EffectOf none db s = s ≡ db
  EffectOf (some o) db s = Effect o db s

  kept : (o : Text) {db s : Db T} → s ≡ db → Effect o db s
  kept o {db} same = subst (Effect o db) (sym same) (unchanged o db)

module _ {T : Type 0} ⦃r : Redb T⦄ ⦃j : Json⦄ ⦃hex : Hex⦄ (db : Db T) (h : Keyed db)
    (amb : Ambient) where
  serve_tokens-Effect : (x : TokensRoute) → Effect (tokens_org x) db (serve_tokens amb x db).1
  unfolding serve_tokens Tokens.create_token Tokens.delete_token Tokens.revoke_token
  serve_tokens-Effect (create_token o req) =
      create_token-Effect db h o amb.rng amb.now req.app_id req.label req.max_uses req.expires_at
  serve_tokens-Effect (list_tokens o a) = kept o (serve_tokens-get db amb (list_tokens o a) refl)
  serve_tokens-Effect (get_token o t) = kept o (serve_tokens-get db amb (get_token o t) refl)
  serve_tokens-Effect (delete_token o t) = delete_token-Effect db o t
  serve_tokens-Effect (revoke_token o t) = revoke_token-Effect db h o t

  serve_sinks-Effect : (x : SinksRoute) → Effect (sinks_org x) db (serve_sinks amb x db).1
  unfolding serve_sinks Sinks.create_sink Sinks.toggle_sink Sinks.delete_sink
  serve_sinks-Effect (create_sink o req) = create_sink-Effect db h o amb.rng amb.now req.sink_type
  serve_sinks-Effect (list_sinks o) = kept o (serve_sinks-get db amb (list_sinks o) refl)
  serve_sinks-Effect (get_sink o s) = kept o (serve_sinks-get db amb (get_sink o s) refl)
  serve_sinks-Effect (toggle_sink o s req) = toggle_sink-Effect db h o s req.enabled
  serve_sinks-Effect (delete_sink o s) = delete_sink-Effect db o s

  serve_identity-Effect :
      (x : IdentityRoute) → Effect (identity_org x) db (serve_identity amb x db).1
  unfolding serve_identity Identity.create_idp Identity.toggle_idp Identity.delete_idp
      Identity.create_policy_rule Identity.delete_policy_rule
  serve_identity-Effect (create_idp o req) =
      create_idp-Effect db h o amb.rng amb.now req.issuer_url req.client_id req.client_secret
  serve_identity-Effect (list_idps o) = kept o (serve_identity-get db amb (list_idps o) refl)
  serve_identity-Effect (get_idp o i) = kept o (serve_identity-get db amb (get_idp o i) refl)
  serve_identity-Effect (toggle_idp o i req) = toggle_idp-Effect db h o i req.enabled
  serve_identity-Effect (delete_idp o i) = delete_idp-Effect db o i
  serve_identity-Effect (create_policy_rule o req) =
      create_policy_rule-Effect db o amb.rng req.claim_key req.claim_value req.tier
        (or_default 0 req.permissions) (or_default default_priority req.priority)
  serve_identity-Effect (list_policy_rules o) =
      kept o (serve_identity-get db amb (list_policy_rules o) refl)
  serve_identity-Effect (delete_policy_rule o x) = delete_policy_rule-Effect db o x
  serve_identity-Effect (list_audit o q) = kept o (serve_identity-get db amb (list_audit o q) refl)

module _ {T G : Type 0} ⦃r : Redb T⦄ ⦃j : Json⦄ ⦃aead : Aead⦄ (st : FormationState G)
    (amb : Ambient) (db : Db T) (h : Keyed db) where
  serve_orgs-Effect : (x : OrgsRoute) → EffectOf (orgs_org x) db (serve_orgs st amb x db).1
  unfolding serve_orgs Orgs.create_org Orgs.update_org Orgs.delete_org Orgs.create_formation
      Orgs.delete_formation
  serve_orgs-Effect (create_org req) = create_org-Effect db h req.org_id amb.now req.display_name
  serve_orgs-Effect list_orgs = serve_orgs-get st amb db list_orgs refl
  serve_orgs-Effect (get_org o) = kept o (serve_orgs-get st amb db (get_org o) refl)
  serve_orgs-Effect (update_org o req) = update_org-Effect db h o req.display_name req.quotas
  serve_orgs-Effect (delete_org o) = delete_org-Effect db o
  serve_orgs-Effect (create_formation o req) =
      create_formation-Effect db o st.library st.mgr amb.genesis_rng amb.draws req.app_id
        (or_default default_enrollment_policy req.enrollment_policy)
  serve_orgs-Effect (list_formations o) = kept o (serve_orgs-get st amb db (list_formations o) refl)
  serve_orgs-Effect (get_formation o a) = kept o (serve_orgs-get st amb db (get_formation o a) refl)
  serve_orgs-Effect (delete_formation o a) = delete_formation-Effect db o st.mgr a

  serve-Effect : ⦃hex : Hex⦄ (x : Route) → EffectOf (org_of x) db (serve st amb x db).1
  unfolding serve
  serve-Effect (orgs x) = serve_orgs-Effect x
  serve-Effect (tokens x) = serve_tokens-Effect db h amb x
  serve-Effect (sinks x) = serve_sinks-Effect db h amb x
  serve-Effect (identity x) = serve_identity-Effect db h amb x
  serve-Effect (formations x) = kept (formations_org x) (serve_formations-state st amb db x)

continue-EffectOf :
    {T A B : Type 0} ⦃r : Redb T⦄ ⦃j : Json⦄ (o : Option Text) (q : Result A)
    (f : A → Exec (Db T) B) (db : Db T)
    → ((a : A) → EffectOf o db (f a db).1)
    → EffectOf o db (continue q f db).1
continue-EffectOf o (ok a) f db h = h a
continue-EffectOf none (err e) f db h = refl
continue-EffectOf (some o) (err e) f db h = unchanged o db

pub admin_routes-Effect :
    {T G : Type 0} ⦃r : Redb T⦄ ⦃j : Json⦄ ⦃aead : Aead⦄ ⦃hex : Hex⦄ (st : FormationState G)
    (admin_token : Option Text) (headers : Authorization) (amb : Ambient) (x : Route) (db : Db T)
    → Keyed db
    → EffectOf (org_of x) db (admin_routes st admin_token headers amb x db).1
unfolding admin_routes
admin_routes-Effect st admin_token headers amb x db h =
    continue-EffectOf (org_of x) (require_admin_token admin_token headers) _ db
      λ u. serve-Effect st amb db h x
