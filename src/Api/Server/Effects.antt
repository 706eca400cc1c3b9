-- ===== src/Api/Server/Effects.antt =====
-- api/enroll.rs: an enrollment writes only what names its organisation.
use peat_gateway.Base.{if_cases, Text, Option, none, some, ◌≡◌, refl}
use peat_gateway.Storage.Redb.{Redb, Json}
use peat_gateway.Storage.Keys.{token_key}
use peat_gateway.Storage.Backend
use peat_gateway.Storage.Backend.{Db}
use peat_gateway.Storage.Identity as Rows
use peat_gateway.Storage.Isolation.{create_token, append_audit, apply}
use peat_gateway.Storage.Keyed.{Keyed, LiesUnder-org_id}
use peat_gateway.Storage.Keyed.Effects.{Effect, unchanged, written, written_twice}
use peat_gateway.Crypto.Interfaces.{Aead, Hex}
use peat_gateway.Tenant.Mesh.{Mesh}
use peat_gateway.Tenant.Manager.{TenantManager}
use peat_gateway.Tenant.Models.{EnrollmentPolicy, EnrollmentDecision, EnrollmentAuditEntry}
use peat_gateway.Tenant.Tokens.{count_use}
use peat_gateway.Api.Certificate.{EnrollRequest}
use peat_gateway.Api.Enroll.{Authorization, Outside, enroll, build_audit}
use peat_gateway.Api.Enroll.Outcomes.{Grounds, anyone, token_used, idp_vouched}
use peat_gateway.Api.Enroll.Granted.{enroll_cases, entry_of}
use peat_gateway.Api.Handlers.Effects.{EffectOf}
use peat_gateway.Api.Handlers.{FormationState}
use peat_gateway.Api.Routes.{org_of}
use peat_gateway.Api.Server.{Request, administrates, enrolls, checks_health, reads_metrics, app}
use peat_gateway.Api.Handlers.Effects.{admin_routes-Effect}

module _ {T : Type 0} ⦃r : Redb T⦄ ⦃j : Json⦄ {out : Outside} {o a : Text} {headers : Authorization}
    {body : Option EnrollRequest} {db : Db T} (h : Keyed db) (e : EnrollmentAuditEntry)
    (own : e.org_id ≡ o) where
  -- Without the entry.
  Grounds-used :
      {policy : EnrollmentPolicy} {d : EnrollmentDecision} {db₁ : Db T}
      → Grounds out o a headers body db policy d db₁
      → Effect o db db₁
  unfolding apply Backend.update_token token_key count_use
  Grounds-used anyone = unchanged o db
  Grounds-used (token_used bearer t given prefixed found usable) =
      let lies = h.tokens (token_key o bearer) t found in
      written o db (create_token (count_use t))
        (lies.free, LiesUnder-org_id o bearer t.org_id t.token_id lies)
  Grounds-used (idp_vouched bearer idps idp claims rules b0 b1 b2 b3 b4 b5 b6) = unchanged o db

  Grounds-Effect :
      {policy : EnrollmentPolicy} {d : EnrollmentDecision} {db₁ : Db T}
      → Grounds out o a headers body db policy d db₁
      → Effect o db (Rows.append_audit db₁ e)
  unfolding apply Backend.update_token token_key count_use
  Grounds-Effect anyone = written o db (append_audit e) (tt, λ free. own)
  Grounds-Effect (token_used bearer t given prefixed found usable) =
      let lies = h.tokens (token_key o bearer) t found in
      written_twice o db (create_token (count_use t)) (append_audit e)
        (lies.free, LiesUnder-org_id o bearer t.org_id t.token_id lies) (tt, λ free. own)
  Grounds-Effect (idp_vouched bearer idps idp claims rules b0 b1 b2 b3 b4 b5 b6) =
      written o db (append_audit e) (tt, λ free. own)

enroll-Effect :
    {T G : Type 0} ⦃r : Redb T⦄ ⦃j : Json⦄ ⦃aead : Aead⦄ ⦃hex : Hex⦄ (mesh : Mesh G)
    (mgr : TenantManager) (out : Outside) (headers : Authorization) (body : Option EnrollRequest)
    (o a : Text) (db : Db T)
    → Keyed db
    → Effect o db (enroll mesh mgr out headers body o a db).1
unfolding build_audit
enroll-Effect mesh mgr out headers body o a db h =
    enroll_cases mesh mgr out headers body o a db (λ q. Effect o db q.1) (λ e. unchanged o db)
      λ v db₁ g.
        let entry = entry_of mesh mgr out headers body o a db v in
        if_cases mgr.store.appends_audit (Effect o db)
          (λ taken. Grounds-Effect h entry refl g.grounded.grounds)
          (λ lost. Grounds-used h entry refl g.grounded.grounds)

-- The organisation that a request names.
abbrev pub request_org : Request → Option Text
request_org (administrates headers amb route) = org_of route
request_org (enrolls out headers body org_id app_id) = some org_id
request_org checks_health = none
request_org (reads_metrics text) = none

pub app-Effect :
    {T G : Type 0} ⦃r : Redb T⦄ ⦃j : Json⦄ ⦃aead : Aead⦄ ⦃hex : Hex⦄ (st : FormationState G)
    (admin_token : Option Text) (req : Request) (db : Db T)
    → Keyed db
    → EffectOf (request_org req) db (app st admin_token req db).1
unfolding app
app-Effect st admin_token (administrates headers amb route) db h =
    admin_routes-Effect st admin_token headers amb route db h
app-Effect st admin_token (enrolls out headers body o a) db h =
    enroll-Effect st.library st.mgr out headers body o a db h
app-Effect st admin_token checks_health db h = refl
app-Effect st admin_token (reads_metrics text) db h = refl
