-- ===== src/Api/Server/Tenancy.antt =====
-- api/mod.rs: the organisations are kept apart over the whole interface of the server.
use peat_gateway.Base.{Text, Option, none, some, List, [], ◌∷◌, ◌≡◌, ◌≢◌, refl, sym, ap, ◌∙◌, subst}
use peat_gateway.Storage.Redb.{Redb, Json}
use peat_gateway.Storage.Keys.Prefixes.{NulFree}
use peat_gateway.Storage.Backend.{Db, create}
use peat_gateway.Storage.Isolation.Reads.{answers}
use peat_gateway.Storage.Keyed.{Keyed, create-Keyed}
use peat_gateway.Storage.Keyed.Effects.{Effect-Keyed, Effect-answers}
use peat_gateway.Crypto.Interfaces.{Aead, Hex}
use peat_gateway.Api.Handlers.{FormationState}
use peat_gateway.Api.Handlers.Effects.{EffectOf}
use peat_gateway.Api.Server.{Request, Call, with_store, app, serve_all}
use peat_gateway.Api.Server.Effects.{request_org, app-Effect}

-- No organisation, or another one, by an identifier without a zero byte.
abbrev pub IsOther : Text → Option Text → Type 0
IsOther p none = Unit {0}
IsOther p (some o) = NulFree o × (o ≢ p)

abbrev pub AllElsewhere : Text → List Call → Type 0
AllElsewhere p [] = Unit {0}
AllElsewhere p ((writable, req) ∷ reqs) = IsOther p (request_org req) × AllElsewhere p reqs

module _ {T : Type 0} ⦃r : Redb T⦄ ⦃j : Json⦄ where
  EffectOf-Keyed : (o : Option Text) {db s : Db T} → EffectOf o db s → Keyed db → Keyed s
  EffectOf-Keyed none same h = subst Keyed (sym same) h
  EffectOf-Keyed (some o) effect h = Effect-Keyed o effect h

  EffectOf-answers :
      (o : Option Text) (p : Text) (db s : Db T)
      → EffectOf o db s
      → NulFree p
      → IsOther p o
      → answers s p ≡ answers db p
  EffectOf-answers none p db s same free other = ap (λ d. answers d p) same
  EffectOf-answers (some o) p db s effect free other =
      Effect-answers o effect p other.0 free other.1

module _ {T G : Type 0} ⦃r : Redb T⦄ ⦃j : Json⦄ ⦃aead : Aead⦄ ⦃hex : Hex⦄ where
  pub app-Keyed :
      (st : FormationState G) (admin_token : Option Text) (req : Request) (db : Db T)
      → Keyed db
      → Keyed (app st admin_token req db).1
  app-Keyed st admin_token req db h =
      EffectOf-Keyed (request_org req) (app-Effect st admin_token req db h) h

module _ {T G : Type 0} ⦃r : Redb T⦄ ⦃j : Json⦄ ⦃aead : Aead⦄ ⦃hex : Hex⦄ (st : FormationState G)
    (admin_token : Option Text) where
  run-Keyed : (reqs : List Call) (db : Db T) → Keyed db → Keyed (serve_all st admin_token reqs db)
  unfolding serve_all
  run-Keyed [] db h = h
  run-Keyed ((writable, req) ∷ reqs) db h =
      run-Keyed reqs _ (app-Keyed (with_store writable st) admin_token req db h)

  answers-run :
      (reqs : List Call) (db : Db T) (p : Text)
      → Keyed db
      → NulFree p
      → AllElsewhere p reqs
      → answers (serve_all st admin_token reqs db) p ≡ answers db p
  unfolding serve_all
  answers-run [] db p h free other = refl
  answers-run ((writable, req) ∷ reqs) db p h free (other, others) =
      let st' = with_store writable st in
      answers-run reqs _ p (app-Keyed st' admin_token req db h) free others
      ∙ EffectOf-answers (request_org req) p db _ (app-Effect st' admin_token req db h) free other

module _ (T : Type 0) {G : Type 0} ⦃r : Redb T⦄ ⦃j : Json⦄ ⦃aead : Aead⦄ ⦃hex : Hex⦄
    (st : FormationState G) (admin_token : Option Text) where
  -- the database of a server that has served some requests
  abbrev pub served : List Call → Db T
  served reqs = serve_all st admin_token reqs create

  -- A server that started with a new database keeps, whatever requests it serves one after the
  -- other, each stored organisation, token, sink and identity provider under its own key, with
  -- an organisation identifier that has no zero byte.
  pub serve_all-Keyed : (reqs : List Call) → Keyed (served reqs)
  serve_all-Keyed reqs = run-Keyed st admin_token reqs create (create-Keyed T)

  -- In the database of a server that started with a new one and has served any requests,
  -- requests that name other organisations by identifiers without a zero byte, administrative
  -- ones and enrollments, with whatever tokens and outcomes, leave every read for an
  -- organisation without a zero byte in its identifier as it was, given that they are served one
  -- after the other.
  pub answers-serve_all :
      (past reqs : List Call) (p : Text)
      → NulFree p
      → AllElsewhere p reqs
      → answers (serve_all st admin_token reqs (served past)) p ≡ answers (served past) p
  answers-serve_all past reqs p free others =
      answers-run st admin_token reqs (served past) p (serve_all-Keyed past) free others
