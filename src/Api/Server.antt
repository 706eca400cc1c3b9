-- ===== src/Api/Server.antt =====
-- api/mod.rs: the router of the application, as what one request makes of the database, and a run of
-- requests that are served one after the other.
pub mod Effects
pub mod Tenancy
use peat_gateway.Base.{Text, Option, List, [], ◌∷◌, Result, ok}
use peat_gateway.Storage.Redb.{Redb, Json}
use peat_gateway.Storage.Backend.{Db}
use peat_gateway.Crypto.Interfaces.{Aead, Hex}
use peat_gateway.Tenant.Manager.{Writable}
use peat_gateway.Api.Certificate.{EnrollRequest}
use peat_gateway.Api.Enroll.{Authorization, Outside, EnrollmentResponse, enroll}
use peat_gateway.Api.Replies.{Ambient, Reply}
use peat_gateway.Api.Routes.{Route}
use peat_gateway.Api.Handlers.{FormationState, admin_routes}

-- The admin routes, the route of `enroll::router` and those of `health::router`.
pub data Request : Type 0 where
  administrates : Authorization → Ambient → Route → Request
  enrolls : Outside → Authorization → Option EnrollRequest → Text → Text → Request
  checks_health : Request
  reads_metrics : Text → Request

pub data Response : Type 0 where
  administrated : Result Reply → Response
  enrolled : Result EnrollmentResponse → Response
  healthy : Response
  rendered : Text → Response

-- The state that a request is served with, where the store takes these writes.
abbrev pub with_store : {G : Type 0} → Writable → FormationState G → FormationState G
with_store writable st = record st { mgr = record st.mgr { store = writable } }

-- A request, with the writes that the store takes while it is served.
abbrev pub Call : Type 0
Call = Writable × Request

module _ {T G : Type 0} ⦃r : Redb T⦄ ⦃j : Json⦄ ⦃aead : Aead⦄ ⦃hex : Hex⦄ where
  -- `reads_metrics` carries what the recorder of the metrics renders.
  unfoldable pub app : FormationState G → Option Text → Request → Db T → Response × Db T
  app st admin_token (administrates headers amb route) db =
      let (q, db') = admin_routes st admin_token headers amb route db in (administrated q, db')
  app st admin_token (enrolls out headers body org_id app_id) db =
      let (q, db') = enroll st.library st.mgr out headers body org_id app_id db in (enrolled q, db')
  app st admin_token checks_health db = (healthy, db)
  app st admin_token (reads_metrics text) db = (rendered text, db)

  unfoldable pub serve_all : FormationState G → Option Text → List Call → Db T → Db T
  unfolding app
  serve_all st admin_token [] db = db
  serve_all st admin_token ((writable, req) ∷ calls) db =
      serve_all st admin_token calls (app (with_store writable st) admin_token req db).1
