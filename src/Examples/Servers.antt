-- ===== src/Examples/Servers.antt =====
-- Runs of the theorems on the server.
use peat_gateway.Base.{
  Text, codes, none, some, map, List, [], ◌∷◌, ◌≡◌, ◌≢◌, inl, Result, ok, err, unauthorized,
}
use peat_gateway.Base.Entries.{Entries}
use peat_gateway.Storage.Keyed.{Keyed}
use peat_gateway.Storage.Isolation.Reads.{answers}
use peat_gateway.Tenant.Models.{nats}
use peat_gateway.Api.Auth.{require_admin_token, bearer_of}
use peat_gateway.Api.Replies.{Ambient}
use peat_gateway.Api.Routes.{
  orgs, tokens, sinks, create_org, create_formation, create_token, delete_org, create_sink,
}
use peat_gateway.Api.Handlers.{FormationState, admin_routes}
use peat_gateway.Api.Handlers.Guarded.{admin_routes-unchanged}
use peat_gateway.Api.Server.{Call, Request, administrates, serve_all}
use peat_gateway.Api.Server.Tenancy.{served, serve_all-Keyed, answers-serve_all}
use peat_gateway.Examples.Stores.{entries_redb, entries_json}
use peat_gateway.Examples.World.{tagging, plain_hex, named_mesh, counting, draws, mgr, all_writable}
use peat_gateway.Examples.Databases.{acme-NulFree, beta-NulFree, beta-other, token_db}

abbrev acme : Text
acme = codes "acme"

abbrev beta : Text
beta = codes "beta"

abbrev state : FormationState Text
state = record { library = named_mesh; mgr = mgr; mesh = []; as_u64 = λ v. none }

abbrev ambient : Ambient
ambient = record { now = 1; rng = counting; genesis_rng = counting; draws = draws }

abbrev founded : Text → Request
founded o = administrates none ambient (orgs (create_org (record { org_id = o; display_name = o })))

-- The store takes every write of these requests.
abbrev taken : List Request → List Call
taken = map λ req. (all_writable, req)

-- Two organisations, a formation and a token.
abbrev past : List Call
past = taken (
    founded acme
    ∷ founded beta
    ∷ administrates none ambient
        (orgs (create_formation acme (record { app_id = codes "app"; enrollment_policy = none })))
    ∷ administrates none ambient (
        tokens (
          create_token acme (record {
            app_id = codes "app";
            label = codes "tablets";
            max_uses = some 2;
            expires_at = none;
          })))
    ∷ [])

abbrev later : List Call
later = taken (
    administrates none ambient
      (sinks (create_sink beta (record { sink_type = nats (codes "beta.events") })))
    ∷ administrates none ambient (orgs (delete_org beta))
    ∷ [])

serve_all-Keyed_example : Keyed (served Entries state none past)
serve_all-Keyed_example = serve_all-Keyed Entries state none past

answers-serve_all_example :
    answers (serve_all state none later (served Entries state none past)) acme
    ≡ answers (served Entries state none past) acme
answers-serve_all_example =
    answers-serve_all Entries state none past later acme acme-NulFree
      ((beta-NulFree, beta-other), ((beta-NulFree, beta-other), tt))

no_token : require_admin_token (some (codes "secret")) none ≢ ok tt
unfolding require_admin_token bearer_of
no_token h = let refused : ◌≡◌ {A = Result (Unit {0})} (err unauthorized) (ok tt) = h in cc

admin_routes-unchanged_example :
    (admin_routes state (some (codes "secret")) none ambient (orgs (delete_org acme)) token_db).1
    ≡ token_db
admin_routes-unchanged_example =
    admin_routes-unchanged state ambient token_db (some (codes "secret")) none
      (orgs (delete_org acme)) (inl no_token)
