-- ===== src/Examples/Formations.antt =====
-- Runs of the theorems on formations, envelopes and identifiers.
use peat_gateway.Base.{
  ◌+◌, ◌≤◌, ◌≡◌, ◌↔◌, refl, Text, Bytes, codes, some, true, List, [], ◌∷◌, ◌++◌, arith, Result, ok,
  err, ◌==◌, starts_with, length, drop, formation_exists, formation_not_found, genesis_not_found,
  query_failed, false, ◌⊎◌,
}
use peat_gateway.Base.Entries.{Entries, lookup, put, erase}
use peat_gateway.Storage.Keys.{formation_key, formation_prefix}
use peat_gateway.Storage.Backend
use peat_gateway.Storage.Backend.{Db}
use peat_gateway.Storage.Table.{decode_opt, decode_all}
use peat_gateway.Storage.Table.Listing.{Inserted}
use peat_gateway.Crypto.Interfaces.{random_bytes}
use peat_gateway.Crypto.Envelope.{seal, open_envelope, is_envelope, slice, byte_at, from_le_bytes}
use peat_gateway.Crypto.Envelope.RoundTrip.{open_envelope-seal}
use peat_gateway.Crypto.Envelope.Malformed.{open_envelope_in_bounds}
use peat_gateway.Crypto.Local.{local_provider, wrap_dek}
use peat_gateway.Tenant.Models.{FormationConfig, controlled, open_policy}
use peat_gateway.Tenant.Validate.{validate_identifier}
use peat_gateway.Tenant.Validate.Identifiers.{validate_identifier_iff, IsIdentifier}
use peat_gateway.Tenant.Mesh.{mesh_policy}
use peat_gateway.Tenant.Manager.{
  TenantManager, create_formation, delete_formation, load_genesis, get_formation, get_org,
}
use peat_gateway.Tenant.Manager.Cases.{formation_of}
use peat_gateway.Tenant.Manager.Genesis.{
  create_formation-load_genesis, delete_formation-load_genesis,
}
use peat_gateway.Tenant.Manager.Quota.{create_formation-list_formations, create_formation-err}
use peat_gateway.Examples.Stores.{entries_redb, entries_json}
use peat_gateway.Examples.World.{
  tagging, named_mesh, counting, draws, provider, mgr, all_writable, provider-KeepsDeks,
}
use peat_gateway.Examples.Databases.{acme_org, app_formation, acme_db, app_db}

abbrev acme : Text
acme = codes "acme"

abbrev app : Text
app = codes "app"

abbrev secret : Bytes
secret = 7 ∷ 8 ∷ 9 ∷ []

-- what the provider makes of `secret`
abbrev sealed : Bytes
unfolding seal local_provider wrap_dek random_bytes
sealed = elim (seal provider draws secret) [ ok e ↦ e | err x ↦ [] ]

seal-secret : seal provider draws secret ≡ ok sealed
unfolding seal local_provider wrap_dek random_bytes sealed
seal-secret = refl

open_envelope-seal_example :
    (open_envelope provider sealed ≡ ok (some secret)) × (is_envelope sealed ≡ true)
open_envelope-seal_example =
    open_envelope-seal provider provider-KeepsDeks draws secret sealed seal-secret

open_envelope_in_bounds_example :
    let n = from_le_bytes (byte_at sealed 5) (byte_at sealed 6) in
    (length (slice sealed 7 (7 + n)) ≡ n)
    × (length (slice sealed (7 + n) (7 + n + 12)) ≡ 12)
    × (16 ≤ length (drop (7 + n + 12) sealed))
open_envelope_in_bounds_example =
    open_envelope_in_bounds provider sealed secret open_envelope-seal_example.0

validate_identifier_iff_example :
    (validate_identifier (codes "acme-2") ≡ ok tt) ↔ IsIdentifier (codes "acme-2")
validate_identifier_iff_example = validate_identifier_iff (codes "acme-2")

-- `create_formation` of the formation "app" in an organisation without formations
abbrev created : Result FormationConfig × Db Entries
created = create_formation named_mesh mgr counting draws acme app controlled acme_db

pub created_ok : created.0 ≡ ok app_formation
unfolding create_formation validate_identifier Backend.create_formation Backend.store_genesis
    get_org Backend.get_org Backend.list_formations Backend.get_formation Backend.create_org
    Backend.create entries_redb entries_json lookup put erase decode_opt decode_all formation_key
    formation_prefix starts_with ◌==◌ seal local_provider wrap_dek random_bytes mesh_policy
created_ok = refl

create_formation-load_genesis_example :
    (get_formation acme app created.1 ≡ (ok app_formation, created.1))
    × (load_genesis named_mesh mgr acme app created.1 ≡ (ok app, created.1))
    × (app_formation.mesh_id ≡ codes "mesh-" ++ app)
create_formation-load_genesis_example =
    create_formation-load_genesis named_mesh mgr counting draws acme app controlled acme_db
      app_formation (λ on. provider-KeepsDeks) created_ok

acme_db_found : Backend.get_org acme_db acme ≡ ok (some acme_org)
unfolding Backend.get_org Backend.create_org Backend.create entries_redb entries_json lookup put
    decode_opt ◌==◌
acme_db_found = refl

acme_db_listed : Backend.list_formations acme_db acme ≡ ok []
unfolding Backend.list_formations Backend.create_org Backend.create entries_redb entries_json lookup
    put decode_all
acme_db_listed = refl

create_formation-list_formations_example :
    (l : List FormationConfig) × (Backend.list_formations created.1 acme ≡ ok l)
    × Inserted app_formation [] l
    × (length l ≤ 10)
create_formation-list_formations_example =
    create_formation-list_formations named_mesh mgr counting draws acme app controlled acme_db
      acme_org [] app_formation acme_db_found acme_db_listed (omega arith) created_ok

-- a second formation of the same name
abbrev again : Result FormationConfig × Db Entries
again = create_formation named_mesh mgr counting draws acme app open_policy app_db

again_err : again.0 ≡ err formation_exists
unfolding create_formation validate_identifier Backend.create_formation Backend.store_genesis
    get_org Backend.get_org Backend.list_formations Backend.get_formation Backend.create_org
    Backend.create entries_redb entries_json lookup put erase decode_opt decode_all formation_key
    formation_prefix starts_with ◌==◌
again_err = refl

-- A store that takes the formation and not its genesis.
abbrev half_writable : TenantManager
half_writable = record mgr { store = record all_writable { stores_genesis = false } }

abbrev half : Result FormationConfig × Db Entries
half = create_formation named_mesh half_writable counting draws acme app controlled acme_db

half_err : half.0 ≡ err query_failed
unfolding create_formation validate_identifier Backend.create_formation Backend.store_genesis
    get_org Backend.get_org Backend.list_formations Backend.get_formation Backend.create_org
    Backend.create entries_redb entries_json lookup put erase decode_opt decode_all formation_key
    formation_prefix starts_with ◌==◌ seal local_provider wrap_dek random_bytes mesh_policy
half_err = refl

create_formation-err_example :
    (half.1 ≡ acme_db)
    ⊎ ((half_writable.store.stores_genesis ≡ false)
        × (half.1
            ≡ Backend.create_formation acme_db acme (
                formation_of named_mesh app controlled
                  (named_mesh.create counting app (mesh_policy controlled)))))
create_formation-err_example =
    create_formation-err named_mesh half_writable counting draws acme app controlled acme_db
      query_failed half_err

deleted_ok : (delete_formation mgr acme app app_db).0 ≡ ok tt
unfolding delete_formation Backend.delete_formation Backend.create_formation Backend.create_org
    Backend.create entries_redb lookup put formation_key ◌==◌
deleted_ok = refl

delete_formation-load_genesis_example :
    let db' = (delete_formation mgr acme app app_db).1 in
    (get_formation acme app db' ≡ (err formation_not_found, db'))
    × ((load_genesis named_mesh mgr acme app db').0 ≡ err genesis_not_found)
delete_formation-load_genesis_example =
    delete_formation-load_genesis named_mesh mgr acme app app_db deleted_ok
