-- ===== src/Examples/Starts.antt =====
-- A server that starts with a key in its configuration and an empty file.
use peat_gateway.Base.{codes, Bytes, ok, some, none, ◌≡◌, refl, true, false}
use peat_gateway.Base.Entries.{Entries}
use peat_gateway.Config.{GatewayConfig}
use peat_gateway.Storage.Backend
use peat_gateway.Storage.Table.{decode_all}
use peat_gateway.Crypto.Build.{build_key_provider, build_with, build_local}
use peat_gateway.Crypto.Envelope.{is_envelope}
use peat_gateway.Crypto.Local.{from_hex}
use peat_gateway.Tenant.Manager.{create_formation, load_genesis}
use peat_gateway.Tenant.Models.{controlled}
use peat_gateway.Tenant.Start.{Places, fresh, closed, in_redb, open_storage, new}
use peat_gateway.Tenant.Start.Encrypts.{create_formation-new}
use peat_gateway.Examples.Stores.{entries_redb, entries_json}
use peat_gateway.Examples.World.{
  tagging, plain_hex, named_mesh, counting, draws, kek, mgr, all_writable,
}
use peat_gateway.Examples.Databases.{acme_db, app_formation}
use peat_gateway.Examples.Rows.{Database, rows_sql}
use peat_gateway.Examples.Providers.{plain_base64, services, faithful, config}
use peat_gateway.Examples.Formations.{created_ok}

abbrev keyed : GatewayConfig
keyed = record config { vault_addr = none; kek = some kek }

abbrev places : Places Entries Database
places = record {
  file = λ path. fresh;
  server = λ url. closed;
  postgres_enabled = false;
  writable = all_writable;
}

started : new places services keyed ≡ ok (mgr, in_redb Backend.create)
unfolding new open_storage build_key_provider build_with build_local from_hex Backend.list_orgs
    Backend.create entries_redb entries_json decode_all
started = refl

create_formation-new_example :
    let db' =
      (create_formation named_mesh mgr counting draws
        (codes "acme")
        (codes "app")
        controlled
        acme_db).1 in
    (load_genesis named_mesh mgr (codes "acme") (codes "app") db' ≡ (ok (codes "app"), db'))
    × ((bytes : Bytes) × (Backend.get_genesis db' (codes "acme") (codes "app") ≡ some bytes)
        × (is_envelope bytes ≡ true))
create_formation-new_example =
    create_formation-new places services named_mesh keyed mgr (in_redb Backend.create) counting
      draws (codes "acme") (codes "app") controlled acme_db app_formation faithful refl started
      created_ok
