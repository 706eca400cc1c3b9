-- ===== src/Examples/Calls.antt =====
-- Runs of the theorems on the PostgreSQL backend.
use peat_gateway.Tenant.Validate.Identifiers.{validate_identifier-NulFree}
use peat_gateway.Storage.Keys.Prefixes.{NulFree}
use peat_gateway.Tenant.Validate.{validate_identifier}
use peat_gateway.Storage.Sql.{same_columns}
use peat_gateway.Base.Entries.{Entries}
use peat_gateway.Base.{query_failed, err, false, ◌≡◌, ◌==◌, refl, codes, true, List, [], ◌∷◌}
use peat_gateway.Storage.Postgres
use peat_gateway.Storage.Backend.{create}
use peat_gateway.Storage.Postgres.{connect, delete_row, read_row}
use peat_gateway.Storage.Postgres.Calls.{
  Call, create_org, create_formation, create_token, update_token, set_cursor, on_postgres, run_redb,
  run_postgres, AllSucceed, IsAllowed, delete_token,
}
use peat_gateway.Storage.Postgres.Calls.Refines.{SameReads, run_postgres-run_redb}
use peat_gateway.Examples.Databases.{acme_org, app_formation, token, acme-NulFree, app-NulFree}
use peat_gateway.Examples.Rows.{Database, without, find, rows_sql}
use peat_gateway.Examples.Stores.{entries_redb, entries_json}

abbrev calls : List Call
calls =
    create_org acme_org
    ∷ create_formation (codes "acme") app_formation
    ∷ create_token token
    ∷ update_token (record token { uses = 1 })
    ∷ set_cursor (codes "acme") (codes "app") (codes "doc") (codes "1f")
    ∷ delete_token (codes "acme") (codes "peat_2")
    ∷ []

id-NulFree : NulFree (codes "peat_1")
unfolding validate_identifier
id-NulFree = validate_identifier-NulFree (codes "peat_1") refl

id2-NulFree : NulFree (codes "peat_2")
unfolding validate_identifier
id2-NulFree = validate_identifier-NulFree (codes "peat_2") refl

doc-NulFree : NulFree (codes "doc")
unfolding validate_identifier
doc-NulFree = validate_identifier-NulFree (codes "doc") refl

fine : AllSucceed {D = Database} connect calls
unfolding AllSucceed IsAllowed on_postgres connect Postgres.create_org Postgres.create_formation
    rows_sql find without same_columns ◌==◌ Postgres.create_token Postgres.update_token
    Postgres.set_cursor Postgres.delete_token delete_row
fine = (
  acme-NulFree,
  (true, refl),
  (
    (acme-NulFree, app-NulFree),
    (true, refl),
    (
      (acme-NulFree, id-NulFree),
      (true, refl),
      (
        ((acme-NulFree, id-NulFree), refl),
        (true, refl),
        (
          (acme-NulFree, (app-NulFree, doc-NulFree)),
          (true, refl),
          ((acme-NulFree, id2-NulFree), (false, refl), tt),
        ),
      ),
    ),
  ),
)

run_postgres-run_redb_example :
    SameReads {T = Entries} {D = Database}
      (run_redb calls create)
      (run_postgres calls connect)
      (codes "acme")
      (codes "app")
      (codes "app")
run_postgres-run_redb_example =
    run_postgres-run_redb Entries Database calls fine (codes "acme") (codes "app") (codes "app")
      acme-NulFree app-NulFree app-NulFree

-- An organisation that is there cannot be created again, where the redb backend overwrites it.
created_twice :
    (on_postgres (create_org acme_org) (run_postgres {D = Database} calls connect)).0
    ≡ err query_failed
unfolding run_postgres on_postgres connect Postgres.create_org Postgres.create_formation
    Postgres.create_token Postgres.update_token Postgres.set_cursor Postgres.delete_token delete_row
    rows_sql find without same_columns ◌==◌
created_twice = refl
