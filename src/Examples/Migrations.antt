-- ===== src/Examples/Migrations.antt =====
-- Runs of the migration theorems.
use peat_gateway.Base.{ℕ, ◌≡◌, refl, codes, true, false, [], ◌∷◌, Result, ok, ◌==◌, starts_with}
use peat_gateway.Base.Entries.{Entries, lookup, put}
use peat_gateway.Storage.Keys.{formation_key, formation_prefix}
use peat_gateway.Storage.Table.{decode_all}
use peat_gateway.Storage.Backend
use peat_gateway.Storage.Backend.{Db}
use peat_gateway.Crypto.Interfaces.{random_bytes}
use peat_gateway.Crypto.Envelope.{Draws, seal, open_envelope, is_envelope, slice}
use peat_gateway.Crypto.Local.{local_provider, wrap_dek, unwrap_dek}
use peat_gateway.Tenant.Manager.{load_genesis}
use peat_gateway.Cli.{
  Summary, migrate_keys, visit_orgs, visit_formations, visit_formation, visit_record, seal_record,
}
use peat_gateway.Cli.Preserves.{migrate_keys-load_genesis}
use peat_gateway.Cli.Reaches.{OrgsInEnvelopes, migrate_keys-OrgsInEnvelopes}
use peat_gateway.Examples.Stores.{entries_redb, entries_json}
use peat_gateway.Examples.World.{tagging, named_mesh, draws, provider, mgr}
use peat_gateway.Examples.Databases.{acme_org, app_db}

-- A store with a genesis that was written before encryption was enabled.
abbrev legacy_db : Db Entries
legacy_db = Backend.store_genesis app_db (codes "acme") (codes "app") (codes "plain")

abbrev all_draws : ℕ → Draws
all_draws n = draws

abbrev migrated : Result Summary × Db Entries
migrated = migrate_keys provider false all_draws true legacy_db

abbrev one_migrated : Summary
one_migrated = record { total = 1; migrated = 1; already_encrypted = 0; missing_genesis = 0 }

legacy_db_listed : Backend.list_orgs legacy_db ≡ ok (acme_org ∷ [])
unfolding Backend.list_orgs Backend.store_genesis Backend.create_formation Backend.create_org
    Backend.create entries_redb entries_json lookup put decode_all
legacy_db_listed = refl

migrated_ok : migrated.0 ≡ ok one_migrated
unfolding migrate_keys visit_orgs visit_formations visit_formation visit_record seal_record
    Backend.list_orgs Backend.list_formations Backend.get_genesis Backend.store_genesis
    Backend.create_formation Backend.create_org Backend.create entries_redb entries_json lookup put
    decode_all formation_key formation_prefix starts_with ◌==◌ is_envelope seal open_envelope slice
    local_provider wrap_dek unwrap_dek random_bytes
migrated_ok = refl

migrate_keys-OrgsInEnvelopes_example : OrgsInEnvelopes migrated.1 (acme_org ∷ [])
migrate_keys-OrgsInEnvelopes_example =
    migrate_keys-OrgsInEnvelopes provider all_draws true legacy_db (acme_org ∷ []) one_migrated
      legacy_db_listed migrated_ok

migrate_keys-load_genesis_example :
    (load_genesis named_mesh mgr (codes "acme") (codes "app") migrated.1).0
    ≡ (load_genesis named_mesh mgr (codes "acme") (codes "app") legacy_db).0
migrate_keys-load_genesis_example =
    migrate_keys-load_genesis named_mesh mgr false true all_draws (codes "acme") (codes "app")
      legacy_db refl
