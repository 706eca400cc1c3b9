-- ===== src/Tenant/Sinks.antt =====
-- tenant/manager.rs: CDC sinks and cursors.
use peat_gateway.Base.{
  required, ℕ, Text, Bool, true, not, Option, List, Exec, ok, pure, fail, lift, reads, writes,
  ◌>>=◌, ◌>>◌, quota_reached, sink_not_found, length, leb, if◌then◌else◌,
}
use peat_gateway.Storage.Redb.{Redb, Json}
use peat_gateway.Storage.Backend
use peat_gateway.Storage.Backend.{Db}
use peat_gateway.Crypto.Interfaces.{Hex, Rng, random_bytes}
use peat_gateway.Tenant.Models.{CdcSinkConfig, CdcSinkType}
use peat_gateway.Tenant.Manager.{get_org, deletes, as_u32}
use peat_gateway.Tenant.Validate.{validate_sink_type}

module _ {T : Type 0} ⦃r : Redb T⦄ ⦃j : Json⦄ where
  unfoldable pub create_sink :
      ⦃hex : Hex⦄ → Rng → ℕ → Text → CdcSinkType → Exec (Db T) CdcSinkConfig
  create_sink ⦃hex⦄ rng now org_id sink_type = do
    lift (validate_sink_type sink_type)
    org ← get_org org_id
    existing ← reads (λ db. Backend.list_sinks db org_id)
    if leb org.quotas.max_cdc_sinks (as_u32 (length existing)) then fail quota_reached else do
      let sink : CdcSinkConfig = record {
        sink_id = hex.encode (random_bytes 8 rng);
        org_id = org_id;
        sink_type = sink_type;
        enabled = true;
        created_at = now;
      }
      writes (λ db. Backend.create_sink db sink)
      pure sink

  unfoldable pub get_sink : Text → Text → Exec (Db T) CdcSinkConfig
  get_sink org_id sink_id =
      reads (λ db. required (Backend.get_sink db org_id sink_id) sink_not_found)

  unfoldable pub list_sinks : Text → Exec (Db T) (List CdcSinkConfig)
  list_sinks org_id = do get_org org_id; reads (λ db. Backend.list_sinks db org_id)

  unfoldable pub toggle_sink : Text → Text → Bool → Exec (Db T) CdcSinkConfig
  unfolding get_sink
  toggle_sink org_id sink_id enabled = do
    sink ← get_sink org_id sink_id
    let toggled : CdcSinkConfig = record sink { enabled = enabled }
    writes (λ db. Backend.update_sink db toggled)
    pure toggled

  unfoldable pub delete_sink : Text → Text → Exec (Db T) (Unit {0})
  delete_sink org_id sink_id = do
    removed ← deletes (λ db. Backend.delete_sink db org_id sink_id)
    if not removed then fail sink_not_found else pure tt

module _ {T : Type 0} ⦃r : Redb T⦄ where
  unfoldable pub get_cursor : Text → Text → Text → Exec (Db T) (Option Text)
  get_cursor org_id app_id document_id =
      reads (λ db. ok (Backend.get_cursor db org_id app_id document_id))

  unfoldable pub set_cursor : Text → Text → Text → Text → Exec (Db T) (Unit {0})
  set_cursor org_id app_id document_id change_hash =
      writes (λ db. Backend.set_cursor db org_id app_id document_id change_hash)
