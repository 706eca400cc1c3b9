-- ===== src/Api/Handlers/Sinks.antt =====
-- api/sinks.rs: the handlers of CDC sinks.
use peat_gateway.Base.{Text, Bool, List, Exec, map_err, bad_request, not_found}
use peat_gateway.Storage.Redb.{Redb, Json}
use peat_gateway.Storage.Backend.{Db}
use peat_gateway.Crypto.Interfaces.{Hex}
use peat_gateway.Tenant.Models.{CdcSinkConfig, CdcSinkType}
use peat_gateway.Tenant.Sinks
use peat_gateway.Api.Replies.{Ambient, StatusCode, created, returning}

pub record CreateSinkRequest : Type 0 where
  pub sink_type : CdcSinkType

pub record ToggleSinkRequest : Type 0 where
  pub enabled : Bool

module _ {T : Type 0} ⦃r : Redb T⦄ ⦃j : Json⦄ where
  unfoldable pub create_sink :
      ⦃hex : Hex⦄ → Ambient → Text → CreateSinkRequest → Exec (Db T) (StatusCode × CdcSinkConfig)
  create_sink amb org_id req =
      map_err bad_request
        (returning (λ s. (created, s)) (Sinks.create_sink amb.rng amb.now org_id req.sink_type))

  unfoldable pub list_sinks : Text → Exec (Db T) (List CdcSinkConfig)
  list_sinks org_id = map_err not_found (Sinks.list_sinks org_id)

  unfoldable pub get_sink : Text → Text → Exec (Db T) CdcSinkConfig
  get_sink org_id sink_id = map_err not_found (Sinks.get_sink org_id sink_id)

  unfoldable pub toggle_sink : Text → Text → ToggleSinkRequest → Exec (Db T) CdcSinkConfig
  toggle_sink org_id sink_id req = map_err not_found (Sinks.toggle_sink org_id sink_id req.enabled)

  unfoldable pub delete_sink : Text → Text → Exec (Db T) (Unit {0})
  delete_sink org_id sink_id = map_err not_found (Sinks.delete_sink org_id sink_id)
