-- ===== src/Cdc/Engine.antt =====
-- cdc/engine.rs: `CdcEngine::publish`, as the deliveries that it starts.
pub mod Sinks
use peat_gateway.Base.{
  ℕ, Text, Bool, ◌&&◌, List, [], ◌∷◌, ◌++◌, Result, ok, and_then, if◌then◌else◌, Exec, reads, ◌>>=◌,
  pure,
}
use peat_gateway.Storage.Redb.{Redb, Json}
use peat_gateway.Storage.Backend.{Db}
use peat_gateway.Tenant.Models.{CdcSinkConfig, CdcSinkType, nats, kafka, webhook}
use peat_gateway.Tenant.Sinks.{list_sinks}
use peat_gateway.Api.Claims.{Value}

pub record CdcEvent : Type 0 where
  pub org_id : Text
  pub app_id : Text
  pub document_id : Text
  pub change_hash : Text
  pub actor_id : Text
  pub timestamp_ms : ℕ
  pub patches : Value

-- The features that the build has, and whether `nats_sink` is there.
pub record CdcEngine : Type 0 where
  pub nats_enabled : Bool
  pub nats_connected : Bool
  pub webhook_enabled : Bool

-- A call of a sink's `publish`. Whether it fails is only logged.
pub data Delivery : Type 0 where
  to_nats : Text → CdcEvent → Delivery
  to_webhook : Text → CdcEvent → Delivery

-- `match &sink.sink_type`
unfoldable pub deliver : CdcEngine → CdcEvent → CdcSinkType → List Delivery
deliver engine event (nats subject_prefix) =
    if engine.nats_enabled && engine.nats_connected then to_nats subject_prefix event ∷ [] else []
deliver engine event (kafka topic) = []
deliver engine event (webhook url) =
    if engine.webhook_enabled then to_webhook url event ∷ [] else []

-- `for sink in sinks { if !sink.enabled { continue; } … }`
unfoldable pub deliver_all : CdcEngine → CdcEvent → List CdcSinkConfig → List Delivery
unfolding deliver
deliver_all engine event [] = []
deliver_all engine event (sink ∷ sinks) =
    let rest = deliver_all engine event sinks in
    if sink.enabled then deliver engine event sink.sink_type ++ rest else rest

module _ {T : Type 0} ⦃r : Redb T⦄ ⦃j : Json⦄ where
  unfoldable pub publish : CdcEngine → CdcEvent → Exec (Db T) (List Delivery)
  unfolding deliver_all
  publish engine event = do sinks ← list_sinks event.org_id; pure (deliver_all engine event sinks)
