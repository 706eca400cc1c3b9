-- ===== src/Examples/Publications.antt =====
-- Runs of the theorems on the delivery of events.
use peat_gateway.Examples.Feeds.{engine, event, sink_db}
use peat_gateway.Base.{
  zero, suc, text_lt, ℕ, ◌≡◌, ◌↔◌, refl, codes, List, [], ◌∷◌, ok, ◌==◌, starts_with,
}
use peat_gateway.Base.Entries.{lookup, put}
use peat_gateway.Storage.Keys.{sink_key, sink_prefix}
use peat_gateway.Storage.Table.{decode_opt, decode_all}
use peat_gateway.Storage.Backend
use peat_gateway.Storage.Backend.{Db}
use peat_gateway.Tenant.Models.{CdcSinkConfig}
use peat_gateway.Tenant.Manager.{get_org}
use peat_gateway.Tenant.Sinks.{list_sinks}
use peat_gateway.Cdc.Webhook.{request, sleep, Answer, success, no_answer}
use peat_gateway.Cdc.Webhook
use peat_gateway.Cdc.Webhook.Retries.{
  SucceedsWithin, retries, schedule, with_retries, publish-ok, publish-schedule,
}
use peat_gateway.Cdc.Engine.{Delivery, to_webhook, publish, deliver, deliver_all}
use peat_gateway.Cdc.Engine.Sinks.{Receives, publish-received}
use peat_gateway.Examples.Stores.{entries_redb, entries_json}

-- no answer twice, then success
abbrev third : ℕ → Answer
third zero = no_answer
third (suc zero) = no_answer
third (suc (suc n)) = success

publish-ok_example : ((Webhook.publish third).outcome ≡ ok tt) ↔ SucceedsWithin third 3 0
publish-ok_example = publish-ok third

publish-schedule_example : (Webhook.publish third).trace ≡ with_retries (retries third 3 0) schedule
publish-schedule_example = publish-schedule third

third_trace :
    (Webhook.publish third).trace ≡ request ∷ sleep 100 ∷ request ∷ sleep 200 ∷ request ∷ []
unfolding Webhook.publish Webhook.attempt_from
third_trace = refl

abbrev deliveries : List Delivery
deliveries = to_webhook (codes "https://acme.example") event ∷ []

published : (publish engine event sink_db).0 ≡ ok deliveries
unfolding publish list_sinks get_org deliver_all deliver Backend.get_org Backend.list_sinks
    Backend.create_sink Backend.create_org Backend.create entries_redb entries_json lookup put
    decode_opt decode_all sink_key sink_prefix starts_with ◌==◌ text_lt
published = refl

publish-received_example :
    (sinks : List CdcSinkConfig) × (Backend.list_sinks sink_db (codes "acme") ≡ ok sinks)
    × Receives engine event sinks deliveries
    × ((publish engine event sink_db).1 ≡ sink_db)
publish-received_example = publish-received engine event sink_db deliveries published
