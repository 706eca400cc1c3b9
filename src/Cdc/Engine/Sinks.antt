-- ===== src/Cdc/Engine/Sinks.antt =====
-- cdc/engine.rs: which sinks an event reaches.
use peat_gateway.Base.{
  org_not_found, Error, List, [], ◌∷◌, ◌++◌, Result, ok, err, ◌≡◌, ◌∙◌, if_cases, refl, sym, subst,
  Text, true, false, ◌&&◌, arith, none, some, Result-cases, Bool-cases, inl, inr,
}
use peat_gateway.Storage.Redb.{Redb, Json}
use peat_gateway.Storage.Backend
use peat_gateway.Storage.Backend.{Db}
use peat_gateway.Tenant.Manager.{get_org}
use peat_gateway.Tenant.Models.{CdcSinkConfig, CdcSinkType, nats, kafka, webhook}
use peat_gateway.Tenant.Sinks.{list_sinks}
use peat_gateway.Cdc.Engine.{
  CdcEngine, CdcEvent, Delivery, to_nats, to_webhook, deliver, deliver_all, publish,
}

-- The delivery that a sink is sent: it is enabled, and it is a webhook, in a build that has them, or
-- a NATS subject, in a build that has them and is connected. A Kafka topic is sent none.
pub data Sends (engine : CdcEngine) (event : CdcEvent) : CdcSinkConfig → Delivery → Type 0 where
  over_nats :
      {s : CdcSinkConfig} {subject_prefix : Text}
      → s.enabled ≡ true
      → s.sink_type ≡ nats subject_prefix
      → engine.nats_enabled ≡ true
      → engine.nats_connected ≡ true
      → Sends engine event s (to_nats subject_prefix event)
  over_http :
      {s : CdcSinkConfig} {url : Text}
      → s.enabled ≡ true
      → s.sink_type ≡ webhook url
      → engine.webhook_enabled ≡ true
      → Sends engine event s (to_webhook url event)

-- Each sink of a list that is sent a delivery gets it, in the order of the list, and nothing else is
-- delivered.
pub data Receives (engine : CdcEngine) (event : CdcEvent)
    : List CdcSinkConfig → List Delivery → Type 0 where
  no_more : Receives engine event [] []
  sends :
      {s : CdcSinkConfig} {d : Delivery} {sinks : List CdcSinkConfig} {ds : List Delivery}
      → Sends engine event s d
      → Receives engine event sinks ds
      → Receives engine event (s ∷ sinks) (d ∷ ds)
  skips :
      {s : CdcSinkConfig} {sinks : List CdcSinkConfig} {ds : List Delivery}
      → ((d : Delivery) → ¬ Sends engine event s d)
      → Receives engine event sinks ds
      → Receives engine event (s ∷ sinks) ds

module _ (engine : CdcEngine) (event : CdcEvent) where
  disabled_skips :
      (s : CdcSinkConfig) → s.enabled ≡ false → (d : Delivery) → ¬ Sends engine event s d
  disabled_skips s off d (over_nats on t e c) = absurd cc
  disabled_skips s off d (over_http on t e) = absurd cc

  kafka_skips :
      (s : CdcSinkConfig) (topic : Text)
      → s.sink_type ≡ kafka topic
      → (d : Delivery) → ¬ Sends engine event s d
  kafka_skips s topic k d (over_nats on t e c) =
      absurd (let x : kafka topic ≡ nats _ = sym k ∙ t in cc)
  kafka_skips s topic k d (over_http on t e) =
      absurd (let x : kafka topic ≡ webhook _ = sym k ∙ t in cc)

  nats_skips :
      (s : CdcSinkConfig) (subject_prefix : Text)
      → s.sink_type ≡ nats subject_prefix
      → (engine.nats_enabled && engine.nats_connected) ≡ false
      → (d : Delivery) → ¬ Sends engine event s d
  nats_skips s p k off d (over_nats on t e c) = absurd (ground (arith, e, c, off))
  nats_skips s p k off d (over_http on t e) = absurd (let x : nats p ≡ webhook _ = sym k ∙ t in cc)

  webhook_skips :
      (s : CdcSinkConfig) (url : Text)
      → s.sink_type ≡ webhook url
      → engine.webhook_enabled ≡ false
      → (d : Delivery) → ¬ Sends engine event s d
  webhook_skips s p k off d (over_nats on t e c) =
      absurd (let x : webhook p ≡ nats _ = sym k ∙ t in cc)
  webhook_skips s p k off d (over_http on t e) = absurd cc

  deliver-Receives :
      (s : CdcSinkConfig) (t : CdcSinkType) (sinks : List CdcSinkConfig) (ds : List Delivery)
      → s.enabled ≡ true
      → s.sink_type ≡ t
      → Receives engine event sinks ds
      → Receives engine event (s ∷ sinks) (deliver engine event t ++ ds)
  unfolding deliver
  deliver-Receives s (nats p) sinks ds on is rest =
      elim (Bool-cases (engine.nats_enabled && engine.nats_connected)) [
        | inl up ↦ rw up (sends (over_nats on is (ground (arith, up)) (ground (arith, up))) rest)
        | inr down ↦ rw down (skips (nats_skips s p is down) rest)
      ]
  deliver-Receives s (kafka topic) sinks ds on is rest = skips (kafka_skips s topic is) rest
  deliver-Receives s (webhook url) sinks ds on is rest =
      if_cases engine.webhook_enabled (λ l. Receives engine event (s ∷ sinks) (l ++ ds))
        (λ up. sends (over_http on is up) rest) (λ down. skips (webhook_skips s url is down) rest)

  deliver_all-Receives :
      (sinks : List CdcSinkConfig) → Receives engine event sinks (deliver_all engine event sinks)
  unfolding deliver_all
  deliver_all-Receives [] = no_more
  deliver_all-Receives (s ∷ sinks) =
      if_cases s.enabled (Receives engine event (s ∷ sinks))
        (λ on. deliver-Receives s s.sink_type sinks _ on refl (deliver_all-Receives sinks))
        (λ off. skips (disabled_skips s off) (deliver_all-Receives sinks))

module _ {T : Type 0} ⦃r : Redb T⦄ ⦃j : Json⦄ (engine : CdcEngine) (event : CdcEvent) where
  pub publish_cases :
      (P : Result (List Delivery) × Db T → Type 0) (db : Db T)
      → ((e : Error) → P (err e, db))
      → ((sinks : List CdcSinkConfig)
          → Backend.list_sinks db event.org_id ≡ ok sinks
          → P (ok (deliver_all engine event sinks), db))
      → P (publish engine event db)
  unfolding publish list_sinks get_org
  publish_cases P db bad good = elim (Result-cases (Backend.get_org db event.org_id)) [
    | inl (e, q) ↦ rw q (bad e)
    | inr (none, q) ↦ rw q (bad org_not_found)
    | inr (some org, q) ↦ rw q (elim (Result-cases (Backend.list_sinks db event.org_id)) [
      | inl (e, l) ↦ rw l (bad e)
      | inr (sinks, l) ↦ rw l (good sinks l)
    ])
  ]

  -- A publication that succeeds starts exactly one delivery of the event for each enabled sink
  -- of its organisation that is a webhook, in a build with webhooks, or a NATS subject, in a
  -- build with NATS that is connected, in the order of the listing, none for a Kafka topic, and
  -- leaves the database as it was.
  pub publish-received :
      (db : Db T) (ds : List Delivery)
      → (publish engine event db).0 ≡ ok ds
      → (sinks : List CdcSinkConfig) × (Backend.list_sinks db event.org_id ≡ ok sinks)
        × Receives engine event sinks ds
        × ((publish engine event db).1 ≡ db)
  publish-received db ds =
      publish_cases
        (λ q.
          q.0 ≡ ok ds
          → (sinks : List CdcSinkConfig) × (Backend.list_sinks db event.org_id ≡ ok sinks)
            × Receives engine event sinks ds
            × (q.1 ≡ db))
        db (λ e bad. absurd cc)
        λ sinks listed h.
          let same : deliver_all engine event sinks ≡ ds = cc in
          (
            sinks,
            listed,
            subst (Receives engine event sinks) same (deliver_all-Receives engine event sinks),
            refl,
          )
