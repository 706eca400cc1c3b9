-- ===== src/Examples/Feeds.antt =====
-- Sinks, events and documents for the examples on the delivery of events.
use peat_gateway.Examples.Stores.{entries_redb, entries_json}
use peat_gateway.Cdc.Watcher.{updated, Arrival, Moment}
use peat_gateway.Api.Claims.{string, as_str, null}
use peat_gateway.Cdc.Documents.{DefaultHasher, Document, Serde}
use peat_gateway.Cdc.Engine.{CdcEngine, CdcEvent}
use peat_gateway.Tenant.Models.{webhook, CdcSinkConfig}
use peat_gateway.Base.{◌^◌, [], ◌%◌, length, ◌∷◌, none, ◌+◌, some, ℕ, List, codes, true, false}
use peat_gateway.Base.Entries.{Entries}
use peat_gateway.Storage.Backend
use peat_gateway.Storage.Backend.{Db}
use peat_gateway.Examples.Databases.{acme_db}

abbrev pub hook : CdcSinkConfig
hook = record {
  sink_id = codes "1";
  org_id = codes "acme";
  sink_type = webhook (codes "https://acme.example");
  enabled = true;
  created_at = 1;
}

abbrev pub off_hook : CdcSinkConfig
off_hook = record hook { sink_id = codes "2"; enabled = false }

abbrev pub sink_db : Db Entries
sink_db = Backend.create_sink (Backend.create_sink acme_db hook) off_hook

abbrev pub engine : CdcEngine
engine = record { nats_enabled = true; nats_connected = false; webhook_enabled = true }

abbrev pub event : CdcEvent
event = record {
  org_id = codes "acme";
  app_id = codes "app";
  document_id = codes "doc";
  change_hash = codes "1f";
  actor_id = codes "unknown";
  timestamp_ms = 5;
  patches = null;
}

-- A hasher that counts what it is fed.
instance abbrev pub counting_hasher : DefaultHasher
counting_hasher = record {
  Hasher = ℕ;
  start = 0;
  hash_str = λ s h. h + length s;
  hash_u64 = λ n h. h + n;
  finish = λ h. h % 2 ^ 64;
}

instance abbrev pub plain_serde : Serde
plain_serde = record { to_string = as_str; to_value = λ fields. none }

abbrev pub document : Document
document = record {
  id = some (codes "doc");
  fields = (codes "_actor", string (codes "ada")) ∷ [];
  updated_at = some 5;
}

-- The same update twice, then another one.
-- The store answers, and the time is this.
abbrev pub at_ms : ℕ → Moment
at_ms ms = record { now = some ms; reads_cursor = true; writes_cursor = true }

abbrev pub arrivals : List Arrival
arrivals =
    record { at = at_ms 7; event = updated document }
    ∷ record { at = at_ms 8; event = updated document }
    ∷ record { at = at_ms 9; event = updated (record document { updated_at = some 9 }) }
    ∷ []
