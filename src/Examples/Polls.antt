-- ===== src/Examples/Polls.antt =====
-- Runs of the theorems on the polls of a remote broker.
use peat_gateway.Ingest.Diffs.{doc_content_hash}
use peat_gateway.Base.{
  sym, ◌∙◌, if◌then◌else◌, inr, Result, ap, inl, ℕ, ◌==◌, codes, refl, ok, err, some, none, true,
  [], ◌∷◌, Text, List, ◌≡◌, internal,
}
use peat_gateway.Config.{MeshBrokerMapping}
use peat_gateway.Api.Claims.{Value, object, member, no_member, string}
use peat_gateway.Ingest.{Answers, Snapshot, fetch, pending, insert, collect, collected, probed}
use peat_gateway.Ingest.Polls.{Poll, refresh_loop, refresh_once}
use peat_gateway.Ingest.Polls.Keeps.{SameData, last_good, refresh_loop-last_good}
use peat_gateway.Ingest.Polls.Quiet.{AllConsistent, In, refresh_once-quiet}
use peat_gateway.Examples.Feeds.{engine, sink_db, counting_hasher, plain_serde}
use peat_gateway.Examples.Stores.{entries_redb, entries_json}

abbrev mapping : MeshBrokerMapping
mapping = record {
  org_id = codes "acme";
  app_id = codes "app";
  base_url = codes "http://broker";
  collections = codes "contacts" ∷ codes "markers" ∷ [];
}

abbrev contact : Value
contact = object (member (codes "_id") (string (codes "ada")) no_member)

-- Markers cannot be read.
abbrev documents : Text → Result (List Value)
documents collection = if collection == codes "contacts" then ok (contact ∷ []) else err internal

abbrev answers : Answers
answers = record {
  node = ok (record { node_id = codes "n1"; uptime_secs = 7; version = codes "1" });
  topology = ok (record { peer_count = 1; role = codes "leaf"; hierarchy_level = 0 });
  ready = err internal;
  peers = ok (record { id = codes "p"; connected = true; state = codes "up"; rtt_ms = none } ∷ []);
  documents = documents;
}

abbrev good_poll : Poll
good_poll = record { answers = answers; now_ms = 100 }

abbrev bad_poll : Poll
bad_poll = record { answers = record answers { topology = err internal }; now_ms = 200 }

refresh_loop-last_good_example :
    SameData
      (refresh_loop mapping
        (some engine)
        (good_poll ∷ bad_poll ∷ [])
        (pending (codes "acme:app"))
        sink_db).0
      (last_good mapping (good_poll ∷ bad_poll ∷ []) (pending (codes "acme:app")))
refresh_loop-last_good_example =
    refresh_loop-last_good mapping (some engine) (good_poll ∷ bad_poll ∷ [])
      (pending (codes "acme:app")) sink_db

abbrev snapshot_at : ℕ → Snapshot
snapshot_at now_ms = record {
  node_info = record { node_id = codes "n1"; uptime_secs = 7; version = codes "1" };
  topology = record { peer_count = 1; role = codes "leaf"; hierarchy_level = 0 };
  readiness =
      probed (record { node_id = codes "n1"; uptime_secs = 7; version = codes "1" }) (err internal);
  peers = record { id = codes "p"; connected = true; state = codes "up"; rtt_ms = none } ∷ [];
  documents = (codes "contacts", contact ∷ []) ∷ [];
  last_sync_ms = some now_ms;
  last_error = none;
}

fetched_at : (now_ms : ℕ) → fetch mapping answers now_ms ≡ ok (snapshot_at now_ms)
unfolding fetch collect collected insert ◌==◌
fetched_at now_ms = refl

one_contact : (a : Value) → In a (contact ∷ []) → a ≡ contact
one_contact a (inl same) = same
one_contact a (inr later) = absurd later

consistent : AllConsistent ((codes "contacts", contact ∷ []) ∷ [])
consistent = (
  λ a b id a_in b_in a_named b_named.
      ap doc_content_hash (one_contact a a_in ∙ sym (one_contact b b_in)),
  tt,
)

refresh_once-quiet_example :
    let out =
      refresh_once mapping
        (some engine)
        (record good_poll { now_ms = 200 })
        (snapshot_at 100)
        sink_db in
    (out.result ≡ ok tt)
    × (out.published ≡ [])
    × (out.announced ≡ [])
    × (out.snapshot ≡ snapshot_at 200)
    × (out.db ≡ sink_db)
refresh_once-quiet_example =
    refresh_once-quiet mapping (some engine) good_poll (record good_poll { now_ms = 200 })
      (snapshot_at 100) (snapshot_at 200) sink_db (fetched_at 100) (fetched_at 200) refl refl refl
      consistent
