-- ===== src/Ingest.antt =====
-- mesh_ingest.rs: the state of a remote mesh broker, and a poll of it.
pub mod Diffs
pub mod Polls
pub mod Keys
pub mod Broker
use peat_gateway.Base.{
  ℕ, Text, codes, Bool, true, false, Option, none, some, List, [], ◌∷◌, ◌++◌, ◌==◌, Result, ok, err,
  Error, and_then, if◌then◌else◌,
}
use peat_gateway.Config.{MeshBrokerMapping}
use peat_gateway.Api.Claims.{
  Value, Values, Members, null, boolean, number, string, array, object, no_member, member, as_str,
}

-- The summaries that a broker gives of itself, as peat-mesh has them.
pub record MeshNodeInfo : Type 0 where
  pub node_id : Text
  pub uptime_secs : ℕ
  pub version : Text

pub record TopologySummary : Type 0 where
  pub peer_count : ℕ
  pub role : Text
  pub hierarchy_level : ℕ

-- The message of a check: a text, the text of an error, or a number in decimal.
pub data Message : Type 0 where
  says : Text → Message
  tells : Error → Message
  counts : ℕ → Message

pub record ReadinessCheck : Type 0 where
  pub name : Text
  pub ready : Bool
  pub message : Option Message

pub record ReadinessResponse : Type 0 where
  pub ready : Bool
  pub node_id : Text
  pub checks : List ReadinessCheck

pub record PeerSummary : Type 0 where
  pub id : Text
  pub connected : Bool
  pub state : Text
  pub rtt_ms : Option ℕ

-- `HashMap<String, Vec<Value>>`, as its entries in some order, no key twice
abbrev pub Documents : Type 0
Documents = List (Text × List Value)

unfoldable pub get : Text → Documents → Option (List Value)
get c [] = none
get c ((d, docs) ∷ m) = let rest = get c m in if d == c then some docs else rest

unfoldable pub insert : Text → List Value → Documents → Documents
insert c docs [] = (c, docs) ∷ []
insert c docs ((d, old) ∷ m) =
    let rest = insert c docs m in if d == c then (c, docs) ∷ m else (d, old) ∷ rest

pub record Snapshot : Type 0 where
  pub node_info : MeshNodeInfo
  pub topology : TopologySummary
  pub readiness : ReadinessResponse
  pub peers : List PeerSummary
  pub documents : Documents
  pub last_sync_ms : Option ℕ
  pub last_error : Option Error

-- `Snapshot::new`
unfoldable pub pending : Text → Snapshot
pending node_id = record {
  node_info = record {
    node_id = node_id;
    uptime_secs = 0;
    version = codes "remote-broker-pending";
  };
  topology = record { peer_count = 0; role = codes "standalone"; hierarchy_level = 0 };
  readiness = record {
    ready = false;
    node_id = node_id;
    checks =
        record {
          name = codes "remote-broker";
          ready = false;
          message = some (says (codes "waiting for first successful poll"));
        }
        ∷ [];
  };
  peers = [];
  documents = [];
  last_sync_ms = none;
  last_error = none;
}

-- What the requests of one poll come to, with `get_json`: the value in the body, or an error.
pub record Answers : Type 0 where
  pub node : Result MeshNodeInfo
  pub topology : Result TopologySummary
  pub ready : Result ReadinessResponse
  pub peers : Result (List PeerSummary)
  pub documents : Text → Result (List Value)

abbrev failed_check : Error → List ReadinessCheck
failed_check e =
    record { name = codes "remote-broker"; ready = false; message = some (tells e) } ∷ []

-- `match self.get_json::<ReadinessDto>("/api/v1/ready").await`
unfoldable pub probed : MeshNodeInfo → Result ReadinessResponse → ReadinessResponse
probed node_info (ok readiness) = readiness
probed node_info (err e) = record {
  ready = false;
  node_id = node_info.node_id;
  checks = failed_check e;
}

-- `for collection in &self.mapping.collections`: what cannot be read is left out.
unfoldable pub collected : Text → Result (List Value) → Documents → Documents
collected c (ok docs) m = insert c docs m
collected c (err e) m = m

unfoldable pub collect : (Text → Result (List Value)) → List Text → Documents → Documents
unfolding collected
collect answer [] m = m
collect answer (c ∷ cs) m = collect answer cs (collected c (answer c) m)

-- The snapshot that `refresh_once` makes, up to where it is compared with the old one.
unfoldable pub fetch : MeshBrokerMapping → Answers → ℕ → Result Snapshot
unfolding probed collect
fetch mapping answers now_ms = and_then answers.node λ node_info.
    and_then answers.topology λ topology. and_then answers.peers λ peers. ok (record {
      node_info = node_info;
      topology = topology;
      readiness = probed node_info answers.ready;
      peers = peers;
      documents = collect answers.documents mapping.collections [];
      last_sync_ms = some now_ms;
      last_error = none;
    })

unfoldable pub record_error : Error → Snapshot → Snapshot
record_error error snapshot = record snapshot {
  last_error = some error;
  readiness = record {
    ready = false;
    node_id = snapshot.node_info.node_id;
    checks = failed_check error;
  };
}

-- `Value::get` on a key
unfoldable pub member_of : Text → Members → Option Value
member_of k no_member = none
member_of k (member j v ms) = let rest = member_of k ms in if j == k then some v else rest

unfoldable pub value_at : Text → Value → Option Value
unfolding member_of
value_at k (object ms) = member_of k ms
value_at k null = none
value_at k (boolean b) = none
value_at k (number n) = none
value_at k (string s) = none
value_at k (array vs) = none

abbrev pub first_of : Option Value → Option Value → Option Value
first_of none v = v
first_of (some u) v = some u

abbrev pub text_in : Option Value → Option Text
text_in none = none
text_in (some v) = as_str v

unfoldable pub document_id : Value → Option Text
unfolding value_at
document_id doc = text_in (first_of (value_at (codes "_id") doc) (value_at (codes "uid") doc))
