-- ===== src/Ingest/Broker.antt =====
-- mesh_ingest.rs: what a remote broker answers, read off its snapshot.
use peat_gateway.Base.{
  ℕ, Text, codes, true, Option, none, some, List, [], ◌∷◌, ◌++◌, ◌==◌, if◌then◌else◌,
}
use peat_gateway.Api.Claims.{Value}
use peat_gateway.Ingest.{
  MeshNodeInfo, TopologySummary, Snapshot, PeerSummary, ReadinessCheck, ReadinessResponse, counts,
  document_id, get,
}

-- The trait `peat_mesh::broker::MeshBrokerState`, without the subscription to its events.
pub record MeshBrokerState : Type 0 where
  pub node_info : MeshNodeInfo
  pub list_peers : List PeerSummary
  pub get_peer : Text → Option PeerSummary
  pub topology : TopologySummary
  pub readiness : ReadinessResponse
  pub list_documents : Text → Option (List Value)
  pub get_document : Text → Text → Option Value

-- `.iter().find(|peer| peer.id == id)`
unfoldable pub find_peer : Text → List PeerSummary → Option PeerSummary
find_peer id [] = none
find_peer id (p ∷ ps) = let rest = find_peer id ps in if p.id == id then some p else rest

abbrev pub has_id : Text → Option Text → Option Value → Value → Option Value
has_id id none rest doc = rest
has_id id (some i) rest doc = if i == id then some doc else rest

-- `.find(|doc| document_id(doc).as_deref() == Some(id))`
unfoldable pub find_document : Text → List Value → Option Value
find_document id [] = none
find_document id (doc ∷ docs) =
    let rest = find_document id docs in has_id id (document_id doc) rest doc

abbrev pub find_in : Text → Option (List Value) → Option Value
find_in id none = none
find_in id (some docs) = find_document id docs

abbrev pub sync_check : Option ℕ → List ReadinessCheck
sync_check none = []
sync_check (some last_sync_ms) =
    record { name = codes "last-sync-ms"; ready = true; message = some (counts last_sync_ms) } ∷ []

unfoldable pub readiness_of : Snapshot → ReadinessResponse
readiness_of snapshot = record snapshot.readiness {
  checks = snapshot.readiness.checks ++ sync_check snapshot.last_sync_ms;
}

-- `impl MeshBrokerState for RemoteBrokerState`
unfoldable pub remote_broker : Snapshot → MeshBrokerState
unfolding find_peer find_document readiness_of get
remote_broker snapshot = record {
  node_info = snapshot.node_info;
  list_peers = snapshot.peers;
  get_peer = λ id. find_peer id snapshot.peers;
  topology = snapshot.topology;
  readiness = readiness_of snapshot;
  list_documents = λ collection. get collection snapshot.documents;
  get_document = λ collection id. find_in id (get collection snapshot.documents);
}
