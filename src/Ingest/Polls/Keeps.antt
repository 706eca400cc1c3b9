-- ===== src/Ingest/Polls/Keeps.antt =====
-- mesh_ingest.rs: a poll that fails keeps what the last successful one brought.
use peat_gateway.Base.{Option, List, [], ◌∷◌, Result, ok, err, ◌≡◌, refl, Result-cases, inl, inr}
use peat_gateway.Storage.Redb.{Redb, Json}
use peat_gateway.Storage.Backend.{Db}
use peat_gateway.Config.{MeshBrokerMapping}
use peat_gateway.Cdc.Documents.{DefaultHasher, Serde}
use peat_gateway.Cdc.Engine.{CdcEngine}
use peat_gateway.Ingest.{Snapshot, fetch, record_error}
use peat_gateway.Ingest.Polls.{Poll, refresh_loop, refreshed, refresh_once, replace}

abbrev newest : Result Snapshot → Snapshot → Snapshot
newest (ok new) old = new
newest (err e) old = old

-- The snapshot of the last poll that succeeded, or the first one.
unfoldable pub last_good : MeshBrokerMapping → List Poll → Snapshot → Snapshot
last_good mapping [] snapshot = snapshot
last_good mapping (p ∷ polls) snapshot =
    last_good mapping polls (newest (fetch mapping p.answers p.now_ms) snapshot)

-- Equal but for the readiness and the last error.
abbrev pub SameData : Snapshot → Snapshot → Type 0
SameData s t =
    (s.node_info ≡ t.node_info)
    × (s.topology ≡ t.topology)
    × (s.peers ≡ t.peers)
    × (s.documents ≡ t.documents)
    × (s.last_sync_ms ≡ t.last_sync_ms)

module _ {T : Type 0} ⦃r : Redb T⦄ ⦃j : Json⦄ ⦃d : DefaultHasher⦄ ⦃s : Serde⦄
    (mapping : MeshBrokerMapping) (engine : Option CdcEngine) where
  refreshed-SameData :
      (p : Poll) (old good : Snapshot) (db : Db T)
      → SameData old good
      → SameData
          (refreshed mapping engine p old db).0
          (newest (fetch mapping p.answers p.now_ms) good)
  unfolding refreshed refresh_once replace record_error
  refreshed-SameData p old good db same = elim (Result-cases (fetch mapping p.answers p.now_ms)) [
    | inl (e, failed) ↦ rw failed same
    | inr (new, fetched) ↦ rw fetched (refl, refl, refl, refl, refl)
  ]

  loop-SameData :
      (polls : List Poll) (old good : Snapshot) (db : Db T)
      → SameData old good
      → SameData (refresh_loop mapping engine polls old db).0 (last_good mapping polls good)
  unfolding refresh_loop last_good
  loop-SameData [] old good db same = same
  loop-SameData (p ∷ polls) old good db same =
      let next = refreshed mapping engine p old db in
      loop-SameData polls next.0 _ next.1 (refreshed-SameData p old good db same)

  -- After any polls of a broker, failed ones among them, the snapshot has the node, the
  -- topology, the peers, the documents and the time of the last poll whose requests for the
  -- node, the topology and the peers succeeded, or those it started with.
  pub refresh_loop-last_good :
      (polls : List Poll) (snapshot : Snapshot) (db : Db T)
      → SameData
          (refresh_loop mapping engine polls snapshot db).0
          (last_good mapping polls snapshot)
  refresh_loop-last_good polls snapshot db =
      loop-SameData polls snapshot snapshot db (refl, refl, refl, refl, refl)
