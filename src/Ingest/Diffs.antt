-- ===== src/Ingest/Diffs.antt =====
-- mesh_ingest.rs: what a poll publishes and what it announces.
use peat_gateway.Base.{
  zero, suc, ◌%◌, ◌/◌, suc, ℕ, Text, codes, Bool, false, not, ◌||◌, Option, none, some, List, [],
  ◌∷◌, ◌++◌, map, filter, any, ◌==◌, nat_eq, if◌then◌else◌,
}
use peat_gateway.Config.{MeshBrokerMapping}
use peat_gateway.Api.Claims.{Value}
use peat_gateway.Cdc.Documents.{hex_digit, DefaultHasher, Serde, hash_value}
use peat_gateway.Cdc.Engine.{CdcEvent}
use peat_gateway.Cdc.Watcher.{text_or}
use peat_gateway.Ingest.{Snapshot, Documents, PeerSummary, get, document_id, value_at, text_in}

-- `{:016x}`: sixteen digits
unfoldable pub padded_hex : ℕ → ℕ → Text
padded_hex zero n = []
padded_hex (suc width) n = padded_hex width (n / 16) ++ (hex_digit (n % 16) ∷ [])

-- `MeshEvent`, without the texts that never differ
pub data MeshEvent : Type 0 where
  peer_connected : Text → MeshEvent
  peer_disconnected : Text → MeshEvent
  topology_changed : Text → ℕ → MeshEvent
  sync_event : Text → Text → MeshEvent

-- `collect::<HashSet<String>>` and `difference`
unfoldable pub distinct : List Text → List Text
distinct [] = []
distinct (x ∷ xs) = let rest = distinct xs in if any (λ y. y == x) rest then rest else x ∷ rest

unfoldable pub difference : List Text → List Text → List Text
unfolding distinct
difference xs ys = distinct (filter (λ x. not (any (λ y. y == x) ys)) xs)

abbrev pub listed : Option (List Value) → List Value
listed none = []
listed (some docs) = docs

abbrev with_text : Option Text → List Text → List Text
with_text none ids = ids
with_text (some id) ids = id ∷ ids

-- `docs.iter().filter_map(document_id)`
unfoldable pub ids_of : List Value → List Text
ids_of [] = []
ids_of (doc ∷ docs) = with_text (document_id doc) (ids_of docs)

-- `for (collection, docs) in &new_snapshot.documents`, in `emit_diffs`
unfoldable pub sync_events : Documents → Documents → List MeshEvent
unfolding difference ids_of
sync_events old [] = []
sync_events old ((c, docs) ∷ new) =
    map (sync_event c) (difference (ids_of docs) (ids_of (listed (get c old))))
    ++ sync_events old new

unfoldable pub emit_diffs : Snapshot → Snapshot → List MeshEvent
unfolding sync_events difference
emit_diffs old new =
    let old_peers = map (λ (p : PeerSummary). p.id) old.peers in
    let new_peers = map (λ (p : PeerSummary). p.id) new.peers in
    map peer_connected (difference new_peers old_peers)
    ++ (map peer_disconnected (difference old_peers new_peers)
        ++ ((if not (nat_eq old.topology.peer_count new.topology.peer_count)
                || not (old.topology.role == new.topology.role)
              then topology_changed new.topology.role new.topology.peer_count ∷ []
              else [])
            ++ sync_events old.documents new.documents))

module _ ⦃d : DefaultHasher⦄ ⦃s : Serde⦄ where
  unfoldable pub doc_content_hash : Value → ℕ
  unfolding hash_value
  doc_content_hash doc = d.finish (hash_value (s.to_string doc) d.start)

  abbrev pub later_hash : Option ℕ → Option ℕ → Option ℕ
  later_hash none h = h
  later_hash (some g) h = some g

  abbrev pub hash_if : Text → Option Text → Value → Option ℕ
  hash_if id none doc = none
  hash_if id (some j) doc = if j == id then some (doc_content_hash doc) else none

  -- `old_by_id.get(&doc_id)`, of a map collected from the pairs of an identifier and a hash
  unfoldable pub old_hash : Text → List Value → Option ℕ
  unfolding doc_content_hash
  old_hash id [] = none
  old_hash id (doc ∷ docs) = later_hash (old_hash id docs) (hash_if id (document_id doc) doc)

  -- `old_hash == Some(new_hash)`
  abbrev pub is_unchanged : Option ℕ → ℕ → Bool
  is_unchanged none h = false
  is_unchanged (some g) h = nat_eq g h

  module _ (mapping : MeshBrokerMapping) (timestamp_ms : ℕ) where
    unfoldable pub change_event : Text → Text → Value → CdcEvent
    unfolding doc_content_hash padded_hex value_at
    change_event collection doc_id doc = record {
      org_id = mapping.org_id;
      app_id = mapping.app_id;
      document_id = collection ++ (b'/' ∷ doc_id);
      change_hash = padded_hex 16 (doc_content_hash doc);
      actor_id = text_or (codes "remote-broker") (text_in (value_at (codes "_actor") doc));
      timestamp_ms = timestamp_ms;
      patches = doc;
    }

    -- The event of a document with an identifier, unless it is unchanged.
    abbrev pub change_of : Text → List Value → Value → Option Text → List CdcEvent
    change_of collection old doc none = []
    change_of collection old doc (some doc_id) =
        if is_unchanged (old_hash doc_id old) (doc_content_hash doc)
        then []
        else change_event collection doc_id doc ∷ []

    unfoldable pub changes_in : Text → List Value → List Value → List CdcEvent
    unfolding change_event old_hash
    changes_in collection old [] = []
    changes_in collection old (doc ∷ docs) =
        change_of collection old doc (document_id doc) ++ changes_in collection old docs

    -- The events that `publish_cdc_diffs` makes, in its order.
    unfoldable pub cdc_diffs : Documents → Documents → List CdcEvent
    unfolding changes_in
    cdc_diffs old [] = []
    cdc_diffs old ((collection, docs) ∷ new) =
        changes_in collection (listed (get collection old)) docs ++ cdc_diffs old new
