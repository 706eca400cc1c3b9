-- ===== src/Cdc/Watcher.antt =====
-- cdc/watcher.rs: the task of `watch_formation`, which turns the changes of a formation's documents
-- into events, and the cursors by which it tells repeated changes.
pub mod Spec
pub mod Refines
pub mod Tasks
pub mod Interleaved
use peat_gateway.Base.{
  ℕ, ◌%◌, ◌^◌, Text, codes, ◌==◌, Bool, true, false, Option, none, some, List, [], ◌∷◌, ◌++◌,
  Result, ok, err, if◌then◌else◌, attempted,
}
use peat_gateway.Storage.Redb.{Redb, Json}
use peat_gateway.Storage.Backend.{Db}
use peat_gateway.Tenant.Sinks.{get_cursor, set_cursor}
use peat_gateway.Api.Claims.{Value, null, boolean, object, member, no_member, as_str}
use peat_gateway.Cdc.Engine.{CdcEngine, CdcEvent, Delivery, publish}
use peat_gateway.Cdc.Documents.{Fields, Document, DefaultHasher, Serde, hash_fields, lower_hex}

-- `ChangeEvent`, without the collections, which are not read.
pub data ChangeEvent : Type 0 where
  updated : Document → ChangeEvent
  removed : Text → ChangeEvent
  initial : List Document → ChangeEvent

-- What the handling of a change meets: the time in milliseconds since 1970, and whether the store
-- answers the read and takes the write of the cursor.
pub record Moment : Type 0 where
  pub now : Option ℕ
  pub reads_cursor : Bool
  pub writes_cursor : Bool

-- A change that is taken from the stream.
pub record Arrival : Type 0 where
  pub at : Moment
  pub event : ChangeEvent

-- `.map(|d| d.as_millis() as u64).unwrap_or(0)`
unfoldable pub millis : Option ℕ → ℕ
millis none = 0
millis (some ms) = ms % 2 ^ 64

-- `document.id.clone().unwrap_or_else(|| "unknown".to_string())`
abbrev pub text_or : Text → Option Text → Text
text_or other none = other
text_or other (some t) = t

-- `fields.get("_actor")`
unfoldable pub field : Text → Fields → Option Value
field k [] = none
field k ((j, v) ∷ fs) = let rest = field k fs in if j == k then some v else rest

-- `.and_then(|v| v.as_str())`
abbrev pub text_of : Option Value → Option Text
text_of none = none
text_of (some v) = as_str v

-- `.unwrap_or(serde_json::Value::Null)`
abbrev pub value_or_null : Option Value → Value
value_or_null none = null
value_or_null (some v) = v

-- `if let Ok(Some(ref cursor)) = … { if cursor == &change_hash { … } }`
abbrev pub is_repeated : Result (Option Text) → Text → Bool
is_repeated (ok (some cursor)) change_hash = cursor == change_hash
is_repeated (ok none) change_hash = false
is_repeated (err e) change_hash = false

-- The published events, each with the deliveries that its publication started.
abbrev pub Log : Type 0
Log = List (CdcEvent × List Delivery)

module _ ⦃d : DefaultHasher⦄ ⦃s : Serde⦄ (org app : Text) where
  -- The event that an updated document makes.
  unfoldable pub updated_event : Document → CdcEvent
  unfolding millis hash_fields lower_hex field
  updated_event document =
      let doc_id = text_or (codes "unknown") document.id in
      let timestamp_ms = millis document.updated_at in
      record {
        org_id = org;
        app_id = app;
        document_id = doc_id;
        change_hash = lower_hex 16 (hash_fields doc_id document.fields timestamp_ms);
        actor_id = text_or (codes "unknown") (text_of (field (codes "_actor") document.fields));
        timestamp_ms = timestamp_ms;
        patches = value_or_null (s.to_value document.fields);
      }

  -- The event that the removal of a document makes.
  unfoldable pub removed_event : Option ℕ → Text → CdcEvent
  unfolding millis hash_fields lower_hex
  removed_event at doc_id =
      let timestamp_ms = millis at in
      record {
        org_id = org;
        app_id = app;
        document_id = doc_id;
        change_hash = lower_hex 16 (hash_fields doc_id [] timestamp_ms);
        actor_id = codes "system";
        timestamp_ms = timestamp_ms;
        patches = object (member (codes "_deleted") (boolean true) no_member);
      }

module _ {T : Type 0} ⦃r : Redb T⦄ ⦃j : Json⦄ (engine : CdcEngine) where
  -- `if let Err(e) = engine.publish(&cdc_event).await { …; continue; }` and the cursor after it,
  -- whose failure is only logged.
  unfoldable pub settle : Moment → CdcEvent → Result (List Delivery) × Db T → Log × Db T
  settle at event (err e, db) = ([], db)
  settle at event (ok ds, db) = (
    (event, ds) ∷ [],
    (attempted at.writes_cursor
        (set_cursor event.org_id event.app_id event.document_id event.change_hash) db).1,
  )

  unfoldable pub emit : Moment → CdcEvent → Db T → Log × Db T
  unfolding settle
  emit at event db = settle at event (publish engine event db)

  unfoldable pub emit_new : Moment → CdcEvent → Db T → Log × Db T
  unfolding emit
  emit_new at event db =
      let cursor =
        attempted at.reads_cursor (get_cursor event.org_id event.app_id event.document_id) db in
      if is_repeated cursor.0 event.change_hash then ([], cursor.1) else emit at event cursor.1

  module _ ⦃d : DefaultHasher⦄ ⦃s : Serde⦄ (org app : Text) where
    -- The body of `while let Some(event) = stream.receiver.recv().await`.
    unfoldable pub handle : Moment → ChangeEvent → Db T → Log × Db T
    unfolding emit_new
    handle at (updated document) db = emit_new at (updated_event org app document) db
    handle at (removed doc_id) db = emit at (removed_event org app at.now doc_id) db
    handle at (initial documents) db = ([], db)

    -- The loop, over the changes that arrive until the stream ends.
    unfoldable pub watch : List Arrival → Db T → Log × Db T
    unfolding handle
    watch [] db = ([], db)
    watch (a ∷ arrivals) db =
        let (log, db') = handle a.at a.event db in
        let (logs, db'') = watch arrivals db' in (log ++ logs, db'')
