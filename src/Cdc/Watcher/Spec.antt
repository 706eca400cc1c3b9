-- ===== src/Cdc/Watcher/Spec.antt =====
-- What the watcher of a formation promises, in terms of a map from documents to cursors and
-- without a database.
use peat_gateway.Base.{Text, Option, none, some, List, [], ◌∷◌, ◌==◌, ◌&&◌, if◌then◌else◌, ok}
use peat_gateway.Cdc.Engine.{CdcEvent}
use peat_gateway.Cdc.Documents.{DefaultHasher, Serde}
use peat_gateway.Cdc.Watcher.{
  Moment, ChangeEvent, updated, removed, initial, Arrival, updated_event, removed_event,
  is_repeated,
}

-- The cursors of a formation.
abbrev pub Cursors : Type 0
Cursors = Text → Option Text

abbrev pub move : CdcEvent → Cursors → Cursors
move e c doc_id = if e.document_id == doc_id then some e.change_hash else c doc_id

-- Nothing to publish leaves the cursors and the list as they are, and so does a cursor that the
-- store does not take.
abbrev pub moved : Moment → Option CdcEvent → Cursors → Cursors
moved at none c = c
moved at (some e) c = if at.writes_cursor then move e c else c

abbrev pub before : Option CdcEvent → List CdcEvent → List CdcEvent
before none es = es
before (some e) es = e ∷ es

-- The cursor as a change sees it, which is not at all where the read fails.
abbrev pub seen : Moment → Option Text → Option Text
seen at h = if at.reads_cursor then h else none

-- The later hash, if there is one.
abbrev pub later : Option Text → Option Text → Option Text
later none h = h
later (some g) h = some g

module _ ⦃d : DefaultHasher⦄ ⦃s : Serde⦄ (org app : Text) where
  -- The event that a change calls for: each removal does, and each update whose hash is not the
  -- cursor of its document, or whose cursor cannot be read.
  unfoldable pub due : Cursors → Moment → ChangeEvent → Option CdcEvent
  due c at (updated document) =
      let e = updated_event org app document in
      if is_repeated (ok (seen at (c e.document_id))) e.change_hash then none else some e
  due c at (removed doc_id) = some (removed_event org app at.now doc_id)
  due c at (initial documents) = none

  unfoldable pub fresh : List Arrival → Cursors → List CdcEvent
  unfolding due
  fresh [] c = []
  fresh (a ∷ arrivals) c = let e = due c a.at a.event in before e (fresh arrivals (moved a.at e c))

  -- The hash that a change leaves as the cursor of a document.
  unfoldable pub hash_of : Text → Moment → ChangeEvent → Option Text
  hash_of doc_id at (updated document) =
      let e = updated_event org app document in
      if at.writes_cursor && e.document_id == doc_id then some e.change_hash else none
  hash_of doc_id at (removed other) =
      let e = removed_event org app at.now other in
      if at.writes_cursor && e.document_id == doc_id then some e.change_hash else none
  hash_of doc_id at (initial documents) = none

  unfoldable pub last_hash : Text → List Arrival → Option Text
  unfolding hash_of
  last_hash doc_id [] = none
  last_hash doc_id (a ∷ arrivals) = later (last_hash doc_id arrivals) (hash_of doc_id a.at a.event)
