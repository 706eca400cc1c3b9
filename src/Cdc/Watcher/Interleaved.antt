-- ===== src/Cdc/Watcher/Interleaved.antt =====
-- cdc/watcher.rs: the tasks of several formations take turns on one database.
use peat_gateway.Cdc.Engine.Sinks.{publish_cases}
use peat_gateway.Base.Entries.{lookup-put, lookup}
use peat_gateway.Cdc.Documents.{Serde, DefaultHasher}
use peat_gateway.Storage.Backend.{Db}
use peat_gateway.Cdc.Watcher.Spec.{moved, due, fresh}
use peat_gateway.Tenant.Models.{CdcSinkConfig}
use peat_gateway.Storage.Keys.{cursor_key}
use peat_gateway.Storage.Keys.Prefixes.{key-injective, NulFree}
use peat_gateway.Cdc.Watcher.Refines.{
  watch-fresh, before-logged, cursors-stored, handle-due, Publishes-stored, logged_as, OfFormation,
  Publishes, cursors, stored,
}
use peat_gateway.Storage.Redb.{Redb, Json}
use peat_gateway.Cdc.Engine.{Delivery, deliver_all, CdcEngine, CdcEvent}
use peat_gateway.Cdc.Watcher.{
  watch, initial, removed, updated, ChangeEvent, removed_event, updated_event, settle, emit,
  emit_new, handle, Moment, Arrival, Log,
}
use peat_gateway.Base.{
  ==_iff, false, true, if_cases, Text, Option, none, some, List, [], ◌∷◌, ◌++◌, map, ◌≡◌, refl, ap,
  sym, ◌∙◌, arith, if◌then◌else◌, Bool-cases, inl, inr,
}
use peat_gateway.Storage.Backend
use peat_gateway.Tenant.Sinks.{get_cursor, set_cursor}
use peat_gateway.Cdc.Watcher.Tasks.{same_key_sound, same_key_refl, FormationKey, same_key}

-- A change that the task of a formation takes from its stream.
abbrev pub Turn : Type 0
Turn = FormationKey × Arrival

-- The changes of one formation, in their order.
unfoldable pub turns_of : FormationKey → List Turn → List Arrival
turns_of k [] = []
turns_of k ((l, a) ∷ turns) = let rest = turns_of k turns in if same_key l k then a ∷ rest else rest

abbrev event_key : CdcEvent → FormationKey
event_key e = (e.org_id, e.app_id)

-- The events of one formation, in their order.
unfoldable pub log_of : FormationKey → Log → Log
log_of k [] = []
log_of k ((e, ds) ∷ log) =
    let rest = log_of k log in if same_key (event_key e) k then (e, ds) ∷ rest else rest

-- Identifiers without a zero byte.
abbrev pub NulFreeKey : FormationKey → Type 0
NulFreeKey k = NulFree k.0 × NulFree k.1

abbrev pub NulFreeKeys : List Turn → Type 0
NulFreeKeys [] = Unit {0}
NulFreeKeys ((k, a) ∷ turns) = NulFreeKey k × NulFreeKeys turns

cursor_key-injective :
    (k l : FormationKey) (d e : Text)
    → NulFreeKey k
    → NulFreeKey l
    → cursor_key k.0 k.1 d ≡ cursor_key l.0 l.1 e
    → same_key k l ≡ true
unfolding cursor_key
cursor_key-injective k l d e (ok_o, ok_a) (ol_o, ol_a) q =
    let outer = key-injective k.0 l.0 (k.1 ++ (0 ∷ d)) (l.1 ++ (0 ∷ e)) ok_o ol_o q in
    let inner = key-injective k.1 l.1 d e ok_a ol_a outer.1 in
    ground (arith, outer.0, inner.0, ==_iff k.0 l.0, ==_iff k.1 l.1)

log_of-append : (k : FormationKey) (l m : Log) → log_of k (l ++ m) ≡ log_of k l ++ log_of k m
unfolding log_of
log_of-append k [] m = refl
log_of-append k ((e, ds) ∷ l) m =
    if_cases (same_key (event_key e) k) (λ x. x ≡ log_of k ((e, ds) ∷ l) ++ log_of k m)
      (λ hit. rw (hit, log_of-append k l m) refl) (λ miss. rw (miss, log_of-append k l m) refl)

log_of-logged_as :
    (engine : CdcEngine) (k : FormationKey) (sinks : List CdcSinkConfig) (e : Option CdcEvent)
    → OfFormation k.0 k.1 e
    → log_of k (logged_as engine sinks e) ≡ logged_as engine sinks e
unfolding log_of
log_of-logged_as engine k sinks none of = refl
log_of-logged_as engine k sinks (some e) of = rw (of.0, of.1, same_key_refl k) refl

module _ {T : Type 0} ⦃r : Redb T⦄ where
  cursors-set_cursor_ne :
      (k l : FormationKey) (doc_id h : Text) (db : Db T) (x : Text)
      → NulFreeKey k
      → NulFreeKey l
      → same_key l k ≡ false
      → cursors k.0 k.1 (Backend.set_cursor db l.0 l.1 doc_id h) x ≡ cursors k.0 k.1 db x
  unfolding cursors Backend.get_cursor Backend.set_cursor
  cursors-set_cursor_ne k l doc_id h db x free_k free_l other =
      let j = cursor_key l.0 l.1 doc_id in
      let i = cursor_key k.0 k.1 x in
      ground (
        arith,
        r.get_lem (r.insert db.cursors j h) i,
        r.get_lem db.cursors i,
        ap (lookup i) (r.iter-insert db.cursors j h),
        lookup-put j i h (r.iter db.cursors),
        ==_iff j i,
        cursor_key-injective l k doc_id x free_l free_k,
        other,
      )

module _ {T : Type 0} ⦃r : Redb T⦄ ⦃j : Json⦄ ⦃d : DefaultHasher⦄ ⦃s : Serde⦄
    (engine : CdcEngine) where
  unfoldable pub take_turns : List Turn → Db T → Log × Db T
  take_turns [] db = ([], db)
  take_turns ((k, a) ∷ turns) db =
      let (log, db') = handle engine k.0 k.1 a.at a.event db in
      let (logs, db'') = take_turns turns db' in (log ++ logs, db'')

  emit_cases :
      (P : Log × Db T → Type 0) (at : Moment) (e : CdcEvent) (db : Db T)
      → P ([], db)
      → ((ds : List Delivery) → P ((e, ds) ∷ [], stored at (some e) db))
      → P (emit engine at e db)
  unfolding emit settle stored set_cursor
  emit_cases P at e db bad good =
      publish_cases engine e (λ q. P (settle engine at e q)) db (λ x. bad)
        λ sinks listed.
          let ds = deliver_all engine e sinks in
          elim (Bool-cases at.writes_cursor) [
            | inl taken ↦ rw taken (rw taken at (good ds))
            | inr lost ↦ rw lost (rw lost at (good ds))
          ]

  handle_cases :
      (P : Log × Db T → Type 0) (k : FormationKey) (at : Moment) (ev : ChangeEvent) (db : Db T)
      → P ([], db)
      → ((e : CdcEvent) (ds : List Delivery)
          → OfFormation k.0 k.1 (some e)
          → P ((e, ds) ∷ [], stored at (some e) db))
      → P (handle engine k.0 k.1 at ev db)
  unfolding handle emit_new get_cursor updated_event removed_event
  handle_cases P k at (updated document) db bad good =
      let e = updated_event k.0 k.1 document in
      let emitted = emit_cases P at e db bad (λ ds. good e ds (refl, refl)) in
      elim (Bool-cases at.reads_cursor) [
        | inl read ↦ rw read (if_cases _ P (λ again. bad) (λ new. emitted))
        | inr blind ↦ rw blind emitted
      ]
  handle_cases P k at (removed doc_id) db bad good =
      let e = removed_event k.0 k.1 at.now doc_id in
      emit_cases P at e db bad (λ ds. good e ds (refl, refl))
  handle_cases P k at (initial documents) db bad good = bad

  handle_outside :
      (k l : FormationKey) (sinks : List CdcSinkConfig) (at : Moment) (ev : ChangeEvent) (db : Db T)
      → Publishes k.0 sinks db
      → NulFreeKey k
      → NulFreeKey l
      → same_key l k ≡ false
      → let res = handle engine l.0 l.1 at ev db in
        (log_of k res.0 ≡ [])
        × (cursors k.0 k.1 res.1 ≡ cursors k.0 k.1 db)
        × Publishes k.0 sinks res.1
  unfolding log_of stored
  handle_outside k l sinks at ev db p free_k free_l other =
      handle_cases
        (λ res.
          (log_of k res.0 ≡ [])
          × (cursors k.0 k.1 res.1 ≡ cursors k.0 k.1 db)
          × Publishes k.0 sinks res.1)
        l at ev db (refl, refl, p)
        λ e ds of. (
          rw (of.0, of.1, other) refl,
          elim (Bool-cases at.writes_cursor) [
            | inl taken ↦
                rw (taken, of.0, of.1)
                  (λ i x.
                    cursors-set_cursor_ne k l e.document_id e.change_hash db x free_k free_l other
                      i)
            | inr lost ↦ rw lost refl
          ],
          Publishes-stored k.0 sinks at (some e) db p,
        )

  handle_inside :
      (k : FormationKey) (sinks : List CdcSinkConfig) (at : Moment) (ev : ChangeEvent) (db : Db T)
      → Publishes k.0 sinks db
      → let e = due k.0 k.1 (cursors k.0 k.1 db) at ev in
        let res = handle engine k.0 k.1 at ev db in
        (log_of k res.0 ≡ logged_as engine sinks e)
        × (cursors k.0 k.1 res.1 ≡ moved at e (cursors k.0 k.1 db))
        × Publishes k.0 sinks res.1
  handle_inside k sinks at ev db p =
      let e = due k.0 k.1 (cursors k.0 k.1 db) at ev in
      let (handled, of) = handle-due engine k.0 k.1 sinks at ev db p in
      rw handled (
        log_of-logged_as engine k sinks e of,
        cursors-stored k.0 k.1 at e db of,
        Publishes-stored k.0 sinks at e db p,
      )

  take_turns-fresh :
      (k : FormationKey) (sinks : List CdcSinkConfig) (turns : List Turn) (db : Db T)
      → Publishes k.0 sinks db
      → NulFreeKey k
      → NulFreeKeys turns
      → log_of k (take_turns turns db).0
        ≡ map
            (λ e. (e, deliver_all engine e sinks))
            (fresh k.0 k.1 (turns_of k turns) (cursors k.0 k.1 db))
  unfolding take_turns turns_of fresh log_of
  take_turns-fresh k sinks [] db p free_k free = refl
  take_turns-fresh k sinks ((l, a) ∷ turns) db p free_k free = elim (Bool-cases (same_key l k)) [
    | inl same ↦
        let (logs, kept, ready) = handle_inside k sinks a.at a.event db p in
        let rest =
          take_turns-fresh k sinks turns (handle engine k.0 k.1 a.at a.event db).1 ready free_k
            free.1 in
        rw (log_of-append, same_key_sound l k same, same_key_refl k, logs, rest, kept)
          (before-logged engine sinks (due k.0 k.1 (cursors k.0 k.1 db) a.at a.event) _)
    | inr other ↦
        let (logs, kept, ready) = handle_outside k l sinks a.at a.event db p free_k free.0 other in
        rw (log_of-append, other, logs)
          (take_turns-fresh k sinks turns _ ready free_k free.1 ∙ rw kept refl)
  ]

  -- Whatever the tasks of other formations do in between, a formation whose organisation can be
  -- read with its sinks has the same events published, with the same deliveries, as if its task
  -- had run alone, given that no identifier of a formation has a zero byte.
  pub take_turns-watch :
      (k : FormationKey) (sinks : List CdcSinkConfig) (turns : List Turn) (db : Db T)
      → Publishes k.0 sinks db
      → NulFreeKey k
      → NulFreeKeys turns
      → log_of k (take_turns turns db).0 ≡ (watch engine k.0 k.1 (turns_of k turns) db).0
  take_turns-watch k sinks turns db p free_k free =
      take_turns-fresh k sinks turns db p free_k free
      ∙ sym (watch-fresh engine k.0 k.1 sinks (turns_of k turns) db p)
