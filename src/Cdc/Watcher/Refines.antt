-- ===== src/Cdc/Watcher/Refines.antt =====
-- The watcher keeps its promises on the redb backend.
use peat_gateway.Cdc.Documents.{Serde, DefaultHasher}
use peat_gateway.Cdc.Watcher.{
  Moment, Arrival, watch, initial, removed, is_repeated, updated, ChangeEvent, removed_event,
  updated_event, emit_new, handle, Log, settle, emit,
}
use peat_gateway.Tenant.Models.{Organization, CdcSinkConfig}
use peat_gateway.Base.{
  if_cases, ==_sound, true, false, ◌&&◌, inr, inl, Bool-cases, Text, Option, none, some, List, [],
  ◌∷◌, ◌++◌, map, ◌==◌, ◌≡◌, refl, ap, sym, ◌∙◌, arith, if◌then◌else◌, ok,
}
use peat_gateway.Base.Entries.{lookup, lookup-put}
use peat_gateway.Storage.Redb.{Redb, Json}
use peat_gateway.Storage.Keys.{cursor_key}
use peat_gateway.Storage.Backend
use peat_gateway.Storage.Backend.{Db}
use peat_gateway.Tenant.Manager.{get_org}
use peat_gateway.Tenant.Sinks.{list_sinks, get_cursor, set_cursor}
use peat_gateway.Cdc.Watcher.Spec.{
  fresh, last_hash, before, hash_of, later, due, moved, seen, Cursors,
}
use peat_gateway.Cdc.Engine.{CdcEngine, CdcEvent, publish, deliver_all}

==-append : (o s t : Text) → ((o ++ s) == (o ++ t)) ≡ (s == t)
unfolding ◌==◌
==-append [] s t = refl
==-append (c ∷ o) s t = ground (arith, ==-append o s t)

==-cursor_key : (o a d e : Text) → (cursor_key o a d == cursor_key o a e) ≡ (d == e)
unfolding cursor_key ◌==◌
==-cursor_key o a d e =
    ==-append o (0 ∷ (a ++ (0 ∷ d))) (0 ∷ (a ++ (0 ∷ e))) ∙ ==-append a (0 ∷ d) (0 ∷ e)

module _ {T : Type 0} ⦃r : Redb T⦄ where
  -- The cursors of a formation in the database.
  unfoldable pub cursors : Text → Text → Db T → Cursors
  cursors org app db doc_id = Backend.get_cursor db org app doc_id

  pub cursors-set_cursor :
      (org app d h : Text) (db : Db T) (x : Text)
      → cursors org app (Backend.set_cursor db org app d h) x
        ≡ (if d == x then some h else cursors org app db x)
  unfolding cursors Backend.get_cursor Backend.set_cursor
  cursors-set_cursor org app d h db x =
      let k = cursor_key org app in
      r.get_lem (r.insert db.cursors (k d) h) (k x)
      ∙ ap (lookup (k x)) (r.iter-insert db.cursors (k d) h)
      ∙ lookup-put (k d) (k x) h (r.iter db.cursors)
      ∙ ap (λ b. if b then some h else lookup (k x) (r.iter db.cursors)) (==-cursor_key org app d x)
      ∙ ap (λ o. if d == x then some h else o) (sym (r.get_lem db.cursors (k x)))

-- An event of a formation.
abbrev pub OfFormation : Text → Text → Option CdcEvent → Type 0
OfFormation org app none = Unit
OfFormation org app (some e) = (e.org_id ≡ org) × (e.app_id ≡ app)

module _ {T : Type 0} ⦃r : Redb T⦄ where
  -- What becomes of the database when an event is published, if there is one.
  unfoldable pub stored : Moment → Option CdcEvent → Db T → Db T
  stored at none db = db
  stored at (some e) db =
      if at.writes_cursor
      then Backend.set_cursor db e.org_id e.app_id e.document_id e.change_hash
      else db

  pub cursors-stored :
      (org app : Text) (at : Moment) (e : Option CdcEvent) (db : Db T)
      → OfFormation org app e
      → cursors org app (stored at e db) ≡ moved at e (cursors org app db)
  unfolding stored
  cursors-stored org app at none db of = refl
  cursors-stored org app at (some e) db of = elim (Bool-cases at.writes_cursor) [
    | inl taken ↦
        rw (taken, of.0, of.1)
          (λ i x. cursors-set_cursor org app e.document_id e.change_hash db x i)
    | inr lost ↦ rw lost refl
  ]

abbrev pub logged_as : CdcEngine → List CdcSinkConfig → Option CdcEvent → Log
logged_as engine sinks none = []
logged_as engine sinks (some e) = (e, deliver_all engine e sinks) ∷ []

pub before-logged :
    (engine : CdcEngine) (sinks : List CdcSinkConfig) (e : Option CdcEvent) (es : List CdcEvent)
    → logged_as engine sinks e ++ map (λ x. (x, deliver_all engine x sinks)) es
      ≡ map (λ x. (x, deliver_all engine x sinks)) (before e es)
before-logged engine sinks none es = refl
before-logged engine sinks (some e) es = refl

later_assoc : (a b c : Option Text) → later a (later b c) ≡ later (later a b) c
later_assoc none b c = refl
later_assoc (some x) b c = refl

repeated_sound :
    (at : Moment) (c : Option Text) (h : Text) → is_repeated (ok (seen at c)) h ≡ true → c ≡ some h
repeated_sound at none h q = absurd (ground arith)
repeated_sound at (some x) h q = elim (Bool-cases at.reads_cursor) [
  | inl read ↦ ap some (==_sound x h (rw read at q))
  | inr blind ↦ absurd (ground arith)
]

moved-lost :
    (at : Moment) (e : Option CdcEvent) (c : Cursors) → at.writes_cursor ≡ false → moved at e c ≡ c
moved-lost at none c lost = refl
moved-lost at (some e) c lost = rw lost refl

hash_of-lost :
    ⦃d : DefaultHasher⦄ ⦃s : Serde⦄ (org app x : Text) (at : Moment) (ev : ChangeEvent)
    → at.writes_cursor ≡ false
    → hash_of org app x at ev ≡ none
unfolding hash_of
hash_of-lost org app x at (updated document) lost = rw lost refl
hash_of-lost org app x at (removed other) lost = rw lost refl
hash_of-lost org app x at (initial documents) lost = refl

-- Where the cursor is the hash already, moving it changes nothing.
moved-taken :
    ⦃d : DefaultHasher⦄ ⦃s : Serde⦄ (org app : Text) (c : Cursors) (at : Moment) (ev : ChangeEvent)
    (x : Text)
    → at.writes_cursor ≡ true
    → moved at (due org app c at ev) c x ≡ later (hash_of org app x at ev) (c x)
unfolding due hash_of
moved-taken org app c at (updated document) x taken =
    let e = updated_event org app document in
    elim (Bool-cases (e.document_id == x)) [
      | inl here ↦ elim (Bool-cases (is_repeated (ok (seen at (c e.document_id))) e.change_hash)) [
        | inl again ↦
            rw (taken, again, here)
              (ap c (sym (==_sound e.document_id x here))
                ∙ repeated_sound at (c e.document_id) e.change_hash again)
        | inr new ↦ rw (taken, new, here) refl
      ]
      | inr there ↦
          if_cases (is_repeated (ok (seen at (c e.document_id))) e.change_hash)
            (λ o.
              moved at o c x
              ≡ later (if at.writes_cursor && e.document_id == x then some e.change_hash else none)
                  (c x))
            (λ again. rw (taken, there) refl) (λ new. rw (taken, there) refl)
    ]
moved-taken org app c at (removed other) x taken =
    let e = removed_event org app at.now other in
    elim (Bool-cases (e.document_id == x)) [
      | inl here ↦ rw (taken, here) refl
      | inr there ↦ rw (taken, there) refl
    ]
moved-taken org app c at (initial documents) x taken = refl

moved-due :
    ⦃d : DefaultHasher⦄ ⦃s : Serde⦄ (org app : Text) (c : Cursors) (at : Moment) (ev : ChangeEvent)
    (x : Text)
    → moved at (due org app c at ev) c x ≡ later (hash_of org app x at ev) (c x)
moved-due org app c at ev x = elim (Bool-cases at.writes_cursor) [
  | inl taken ↦ moved-taken org app c at ev x taken
  | inr lost ↦
      let kept = moved-lost at (due org app c at ev) c lost in
      rw (kept, hash_of-lost org app x at ev lost) refl
]

module _ {T : Type 0} ⦃r : Redb T⦄ ⦃j : Json⦄ where
  -- The organisation can be read, and its sinks are these.
  abbrev pub Publishes : Text → List CdcSinkConfig → Db T → Type 0
  Publishes org sinks db =
      ((o : Organization) × (Backend.get_org db org ≡ ok (some o)))
      × (Backend.list_sinks db org ≡ ok sinks)

  pub Publishes-stored :
      (org : Text) (sinks : List CdcSinkConfig) (at : Moment) (e : Option CdcEvent) (db : Db T)
      → Publishes org sinks db
      → Publishes org sinks (stored at e db)
  unfolding stored Backend.get_org Backend.list_sinks Backend.set_cursor
  Publishes-stored org sinks at none db p = p
  Publishes-stored org sinks at (some e) db p =
      if_cases at.writes_cursor (Publishes org sinks) (λ taken. p) (λ lost. p)

  emit-Publishes :
      (engine : CdcEngine) (at : Moment) (e : CdcEvent) (sinks : List CdcSinkConfig) (db : Db T)
      → Publishes e.org_id sinks db
      → emit engine at e db ≡ (logged_as engine sinks (some e), stored at (some e) db)
  unfolding emit settle publish list_sinks get_org set_cursor stored
  emit-Publishes engine at e sinks db ((o, got), listed) = elim (Bool-cases at.writes_cursor) [
    | inl taken ↦ rw (got, listed, taken) refl
    | inr lost ↦ rw (got, listed, lost) refl
  ]

  module _ ⦃d : DefaultHasher⦄ ⦃s : Serde⦄ (engine : CdcEngine) (org app : Text)
      (sinks : List CdcSinkConfig) where
    pub handle-due :
        (at : Moment) (ev : ChangeEvent) (db : Db T)
        → Publishes org sinks db
        → let e = due org app (cursors org app db) at ev in
          (handle engine org app at ev db ≡ (logged_as engine sinks e, stored at e db))
          × OfFormation org app e
    unfolding handle due emit_new stored get_cursor cursors updated_event removed_event
    handle-due at (updated document) db p =
        let e = updated_event org app document in
        elim (Bool-cases at.reads_cursor) [
          | inr blind ↦ rw blind (emit-Publishes engine at e sinks db p, (refl, refl))
          | inl read ↦
              rw read
                (elim (Bool-cases
                  (is_repeated (ok (Backend.get_cursor db org app e.document_id)) e.change_hash)) [
                    | inl again ↦ rw again (refl, tt)
                    | inr new ↦ rw new (emit-Publishes engine at e sinks db p, (refl, refl))
                  ])
        ]
    handle-due at (removed doc_id) db p =
        (emit-Publishes engine at (removed_event org app at.now doc_id) sinks db p, (refl, refl))
    handle-due at (initial documents) db p = (refl, tt)

    -- While the organisation of a formation can be read with its sinks, a watcher of the
    -- formation publishes the removals, and the updates whose hash is not the cursor of their
    -- document or whose cursor cannot be read, in the order in which they arrive, each with the
    -- deliveries that the engine starts for these sinks. A cursor is the hash of the last
    -- publication whose write of the cursor went through.
    pub watch-fresh :
        (arrivals : List Arrival) (db : Db T)
        → Publishes org sinks db
        → (watch engine org app arrivals db).0
          ≡ map (λ e. (e, deliver_all engine e sinks)) (fresh org app arrivals (cursors org app db))
    unfolding watch fresh
    watch-fresh [] db p = refl
    watch-fresh (a ∷ arrivals) db p =
        let e = due org app (cursors org app db) a.at a.event in
        let (handled, of) = handle-due a.at a.event db p in
        let rest =
          watch-fresh arrivals (stored a.at e db) (Publishes-stored org sinks a.at e db p) in
        rw (handled, rest, cursors-stored org app a.at e db of) (before-logged engine sinks e _)

    Publishes-watch :
        (arrivals : List Arrival) (db : Db T)
        → Publishes org sinks db
        → Publishes org sinks (watch engine org app arrivals db).1
    unfolding watch
    Publishes-watch [] db p = p
    Publishes-watch (a ∷ arrivals) db p =
        let e = due org app (cursors org app db) a.at a.event in
        rw ((handle-due a.at a.event db p).0)
          (Publishes-watch arrivals (stored a.at e db) (Publishes-stored org sinks a.at e db p))

    -- While the organisation of a formation can be read with its sinks, the cursor of a document
    -- is, after any changes, the hash of its last update or removal among those for which the
    -- store takes the write of the cursor, and the old cursor where there was none.
    pub watch-last_hash :
        (arrivals : List Arrival) (db : Db T) (doc_id : Text)
        → Publishes org sinks db
        → cursors org app (watch engine org app arrivals db).1 doc_id
          ≡ later (last_hash org app doc_id arrivals) (cursors org app db doc_id)
    unfolding watch last_hash
    watch-last_hash [] db doc_id p = refl
    watch-last_hash (a ∷ arrivals) db doc_id p =
        let c = cursors org app db in
        let e = due org app c a.at a.event in
        let (handled, of) = handle-due a.at a.event db p in
        let rest =
          watch-last_hash arrivals (stored a.at e db) doc_id
            (Publishes-stored org sinks a.at e db p) in
        rw
          (
            handled,
            rest,
            cursors-stored org app a.at e db of,
            moved-due org app c a.at a.event doc_id,
          )
          (later_assoc (last_hash org app doc_id arrivals) (hash_of org app doc_id a.at a.event)
            (c doc_id))
