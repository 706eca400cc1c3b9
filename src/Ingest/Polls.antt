-- ===== src/Ingest/Polls.antt =====
-- mesh_ingest.rs: `refresh_once`, and the loop that calls it.
pub mod Keeps
pub mod Quiet
use peat_gateway.Base.{ℕ, Option, none, some, List, [], ◌∷◌, ◌++◌, Result, ok, err}
use peat_gateway.Storage.Redb.{Redb, Json}
use peat_gateway.Storage.Backend.{Db}
use peat_gateway.Config.{MeshBrokerMapping}
use peat_gateway.Cdc.Documents.{DefaultHasher, Serde}
use peat_gateway.Cdc.Engine.{CdcEngine, CdcEvent, Delivery, publish}
use peat_gateway.Cdc.Watcher.{Log}
use peat_gateway.Ingest.{Snapshot, Answers, fetch, record_error}
use peat_gateway.Ingest.Diffs.{MeshEvent, cdc_diffs, emit_diffs}

-- The answers of a poll, with the time at which they are complete.
pub record Poll : Type 0 where
  pub answers : Answers
  pub now_ms : ℕ

-- What a poll leaves: its result, the snapshot and the database, and what it published and announced.
pub record Outcome (T : Type 0) : Type 0 where
  pub result : Result (Unit {0})
  pub snapshot : Snapshot
  pub db : Db T
  pub published : Log
  pub announced : List MeshEvent

-- `if let Err(e) = engine.publish(&event).await { warn!(…) }`
abbrev pub logged_if : CdcEvent → Result (List Delivery) → Log
logged_if event (ok ds) = (event, ds) ∷ []
logged_if event (err e) = []

-- `if let Err(err) = this.refresh_once().await { this.record_error(err.to_string()); }`
abbrev pub noted : Result (Unit {0}) → Snapshot → Snapshot
noted (ok u) snapshot = snapshot
noted (err e) snapshot = record_error e snapshot

module _ {T : Type 0} ⦃r : Redb T⦄ ⦃j : Json⦄ where
  unfoldable pub publish_all : CdcEngine → List CdcEvent → Db T → Log × Db T
  publish_all engine [] db = ([], db)
  publish_all engine (e ∷ es) db =
      let (q, db') = publish engine e db in
      let (log, db'') = publish_all engine es db' in (logged_if e q ++ log, db'')

  -- `if let Some(ref engine) = self.cdc_engine`
  unfoldable pub publish_with : Option CdcEngine → List CdcEvent → Db T → Log × Db T
  unfolding publish_all
  publish_with none es db = ([], db)
  publish_with (some engine) es db = publish_all engine es db

  module _ ⦃d : DefaultHasher⦄ ⦃s : Serde⦄ (mapping : MeshBrokerMapping)
      (engine : Option CdcEngine) where
    -- The part of `refresh_once` after the requests.
    unfoldable pub replace : ℕ → Result Snapshot → Snapshot → Db T → Outcome T
    unfolding publish_with
    replace now_ms (err e) old db = record {
      result = err e;
      snapshot = old;
      db = db;
      published = [];
      announced = [];
    }
    replace now_ms (ok new) old db =
        let (log, db') =
          publish_with engine (cdc_diffs mapping now_ms old.documents new.documents) db in
        record {
          result = ok tt;
          snapshot = new;
          db = db';
          published = log;
          announced = emit_diffs old new;
        }

    unfoldable pub refresh_once : Poll → Snapshot → Db T → Outcome T
    unfolding replace
    refresh_once poll old db = replace poll.now_ms (fetch mapping poll.answers poll.now_ms) old db

    unfoldable pub refreshed : Poll → Snapshot → Db T → Snapshot × Db T
    unfolding refresh_once
    refreshed poll old db =
        let out = refresh_once poll old db in (noted out.result out.snapshot, out.db)

    -- `spawn_refresh_loop`, for the polls so far
    unfoldable pub refresh_loop : List Poll → Snapshot → Db T → Snapshot × Db T
    unfolding refreshed
    refresh_loop [] snapshot db = (snapshot, db)
    refresh_loop (p ∷ polls) snapshot db =
        let (snapshot', db') = refreshed p snapshot db in refresh_loop polls snapshot' db'
