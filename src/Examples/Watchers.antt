-- ===== src/Examples/Watchers.antt =====
-- Runs of the theorems on the watchers of formations.
use peat_gateway.Cdc.Watcher.Refines.{watch-last_hash, cursors, watch-fresh}
use peat_gateway.Cdc.Watcher.Spec.{later}
use peat_gateway.Cdc.Watcher.Refines.{cursors, Publishes}
use peat_gateway.Storage.Keys.{cursor_key, sink_prefix, sink_key}
use peat_gateway.Storage.Table.{decode_all, decode_opt}
use peat_gateway.Cdc.Engine.{deliver, publish, deliver_all}
use peat_gateway.Base.Entries.{put, lookup}
use peat_gateway.Tenant.Models.{CdcSinkConfig}
use peat_gateway.Cdc.Watcher.Tasks.AtMostOne.{Reach-stopped, Reach-tasks_of-le, tasks_of}
use peat_gateway.Cdc.Watcher.Interleaved.{take_turns-watch, turns_of, Turn, take_turns, log_of}
use peat_gateway.Cdc.Watcher.Tasks.{
  ends, spawn, watches, unwatches, unwatch, remove_key, handle_of, shutdown, start, abort, without,
  new, step, unwatch_formation, FormationKey, Reach, System, watch_formation,
}
use peat_gateway.Cdc.Watcher.Spec.{fresh, last_hash}
use peat_gateway.Cdc.Documents.{
  lower_hex, insert_key, sort_keys, hash_value, hash_sorted, hash_fields, Document,
}
use peat_gateway.Cdc.Watcher.{
  Moment, Arrival, field, settle, emit, emit_new, handle, removed, millis, updated, updated_event,
  watch,
}
use peat_gateway.Examples.Stores.{entries_json, entries_redb}
use peat_gateway.Base.{
  text_lt, starts_with, false, none, ◌==◌, [], ◌∷◌, map, some, List, codes, refl, ok, ◌≡◌, ◌≤◌,
}
use peat_gateway.Storage.Backend
use peat_gateway.Tenant.Sinks.{get_cursor, set_cursor, list_sinks}
use peat_gateway.Tenant.Manager.{get_org}
use peat_gateway.Examples.Feeds.{
  engine, hook, off_hook, sink_db, document, arrivals, at_ms, counting_hasher, plain_serde,
}
use peat_gateway.Examples.Databases.{app-NulFree, beta-NulFree, acme-NulFree, acme_org}

abbrev listed_sinks : List CdcSinkConfig
listed_sinks = hook ∷ off_hook ∷ []

ready : Publishes (codes "acme") listed_sinks sink_db
unfolding Backend.get_org Backend.list_sinks Backend.create_sink Backend.create_org Backend.create
    entries_redb entries_json lookup put decode_opt decode_all sink_key sink_prefix starts_with ◌==◌
    text_lt
ready = ((acme_org, refl), refl)

watch-fresh_example :
    (watch engine (codes "acme") (codes "app") arrivals sink_db).0
    ≡ map
        (λ e. (e, deliver_all engine e listed_sinks))
        (fresh (codes "acme") (codes "app") arrivals (cursors (codes "acme") (codes "app") sink_db))
watch-fresh_example =
    watch-fresh engine (codes "acme") (codes "app") listed_sinks arrivals sink_db ready

watch-last_hash_example :
    cursors
      (codes "acme")
      (codes "app")
      (watch engine (codes "acme") (codes "app") arrivals sink_db).1
      (codes "doc")
    ≡ later
        (last_hash (codes "acme") (codes "app") (codes "doc") arrivals)
        (cursors (codes "acme") (codes "app") sink_db (codes "doc"))
watch-last_hash_example =
    watch-last_hash engine (codes "acme") (codes "app") listed_sinks arrivals sink_db (codes "doc")
      ready

abbrev newest : Document
newest = record document { updated_at = some 9 }

abbrev app_key : FormationKey
app_key = (codes "acme", codes "app")

abbrev beta_key : FormationKey
beta_key = (codes "beta", codes "app")

-- Two events of the three updates.
two_published :
    map (λ p. p.0.timestamp_ms) (watch engine (codes "acme") (codes "app") arrivals sink_db).0
    ≡ 5 ∷ 9 ∷ []
unfolding watch handle emit_new emit settle get_cursor set_cursor Backend.get_cursor
    Backend.set_cursor cursor_key publish list_sinks get_org deliver_all deliver Backend.get_org
    Backend.list_sinks Backend.create_sink Backend.create_org Backend.create entries_redb
    entries_json lookup put decode_opt decode_all sink_key sink_prefix starts_with ◌==◌ text_lt
    updated_event millis hash_fields hash_sorted hash_value sort_keys insert_key lower_hex field
two_published = refl

abbrev with_store : (Moment → Moment) → List Arrival
with_store f = map (λ (a : Arrival). record a { at = f a.at }) arrivals

-- Nothing is skipped while the cursor cannot be read.
all_published :
    map
      (λ p. p.0.timestamp_ms)
      (watch engine
        (codes "acme")
        (codes "app")
        (with_store (λ m. record m { reads_cursor = false }))
        sink_db).0
    ≡ 5 ∷ 5 ∷ 9 ∷ []
unfolding watch handle emit_new emit settle get_cursor set_cursor Backend.get_cursor
    Backend.set_cursor cursor_key publish list_sinks get_org deliver_all deliver Backend.get_org
    Backend.list_sinks Backend.create_sink Backend.create_org Backend.create entries_redb
    entries_json lookup put decode_opt decode_all sink_key sink_prefix starts_with ◌==◌ text_lt
    updated_event millis hash_fields hash_sorted hash_value sort_keys insert_key lower_hex field
all_published = refl

-- There is no cursor after events whose cursor could not be written.
no_cursor :
    cursors
      (codes "acme")
      (codes "app")
      (watch engine
        (codes "acme")
        (codes "app")
        (with_store (λ m. record m { writes_cursor = false }))
        sink_db).1
      (codes "doc")
    ≡ none
unfolding cursors watch handle emit_new emit settle get_cursor set_cursor Backend.get_cursor
    Backend.set_cursor cursor_key publish list_sinks get_org deliver_all deliver Backend.get_org
    Backend.list_sinks Backend.create_sink Backend.create_org Backend.create entries_redb
    entries_json lookup put decode_opt decode_all sink_key sink_prefix starts_with ◌==◌ text_lt
    updated_event millis hash_fields hash_sorted hash_value sort_keys insert_key lower_hex field
no_cursor = refl

abbrev turns : List Turn
turns =
    (app_key, record { at = at_ms 7; event = updated document })
    ∷ (beta_key, record { at = at_ms 7; event = removed (codes "doc") })
    ∷ (app_key, record { at = at_ms 7; event = updated newest })
    ∷ []

take_turns-watch_example :
    log_of app_key (take_turns engine turns sink_db).0
    ≡ (watch engine (codes "acme") (codes "app") (turns_of app_key turns) sink_db).0
take_turns-watch_example =
    take_turns-watch engine app_key listed_sinks turns sink_db ready (acme-NulFree, app-NulFree)
      (
        (acme-NulFree, app-NulFree),
        ((beta-NulFree, app-NulFree), ((acme-NulFree, app-NulFree), tt)),
      )

-- A formation whose stream has ended.
abbrev watched : System
watched = (watch_formation app_key (ok tt) new).1

abbrev ended : System
ended = record watched {
  running = without 0 watched.running;
  stopping = without 0 watched.stopping;
}

ended-Reach : Reach ended
ended-Reach = step (step start (watches app_key (ok tt) new)) (ends 0 watched)

Reach-tasks_of-le_example : tasks_of app_key ended.running ≤ 1
Reach-tasks_of-le_example = Reach-tasks_of-le ended-Reach app_key

Reach-stopped_example :
    (tasks_of app_key (unwatch_formation app_key ended).running ≡ 0)
    × ((shutdown ended).running ≡ [])
Reach-stopped_example = Reach-stopped ended-Reach app_key

-- It is not watched again.
rewatch_ignored : watch_formation app_key (ok tt) ended ≡ (ok tt, ended)
unfolding watch_formation without handle_of spawn new ◌==◌
rewatch_ignored = refl

-- The task of a formation that is watched again runs beside the one that is still to be cancelled.
abbrev overlapping : System
overlapping = (watch_formation app_key (ok tt) (unwatch_formation app_key watched)).1

overlapping-Reach : Reach overlapping
overlapping-Reach =
    let once = step start (watches app_key (ok tt) new) in
    step (step once (unwatches app_key watched))
      (watches app_key (ok tt) (unwatch_formation app_key watched))

two_tasks : (tasks_of app_key overlapping.running ≡ 1) × (tasks_of app_key overlapping.stopping ≡ 1)
unfolding watch_formation unwatch_formation unwatch abort without remove_key handle_of spawn new
    tasks_of ◌==◌
two_tasks = (refl, refl)
