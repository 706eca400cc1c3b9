-- ===== src/Cdc/Watcher/Tasks.antt =====
-- cdc/watcher.rs: the tasks of a `CdcWatcher`, which run beside each other, and the handles by which
-- it knows them.
pub mod AtMostOne
use peat_gateway.Base.{
  ==_iff, arith, true, ◌≡◌, ℕ, ◌+◌, Text, ◌==◌, ◌&&◌, Bool, not, Option, none, some, List, [], ◌∷◌,
  ◌++◌, filter, if◌then◌else◌, nat_eq, is_some, Result, ok, Exec, writes, continue,
}

-- `(org_id, app_id)`
abbrev pub FormationKey : Type 0
FormationKey = Text × Text

abbrev pub same_key : FormationKey → FormationKey → Bool
same_key k l = k.0 == l.0 && k.1 == l.1

pub same_key_sound : (k l : FormationKey) → same_key k l ≡ true → k ≡ l
same_key_sound k l h = ground (arith, ==_iff k.0 l.0, ==_iff k.1 l.1)

pub same_key_refl : (k : FormationKey) → same_key k k ≡ true
same_key_refl k = ground (arith, ==_iff k.0 k.0, ==_iff k.1 k.1)

-- `handles: HashMap<FormationKey, JoinHandle<()>>`. A handle is the number of its task.
abbrev pub Handles : Type 0
Handles = List (FormationKey × ℕ)

unfoldable pub handle_of : FormationKey → Handles → Option ℕ
handle_of k [] = none
handle_of k ((l, id) ∷ hs) = let rest = handle_of k hs in if same_key l k then some id else rest

-- A task with the formation that it watches.
pub record Task : Type 0 where
  pub id : ℕ
  pub key : FormationKey

-- The watcher with its tasks: those that run, and those that were asked to stop and run until the
-- runtime cancels them. A task has the next free number.
pub record System : Type 0 where
  pub handles : Handles
  pub running : List Task
  pub stopping : List Task
  pub next : ℕ

unfoldable pub new : System
new = record { handles = []; running = []; stopping = []; next = 0 }

-- The tasks but one, and that one.
unfoldable pub without : ℕ → List Task → List Task
without id = filter λ t. not (nat_eq t.id id)

abbrev pub only : ℕ → List Task → List Task
only id = filter λ t. nat_eq t.id id

-- `handle.abort()`, which asks the runtime to cancel the task and does not wait for it.
unfoldable pub abort : ℕ → System → System
unfolding without
abort id s = record s { running = without id s.running; stopping = only id s.running ++ s.stopping }

-- `handles.remove(&key)`
unfoldable pub remove_key : FormationKey → Handles → Handles
remove_key k = filter λ h. not (same_key h.0 k)

-- `tokio::spawn(…)` and `handles.insert(key, handle)`
unfoldable pub spawn : FormationKey → System → System
spawn k s = record {
  handles = (k, s.next) ∷ s.handles;
  running = record { id = s.next; key = k } ∷ s.running;
  stopping = s.stopping;
  next = s.next + 1;
}

-- `observed` is the outcome of `doc_store.observe`.
unfoldable pub watch_formation : FormationKey → Result (Unit {0}) → Exec System (Unit {0})
unfolding handle_of spawn
watch_formation k observed s =
    if is_some (handle_of k s.handles)
    then (ok tt, s)
    else continue observed (λ _. writes (spawn k)) s

-- `if let Some(handle) = handles.remove(&key) { handle.abort(); }`
unfoldable pub unwatch : FormationKey → Option ℕ → System → System
unfolding abort remove_key
unwatch k none s = s
unwatch k (some id) s = abort id (record s { handles = remove_key k s.handles })

unfoldable pub unwatch_formation : FormationKey → System → System
unfolding handle_of unwatch
unwatch_formation k s = unwatch k (handle_of k s.handles) s

-- `for (…, handle) in handles.drain() { handle.abort(); }`
unfoldable pub abort_all : Handles → System → System
unfolding abort
abort_all [] s = s
abort_all ((k, id) ∷ hs) s = abort_all hs (abort id s)

unfoldable pub shutdown : System → System
unfolding abort_all
shutdown s = abort_all s.handles (record s { handles = [] })

-- What can happen next. A task is over when its stream ends, or when the runtime has cancelled it;
-- its handle stays.
pub data Step : System → System → Type 0 where
  watches :
      (k : FormationKey) (observed : Result (Unit {0})) (s : System)
      → Step s (watch_formation k observed s).1
  unwatches : (k : FormationKey) (s : System) → Step s (unwatch_formation k s)
  shuts_down : (s : System) → Step s (shutdown s)
  ends :
      (id : ℕ) (s : System)
      → Step s (record s { running = without id s.running; stopping = without id s.stopping })

pub data Reach : System → Type 0 where
  start : Reach new
  step : {s t : System} → Reach s → Step s t → Reach t
