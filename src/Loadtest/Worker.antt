-- ===== src/Loadtest/Worker.antt =====
-- loadtest.rs: `execute_op` and `run_worker`. What a request comes to is given by a client.
use peat_gateway.Base.{
  zero, suc, ℕ, ◌+◌, ◌*◌, ◌%◌, Text, codes, ◌++◌, ◌==◌, false, Option, none, some, List, [], ◌∷◌,
  length, ltb, if◌then◌else◌,
}
use peat_gateway.Api.Claims.{Value, string, boolean, object, no_member, member}
use peat_gateway.Ingest.{value_at, text_in}
use peat_gateway.Loadtest.{
  Operation, create_org, get_org, list_orgs, create_formation, get_formation, list_formations,
  delete_formation, create_token, list_tokens, create_sink, list_sinks, toggle_sink, health_check,
  WorkerState, new, pick_mixed_op, pick_read_heavy_op,
}

-- A request, by its path after the base and its body.
pub data Sent : Type 0 where
  post : Text → Value → Sent
  get : Text → Sent
  patch : Text → Value → Sent
  delete : Text → Sent

-- An answer has a status, and a body where that is JSON.
pub record Answer : Type 0 where
  pub status : ℕ
  pub body : Option Value

-- `send().await.ok()`
abbrev pub Client : Type 0
Client = Sent → Option Answer

abbrev pub entry_at : ℕ → List Text → Option Text
entry_at i [] = none
entry_at zero (x ∷ xs) = some x
entry_at (suc i) (x ∷ xs) = entry_at i xs

-- `Vec::pop`: the last entry, and the others
abbrev pub popped : Text → Option (Text × List Text) → Text × List Text
popped x none = (x, [])
popped x (some (y, ys)) = (y, x ∷ ys)

unfoldable pub pop : List Text → Option (Text × List Text)
pop [] = none
pop (x ∷ xs) = some (popped x (pop xs))

abbrev pub one_member : Text → Value → Value
one_member k v = object (member k v no_member)

abbrev pub two_members : Text → Value → Text → Value → Value
two_members k v l w = object (member k v (member l w no_member))

-- `if let Some(id) = body[key].as_str() { ids.push(id.to_string()) }`
abbrev pub pushed : List Text → Option Text → List Text
pushed ids none = ids
pushed ids (some id) = ids ++ (id ∷ [])

abbrev pub id_in : Text → Option Value → Option Text
id_in key none = none
id_in key (some body) = text_in (value_at key body)

-- The endpoint and the status of a sample, if there is one.
abbrev pub Outcome : Type 0
Outcome = Option (Text × ℕ) × WorkerState

-- `.ok()?`, then the status
abbrev pub sampled : Text → WorkerState → (Answer → WorkerState) → Option Answer → Outcome
sampled endpoint state after none = (none, state)
sampled endpoint state after (some answer) = (some (endpoint, answer.status), after answer)

abbrev pub plainly : Text → WorkerState → Option Answer → Outcome
plainly endpoint state = sampled endpoint state (λ answer. state)

-- `display` writes a number in decimal.
module _ (display : ℕ → Text) where
  abbrev pub org_path : WorkerState → Text → Text
  org_path state rest = codes "/orgs/" ++ (state.org_id ++ rest)

  abbrev pub formation_path : WorkerState → Text → Text → Text
  formation_path state app_id rest = org_path state (codes "/formations/" ++ (app_id ++ rest))

  -- `next_app_id`
  unfoldable pub next_app_id : WorkerState → Text × WorkerState
  next_app_id state =
      let n = state.formation_counter + 1 in
      (
        codes "w" ++ (display state.worker_id ++ (codes "-app-" ++ display n)),
        record state { formation_counter = n },
      )

  module _ (client : Client) where
    unfoldable pub do_create_formation : WorkerState → Outcome
    unfolding next_app_id
    do_create_formation state =
        let (app_id, state') = next_app_id state in
        sampled (codes "POST /orgs/:id/formations") state'
          (λ answer.
            if ltb answer.status 400
            then record state' { app_ids = state'.app_ids ++ (app_id ∷ []) }
            else state')
          (client (
            post (org_path state (codes "/formations"))
              (one_member (codes "app_id") (string app_id))))

    abbrev pub get_formation_at : WorkerState → Option Text → Outcome
    get_formation_at state none = (none, state)
    get_formation_at state (some app_id) =
        plainly (codes "GET /orgs/:id/formations/:id") state
          (client (get (formation_path state app_id [])))

    abbrev pub delete_last : WorkerState → Option (Text × List Text) → Outcome
    delete_last state none = (none, state)
    delete_last state (some (app_id, rest)) =
        plainly (codes "DELETE /orgs/:id/formations/:id") (record state { app_ids = rest })
          (client (delete (formation_path state app_id [])))

    abbrev pub create_token_for : WorkerState → Option Text → Outcome
    create_token_for state none = (none, state)
    create_token_for state (some app_id) =
        sampled (codes "POST /orgs/:id/tokens") state
          (λ answer.
            if ltb answer.status 400
            then record state {
              token_ids = pushed state.token_ids (id_in (codes "token_id") answer.body);
            }
            else state)
          (client (
            post (org_path state (codes "/tokens")) (
              two_members (codes "app_id") (string app_id) (codes "label") (
                string (
                  codes "w"
                  ++ (display state.worker_id
                      ++ (codes "-tok-" ++ display (length state.token_ids))))))))

    abbrev pub list_tokens_of : WorkerState → Option Text → Outcome
    list_tokens_of state none = (none, state)
    list_tokens_of state (some app_id) =
        plainly (codes "GET /orgs/:id/formations/:id/tokens") state
          (client (get (formation_path state app_id (codes "/tokens"))))

    abbrev pub toggle_first : WorkerState → Option Text → Outcome
    toggle_first state none = (none, state)
    toggle_first state (some sink_id) = plainly (codes "PATCH /orgs/:id/sinks/:id") state (
        client (
          patch (org_path state (codes "/sinks/" ++ sink_id))
            (one_member (codes "enabled") (boolean false))))

    unfoldable pub do_create_sink : WorkerState → Outcome
    do_create_sink state =
        sampled (codes "POST /orgs/:id/sinks") state
          (λ answer.
            if ltb answer.status 400
            then record state {
              sink_ids = pushed state.sink_ids (id_in (codes "sink_id") answer.body);
            }
            else state)
          (client (
            post (org_path state (codes "/sinks")) (
              one_member (codes "sink_type") (
                one_member (codes "Nats") (
                  one_member (codes "subject_prefix") (
                    string (
                      codes "peat."
                      ++ (state.org_id
                          ++ (codes ".w"
                              ++ (display state.worker_id
                                  ++ (codes "." ++ display (length state.sink_ids))))))))))))

    unfoldable pub execute_op : WorkerState → Operation → Outcome
    unfolding do_create_formation do_create_sink pop
    execute_op state create_org = plainly (codes "POST /orgs") state (
        client (
          post (codes "/orgs") (
            two_members (codes "org_id") (string state.org_id) (codes "display_name")
              (string state.org_id))))
    execute_op state get_org =
        plainly (codes "GET /orgs/:id") state (client (get (org_path state [])))
    execute_op state list_orgs = plainly (codes "GET /orgs") state (client (get (codes "/orgs")))
    execute_op state create_formation = do_create_formation state
    execute_op state get_formation =
        get_formation_at state
          (entry_at (state.formation_counter % length state.app_ids) state.app_ids)
    execute_op state list_formations =
        plainly (codes "GET /orgs/:id/formations") state
          (client (get (org_path state (codes "/formations"))))
    execute_op state delete_formation = delete_last state (pop state.app_ids)
    execute_op state create_token = create_token_for state (entry_at 0 state.app_ids)
    execute_op state list_tokens = list_tokens_of state (entry_at 0 state.app_ids)
    execute_op state create_sink = do_create_sink state
    execute_op state list_sinks =
        plainly (codes "GET /orgs/:id/sinks") state (client (get (org_path state (codes "/sinks"))))
    execute_op state toggle_sink = toggle_first state (entry_at 0 state.sink_ids)
    execute_op state health_check =
        plainly (codes "GET /health") state (client (get (codes "/health")))

-- What a worker sends to the orchestrator.
pub record RequestSample : Type 0 where
  pub endpoint : Text
  pub status : ℕ
  pub latency_us : ℕ
  pub timestamp_ms : ℕ

-- What one round of the loop meets: the answers of the server and the clock.
pub record Round : Type 0 where
  pub client : Client
  pub latency_us : ℕ
  pub timestamp_ms : ℕ

-- `match scenario.as_str()`
abbrev pub pick : Text → ℕ → WorkerState → Operation
pick scenario counter state =
    if scenario == codes "burst"
    then create_formation
    else if scenario == codes "read-heavy"
    then pick_read_heavy_op counter state
    else pick_mixed_op counter state

abbrev pub noted : Round → Option (Text × ℕ) → List RequestSample → List RequestSample
noted round none rest = rest
noted round (some (endpoint, status)) rest =
    record {
      endpoint = endpoint;
      status = status;
      latency_us = round.latency_us;
      timestamp_ms = round.timestamp_ms;
    }
    ∷ rest

module _ (display : ℕ → Text) where
  -- the `loop`, in rounds until it is told to stop
  unfoldable pub rounds_of : Text → ℕ → WorkerState → List Round → List RequestSample
  rounds_of scenario counter state [] = []
  rounds_of scenario counter state (round ∷ rounds) =
      let done = execute_op display round.client state (pick scenario counter state) in
      noted round done.0 (rounds_of scenario ((counter + 7) % 256) done.1 rounds)

  -- `setup` answers the requests before the loop, of which the PATCH of the quotas is left out, as
  -- its outcome is not read.
  unfoldable pub run_worker : ℕ → Client → Text → Text → List Round → List RequestSample
  unfolding rounds_of
  run_worker worker_id setup org_id scenario rounds =
      let s0 = (execute_op display setup (new worker_id org_id) create_org).1 in
      let s1 = (execute_op display setup s0 create_formation).1 in
      let s2 = (execute_op display setup s1 create_formation).1 in
      let s3 = (execute_op display setup s2 create_sink).1 in
      rounds_of scenario (worker_id % 256 * 37 % 256) s3 rounds
