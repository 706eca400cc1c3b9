-- ===== src/Loadtest.antt =====
-- loadtest.rs: the operations of a worker, and which one it picks.
pub mod Worker
pub mod Report
pub mod Busy
pub mod Sums
pub mod Run
pub mod Accounts
use peat_gateway.Base.{
  ℕ, ◌+◌, ◌-◌, ◌%◌, Text, codes, ◌++◌, Bool, Option, none, some, List, [], ◌∷◌, length, ltb, nat_eq,
  if◌then◌else◌,
}
use peat_gateway.Api.Claims.{Value, string, boolean, object, no_member, member}

pub data Operation : Type 0 where
  create_org get_org list_orgs create_formation get_formation list_formations : Operation
  delete_formation create_token list_tokens create_sink list_sinks toggle_sink : Operation
  health_check : Operation

pub record WorkerState : Type 0 where
  pub worker_id : ℕ
  pub org_id : Text
  pub app_ids : List Text
  pub token_ids : List Text
  pub sink_ids : List Text
  pub formation_counter : ℕ

-- `WorkerState::new`
unfoldable pub new : ℕ → Text → WorkerState
new worker_id org_id = record {
  worker_id = worker_id;
  org_id = org_id;
  app_ids = [];
  token_ids = [];
  sink_ids = [];
  formation_counter = 0;
}

abbrev pub is_empty : List Text → Bool
is_empty xs = nat_eq (length xs) 0

-- `if state.app_ids.is_empty() { Operation::CreateFormation } else { op }`
abbrev pub or_create : WorkerState → Operation → Operation
or_create state op = if is_empty state.app_ids then create_formation else op

abbrev pub mixed_at : ℕ → WorkerState → Operation
mixed_at n state =
    if ltb n 15
    then list_orgs
    else if ltb n 30
    then or_create state get_formation
    else if ltb n 45
    then create_formation
    else if ltb n 55
    then or_create state list_formations
    else if ltb n 65
    then or_create state create_token
    else if ltb n 75
    then create_sink
    else if ltb n 85
    then or_create state delete_formation
    else if ltb n 95
    then list_sinks
    else health_check

unfoldable pub pick_mixed_op : ℕ → WorkerState → Operation
pick_mixed_op roll state = mixed_at (roll % 100) state

abbrev pub read_heavy_at : ℕ → WorkerState → Operation
read_heavy_at n state =
    if ltb n 20
    then list_orgs
    else if ltb n 40
    then or_create state get_formation
    else if ltb n 60
    then or_create state list_formations
    else if ltb n 70
    then get_org
    else if ltb n 80
    then list_sinks
    else if ltb n 90
    then create_formation
    else if ltb n 95
    then or_create state create_token
    else health_check

unfoldable pub pick_read_heavy_op : ℕ → WorkerState → Operation
pick_read_heavy_op roll state = read_heavy_at (roll % 100) state
