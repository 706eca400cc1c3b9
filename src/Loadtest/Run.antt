-- ===== src/Loadtest/Run.antt =====
-- loadtest.rs: `run`, from the assignment of the organisations to the report.
use peat_gateway.Base.{
  zero, suc, ℕ, ◌%◌, Text, codes, ◌++◌, ◌==◌, Option, none, some, List, [], ◌∷◌, length,
  if◌then◌else◌,
}
use peat_gateway.Loadtest.Worker.{RequestSample, Client, Round, entry_at, run_worker}
use peat_gateway.Loadtest.Report.{Floats, Groups, LoadTestReport, aggregate}

-- What a worker meets: the server during its setup, and its rounds until the signal to stop.
pub record Session : Type 0 where
  pub setup : Client
  pub rounds : List Round

abbrev pub multi_org : Text
multi_org = codes "multi-org"

infixl 1 ◌>>=◌
abbrev ◌>>=◌ {ℓ κ} : {A : Type ℓ} {B : Type κ} → Option A → (A → Option B) → Option B
none >>= k = none
some a >>= k = k a

-- `(0..n).map(|i| format!("{prefix}{i}"))`, from `i` on
unfoldable pub numbered : (ℕ → Text) → Text → ℕ → ℕ → List Text
numbered display prefix i zero = []
numbered display prefix i (suc n) = (prefix ++ display i) ∷ numbered display prefix (suc i) n

unfoldable pub org_ids_of : (ℕ → Text) → Text → ℕ → ℕ → List Text
unfolding numbered
org_ids_of display scenario concurrency orgs =
    if scenario == multi_org
    then numbered display (codes "org-") 0 orgs
    else numbered display (codes "worker-org-") 0 concurrency

-- The organisation of worker `i`. Where the code panics, there is none: `i % 0` and an index out of
-- bounds.
unfoldable pub org_id_of : Text → List Text → ℕ → Option Text
org_id_of scenario org_ids i =
    if scenario == multi_org then entry_at (i % length org_ids) org_ids else entry_at i org_ids

abbrev pub worker_scenario : Text → Text
worker_scenario scenario = if scenario == multi_org then codes "mixed" else scenario

module _ (display : ℕ → Text) where
  -- the loop over the workers, from worker `i` on
  unfoldable pub run_workers :
      Text → List Text → ℕ → List Session → Option (List (List RequestSample))
  unfolding org_id_of run_worker
  run_workers scenario org_ids i [] = some []
  run_workers scenario org_ids i (s ∷ sessions) = do
    org_id ← org_id_of scenario org_ids i
    rest ← run_workers scenario org_ids (suc i) sessions
    some (run_worker display i s.setup org_id (worker_scenario scenario) s.rounds ∷ rest)

  module _ ⦃f : Floats⦄ where
    -- `received` is what the channel has of the workers' samples at the end, in its order.
    unfoldable pub run :
        (List (List RequestSample) → List RequestSample)
        → (Groups → Groups)
        → List Session
        → ℕ
        → Text
        → ℕ
        → Option LoadTestReport
    unfolding org_ids_of run_workers
    run received iterate sessions duration_secs scenario orgs = do
      samples ← run_workers scenario (org_ids_of display scenario (length sessions) orgs) 0 sessions
      some (aggregate iterate (received samples) scenario (length sessions) duration_secs)
