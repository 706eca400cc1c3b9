-- ===== src/Loadtest/Accounts.antt =====
-- loadtest.rs: the report of a run accounts for every request of its workers.
use mathlib.Core.List.{Perm, foldr}
use peat_gateway.Base.{
  zero, suc, ℕ, ◌+◌, ◌%◌, ◌<◌, ◌≡◌, refl, ap, ◌∙◌, true, Text, codes, ◌==◌, some, List, [], ◌∷◌,
  ◌++◌, length, length-append, arith, Bool-cases, inl, inr,
}
use peat_gateway.Loadtest.Worker.{RequestSample, run_worker}
use peat_gateway.Loadtest.Report.{Floats, Groups, LoadTestReport, aggregate}
use peat_gateway.Loadtest.Busy.{entry_at-some, AllAnswer, length-rounds_of}
use peat_gateway.Loadtest.Sums.{total, total-perm, aggregate-total}
use peat_gateway.Loadtest.Run.{
  Session, multi_org, numbered, org_ids_of, org_id_of, worker_scenario, run_workers, run,
}

-- Every request of the rounds is answered, of every worker.
abbrev pub AllSessionsAnswer : List Session → Type 0
AllSessionsAnswer [] = Unit {0}
AllSessionsAnswer (s ∷ sessions) = AllAnswer s.rounds × AllSessionsAnswer sessions

abbrev pub flatten : List (List RequestSample) → List RequestSample
flatten = foldr ◌++◌ []

total_ones : (xs : List RequestSample) → total (λ s. 1) xs ≡ length xs
total_ones [] = refl
total_ones (x ∷ xs) = omega (arith, total_ones xs)

length-perm : {xs ys : List RequestSample} → Perm xs ys → length xs ≡ length ys
length-perm {xs} {ys} p =
    omega (arith, total_ones xs, total_ones ys, total-perm (λ (s : RequestSample). 1) p)

length-numbered :
    (display : ℕ → Text) (prefix : Text) (i n : ℕ) → length (numbered display prefix i n) ≡ n
unfolding numbered
length-numbered display prefix i zero = refl
length-numbered display prefix i (suc n) = ap suc (length-numbered display prefix (suc i) n)

-- A worker has an organisation.
org_id_of-some :
    (display : ℕ → Text) (scenario : Text) (concurrency orgs i : ℕ)
    → (scenario == multi_org ≡ true → 0 < orgs)
    → i < concurrency
    → (org_id : Text) × (org_id_of scenario (org_ids_of display scenario concurrency orgs) i
        ≡ some org_id)
unfolding org_id_of org_ids_of
org_id_of-some display scenario concurrency orgs i h lt =
    let many_ids = numbered display (codes "org-") 0 orgs in
    let ids = numbered display (codes "worker-org-") 0 concurrency in
    elim (Bool-cases (scenario == multi_org)) [
      | inl many ↦ rw many (
          entry_at-some many_ids (i % length many_ids)
            (grind (arith, h many, length-numbered display (codes "org-") 0 orgs)))
      | inr single ↦ rw single (
          entry_at-some ids i
            (omega (arith, length-numbered display (codes "worker-org-") 0 concurrency)))
    ]

module _ (display : ℕ → Text) where
  length-run_worker :
      (i : ℕ) (s : Session) (org_id scenario : Text)
      → AllAnswer s.rounds
      → length (run_worker display i s.setup org_id scenario s.rounds) ≡ length s.rounds
  unfolding run_worker
  length-run_worker i s org_id scenario h = length-rounds_of display scenario _ _ s.rounds h

  run_workers-some :
      (scenario : Text) (concurrency orgs i : ℕ) (sessions : List Session)
      → (scenario == multi_org ≡ true → 0 < orgs)
      → i + length sessions ≡ concurrency
      → AllSessionsAnswer sessions
      → (samples : List (List RequestSample)) × (run_workers display scenario
            (org_ids_of display scenario concurrency orgs)
            i
            sessions
          ≡ some samples)
        × (length (flatten samples) ≡ total (λ s. length s.rounds) sessions)
  unfolding run_workers
  run_workers-some scenario concurrency orgs i [] h e answered = ([], refl, refl)
  run_workers-some scenario concurrency orgs i (s ∷ sessions) h e answered =
      let (org_id, e1) = org_id_of-some display scenario concurrency orgs i h (omega arith) in
      let (rest, e2, lengths) =
        run_workers-some scenario concurrency orgs (suc i) sessions h (omega arith) answered.1 in
      let samples = run_worker display i s.setup org_id (worker_scenario scenario) s.rounds in
      let here = length-run_worker i s org_id (worker_scenario scenario) answered.0 in
      (
        samples ∷ rest,
        rw (e1, e2) refl,
        omega (arith, length-append samples (flatten rest), here, lengths),
      )

  module _ ⦃f : Floats⦄ where
    -- If every request of the rounds of the workers is answered, and the scenario multi-org has
    -- an organisation at least, then a load test makes a report: it counts as many requests as
    -- the workers have rounds, its successes and failures add up to that number, and so do the
    -- counts of its endpoints, while its breakdown adds up to the failures. The channel is to
    -- deliver what was sent, in any order, and a map to have its entries met once, in any order.
    pub run-total :
        (received : List (List RequestSample) → List RequestSample)
        → ((sent : List (List RequestSample)) → Perm (received sent) (flatten sent))
        → (iterate : Groups → Groups) → ((m : Groups) → Perm (iterate m) m)
        → (sessions : List Session) (duration_secs : ℕ) (scenario : Text) (orgs : ℕ)
        → (scenario == multi_org ≡ true → 0 < orgs)
        → AllSessionsAnswer sessions
        → (r : LoadTestReport) × (run display received iterate sessions duration_secs scenario orgs
            ≡ some r)
          × (r.total_requests ≡ total (λ s. length s.rounds) sessions)
          × (r.successful + r.failed ≡ r.total_requests)
          × (total (λ e. e.count) r.endpoints ≡ r.total_requests)
          × (total (λ e. e.1) r.error_breakdown ≡ r.failed)
    unfolding run aggregate
    run-total received delivers iterate permutes sessions duration_secs scenario orgs h answered =
        let (samples, e, lengths) =
          run_workers-some scenario (length sessions) orgs 0 sessions h (omega arith) answered in
        let all = received samples in
        let (sums, breakdown, counts, errors) =
          aggregate-total iterate permutes all scenario (length sessions) duration_secs in
        (
          aggregate iterate all scenario (length sessions) duration_secs,
          rw e refl,
          length-perm (delivers samples) ∙ lengths,
          sums,
          counts,
          breakdown,
        )
