-- ===== src/Loadtest/Busy.antt =====
-- loadtest.rs: a worker never picks an operation that it has nothing for.
use peat_gateway.Base.{
  ℕ, ◌+◌, ◌%◌, ◌<◌, ◌≡◌, refl, ap, Text, codes, ◌==◌, Option, some, List, [], ◌∷◌, length, arith,
  ltb, if_cases, suc, zero,
}
use peat_gateway.Loadtest.{
  Operation, get_org, list_orgs, create_formation, get_formation, list_formations, delete_formation,
  create_token, create_sink, list_sinks, health_check, WorkerState, or_create, is_empty, mixed_at,
  read_heavy_at, pick_mixed_op, pick_read_heavy_op,
}
use peat_gateway.Loadtest.Worker.{
  Sent, Answer, Client, entry_at, pop, Outcome, sampled, execute_op, do_create_formation,
  do_create_sink, pick, Round, rounds_of,
}

-- Every request is answered.
abbrev pub Answers : Client → Type 0
Answers client = (req : Sent) → (answer : Answer) × (client req ≡ some answer)

-- There is a sample.
abbrev pub Samples : Outcome → Type 0
Samples q = (s : Text × ℕ) × (q.0 ≡ some s)

sampled-Samples :
    (endpoint : Text) (state : WorkerState) (after : Answer → WorkerState) {q : Option Answer}
    (answer : Answer)
    → q ≡ some answer
    → Samples (sampled endpoint state after q)
sampled-Samples endpoint state after answer e = ((endpoint, answer.status), rw e refl)

pub entry_at-some : (xs : List Text) (i : ℕ) → i < length xs → (x : Text) × (entry_at i xs ≡ some x)
entry_at-some [] i h = absurd (omega arith)
entry_at-some (x ∷ xs) zero h = (x, refl)
entry_at-some (x ∷ xs) (suc i) h = entry_at-some xs i (omega arith)

module _ (display : ℕ → Text) (client : Client) (answers : Answers client)
    (state : WorkerState) where
  abbrev Busy : Operation → Type 0
  Busy op = Samples (execute_op display client state op)

  create_formation-Busy : Busy create_formation
  unfolding execute_op do_create_formation
  create_formation-Busy = let (a, e) = answers _ in sampled-Samples _ _ _ a e

  or_create-Busy :
      (op : Operation) → (0 < length state.app_ids → Busy op) → Busy (or_create state op)
  or_create-Busy op h =
      if_cases (is_empty state.app_ids) Busy (λ empty. create_formation-Busy)
        (λ full. h (ground arith))

  get_formation-Busy : 0 < length state.app_ids → Busy get_formation
  unfolding execute_op
  get_formation-Busy h =
      let i = state.formation_counter % length state.app_ids in
      let (app_id, e) = entry_at-some state.app_ids i (grind arith) in
      rw e (let (a, q) = answers _ in sampled-Samples _ _ _ a q)

  create_token-Busy : 0 < length state.app_ids → Busy create_token
  unfolding execute_op
  create_token-Busy h =
      let (app_id, e) = entry_at-some state.app_ids 0 h in
      rw e (let (a, q) = answers _ in sampled-Samples _ _ _ a q)

  pop-some : (xs : List Text) → 0 < length xs → (p : Text × List Text) × (pop xs ≡ some p)
  unfolding pop
  pop-some [] h = absurd (omega arith)
  pop-some (x ∷ xs) h = (_, refl)

  delete_formation-Busy : 0 < length state.app_ids → Busy delete_formation
  unfolding execute_op
  delete_formation-Busy h =
      let (p, e) = pop-some state.app_ids h in
      rw e (let (a, q) = answers _ in sampled-Samples _ _ _ a q)

  create_sink-Busy : Busy create_sink
  unfolding execute_op do_create_sink
  create_sink-Busy = let (a, e) = answers _ in sampled-Samples _ _ _ a e

  list_orgs-Busy : Busy list_orgs
  unfolding execute_op
  list_orgs-Busy = let (a, e) = answers _ in sampled-Samples _ _ _ a e

  get_org-Busy : Busy get_org
  unfolding execute_op
  get_org-Busy = let (a, e) = answers _ in sampled-Samples _ _ _ a e

  list_formations-Busy : Busy list_formations
  unfolding execute_op
  list_formations-Busy = let (a, e) = answers _ in sampled-Samples _ _ _ a e

  list_sinks-Busy : Busy list_sinks
  unfolding execute_op
  list_sinks-Busy = let (a, e) = answers _ in sampled-Samples _ _ _ a e

  health_check-Busy : Busy health_check
  unfolding execute_op
  health_check-Busy = let (a, e) = answers _ in sampled-Samples _ _ _ a e

  mixed_at-Busy : (n : ℕ) → Busy (mixed_at n state)
  mixed_at-Busy n =
      if_cases (ltb n 15) Busy (λ h. list_orgs-Busy)
        λ h.
          if_cases (ltb n 30) Busy (λ h. or_create-Busy get_formation get_formation-Busy)
            λ h.
              if_cases (ltb n 45) Busy (λ h. create_formation-Busy)
                λ h.
                  if_cases (ltb n 55) Busy
                    (λ h. or_create-Busy list_formations (λ some_app. list_formations-Busy))
                    λ h.
                      if_cases (ltb n 65) Busy (λ h. or_create-Busy create_token create_token-Busy)
                        λ h.
                          if_cases (ltb n 75) Busy (λ h. create_sink-Busy)
                            λ h.
                              if_cases (ltb n 85) Busy
                                (λ h. or_create-Busy delete_formation delete_formation-Busy)
                                λ h.
                                  if_cases (ltb n 95) Busy (λ h. list_sinks-Busy)
                                    λ h. health_check-Busy

  read_heavy_at-Busy : (n : ℕ) → Busy (read_heavy_at n state)
  read_heavy_at-Busy n =
      if_cases (ltb n 20) Busy (λ h. list_orgs-Busy)
        λ h.
          if_cases (ltb n 40) Busy (λ h. or_create-Busy get_formation get_formation-Busy)
            λ h.
              if_cases (ltb n 60) Busy
                (λ h. or_create-Busy list_formations (λ some_app. list_formations-Busy))
                λ h.
                  if_cases (ltb n 70) Busy (λ h. get_org-Busy)
                    λ h.
                      if_cases (ltb n 80) Busy (λ h. list_sinks-Busy)
                        λ h.
                          if_cases (ltb n 90) Busy (λ h. create_formation-Busy)
                            λ h.
                              if_cases (ltb n 95) Busy
                                (λ h. or_create-Busy create_token create_token-Busy)
                                λ h. health_check-Busy

  pick-Busy : (scenario : Text) (counter : ℕ) → Busy (pick scenario counter state)
  unfolding pick_mixed_op pick_read_heavy_op
  pick-Busy scenario counter =
      if_cases (scenario == codes "burst") Busy (λ h. create_formation-Busy)
        λ h.
          if_cases (scenario == codes "read-heavy") Busy (λ h. read_heavy_at-Busy (counter % 100))
            λ h. mixed_at-Busy (counter % 100)

abbrev pub AllAnswer : List Round → Type 0
AllAnswer [] = Unit {0}
AllAnswer (round ∷ rounds) = Answers round.client × AllAnswer rounds

-- If every request is answered, a worker records one sample for each of its rounds, whatever the
-- scenario.
pub length-rounds_of :
    (display : ℕ → Text) (scenario : Text) (counter : ℕ) (state : WorkerState) (rounds : List Round)
    → AllAnswer rounds
    → length (rounds_of display scenario counter state rounds) ≡ length rounds
unfolding rounds_of
length-rounds_of display scenario counter state [] h = refl
length-rounds_of display scenario counter state (round ∷ rounds) (answered, rest) =
    let op = pick scenario counter state in
    let (s, e) = pick-Busy display round.client answered state scenario counter in
    let state' = (execute_op display round.client state op).1 in
    rw e (ap suc (length-rounds_of display scenario ((counter + 7) % 256) state' rounds rest))
