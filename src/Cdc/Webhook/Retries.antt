-- ===== src/Cdc/Webhook/Retries.antt =====
-- cdc/webhook_sink.rs: when a delivery succeeds, and what it does.
use Prim.Native.Nat.{min}
use peat_gateway.Base.{
  ap, ◌*◌, Bool, true, false, if◌then◌else◌, delivery_failed, ℕ, zero, suc, ◌≡◌, ◌↔◌, ◌⊎◌, inl, inr,
  refl, List, [], ◌∷◌, Result, ok, err,
}
use peat_gateway.Cdc.Webhook.{
  backoff_multiplier, Action, request, sleep, after_pause, answered, initial_backoff_ms,
  max_backoff_ms, once, Answer, success, client_error, other_status, no_answer, Attempts,
  attempt_from, publish,
}

-- An answer after which the loop tries again.
abbrev pub IsRetried : Answer → Type 0
IsRetried success = ⊥
IsRetried client_error = ⊥
IsRetried other_status = Unit {0}
IsRetried no_answer = Unit {0}

-- One of `left + 1` attempts from `attempt` on succeeds, and those before it are retried.
abbrev pub SucceedsWithin : (ℕ → Answer) → ℕ → ℕ → Type 0
SucceedsWithin send zero attempt = send attempt ≡ success
SucceedsWithin send (suc left) attempt =
    (send attempt ≡ success) ⊎ (IsRetried (send attempt) × SucceedsWithin send left (suc attempt))

answered-ok :
    (x : Answer) (again : Attempts) {Q : Type 0}
    → (again.outcome ≡ ok tt) ↔ Q
    → ((answered x again).outcome ≡ ok tt) ↔ ((x ≡ success) ⊎ (IsRetried x × Q))
answered-ok success again q = (λ h. inl refl, λ h. refl)
answered-ok client_error again q =
    (λ h. absurd cc, λ h. elim h [ inl e ↦ absurd cc | inr (bad, s) ↦ absurd bad ])
answered-ok other_status again q =
    (λ h. inr (tt, q.0 h), λ h. elim h [ inl e ↦ absurd cc | inr (t, s) ↦ q.1 s ])
answered-ok no_answer again q =
    (λ h. inr (tt, q.0 h), λ h. elim h [ inl e ↦ absurd cc | inr (t, s) ↦ q.1 s ])

last-ok : (x : Answer) → ((answered x (once (err delivery_failed))).outcome ≡ ok tt) ↔ (x ≡ success)
last-ok success = (λ h. refl, λ h. refl)
last-ok client_error = (λ h. absurd cc, λ h. absurd cc)
last-ok other_status = (λ h. absurd cc, λ h. absurd cc)
last-ok no_answer = (λ h. absurd cc, λ h. absurd cc)

attempt_from-ok :
    (send : ℕ → Answer) (left attempt ms : ℕ)
    → ((attempt_from send left attempt ms).outcome ≡ ok tt) ↔ SucceedsWithin send left attempt
unfolding attempt_from
attempt_from-ok send zero attempt ms = last-ok (send attempt)
attempt_from-ok send (suc left) attempt ms =
    answered-ok (send attempt) _ (attempt_from-ok send left (suc attempt) _)

-- A webhook delivery succeeds exactly if one of the four attempts does and every attempt before
-- it came to no answer or to a status that is neither a success nor a client error.
pub publish-ok : (send : ℕ → Answer) → ((publish send).outcome ≡ ok tt) ↔ SucceedsWithin send 3 0
unfolding publish
publish-ok send = attempt_from-ok send 3 0 initial_backoff_ms

abbrev pub is_retried : Answer → Bool
is_retried success = false
is_retried client_error = false
is_retried other_status = true
is_retried no_answer = true

-- How many attempts from `attempt` on, of `left` at most, are followed by another.
abbrev pub retries : (ℕ → Answer) → ℕ → ℕ → ℕ
retries send zero attempt = 0
retries send (suc left) attempt =
    let rest = retries send left (suc attempt) in if is_retried (send attempt) then suc rest else 0

-- All that a loop with `left` further attempts may do.
abbrev schedule_from : ℕ → ℕ → List Action
schedule_from zero ms = request ∷ []
schedule_from (suc left) ms =
    request ∷ sleep ms ∷ schedule_from left (min (ms * backoff_multiplier) max_backoff_ms)

abbrev pub schedule : List Action
schedule = request ∷ sleep 100 ∷ request ∷ sleep 200 ∷ request ∷ sleep 400 ∷ request ∷ []

-- The first request of a list of actions, and `n` further requests with the pauses before them.
abbrev pub with_retries : ℕ → List Action → List Action
with_retries n [] = []
with_retries zero (a ∷ acts) = a ∷ []
with_retries (suc n) (a ∷ []) = a ∷ []
with_retries (suc n) (a ∷ b ∷ acts) = a ∷ b ∷ with_retries n acts

last-trace : (x : Answer) (q : Result (Unit {0})) → (answered x (once q)).trace ≡ request ∷ []
last-trace success q = refl
last-trace client_error q = refl
last-trace other_status q = refl
last-trace no_answer q = refl

answered-trace :
    (x : Answer) (ms n : ℕ) (rest : Attempts) (acts : List Action)
    → rest.trace ≡ with_retries n acts
    → (answered x (after_pause ms rest)).trace
      ≡ with_retries (if is_retried x then suc n else 0) (request ∷ sleep ms ∷ acts)
answered-trace success ms n rest acts h = refl
answered-trace client_error ms n rest acts h = refl
answered-trace other_status ms n rest acts h = ap (λ t. request ∷ sleep ms ∷ t) h
answered-trace no_answer ms n rest acts h = ap (λ t. request ∷ sleep ms ∷ t) h

attempt_from-schedule_from :
    (send : ℕ → Answer) (left attempt ms : ℕ)
    → (attempt_from send left attempt ms).trace
      ≡ with_retries (retries send left attempt) (schedule_from left ms)
unfolding attempt_from
attempt_from-schedule_from send zero attempt ms = last-trace (send attempt) (err delivery_failed)
attempt_from-schedule_from send (suc left) attempt ms =
    let next = min (ms * backoff_multiplier) max_backoff_ms in
    answered-trace (send attempt) ms (retries send left (suc attempt))
      (attempt_from send left (suc attempt) next) (schedule_from left next)
      (attempt_from-schedule_from send left (suc attempt) next)

-- A webhook delivery sends a request and, for each of the first three attempts that is to be
-- retried after only such attempts, sleeps and sends another: the pauses are of 100, 200 and 400
-- milliseconds, in that order, so there are four requests at most.
pub publish-schedule :
    (send : ℕ → Answer) → (publish send).trace ≡ with_retries (retries send 3 0) schedule
unfolding publish
publish-schedule send = attempt_from-schedule_from send 3 0 initial_backoff_ms
