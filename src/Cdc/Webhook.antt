-- ===== src/Cdc/Webhook.antt =====
-- cdc/webhook_sink.rs: `WebhookSink::publish`, a request with retries.
pub mod Retries
use peat_gateway.Base.{ℕ, zero, suc, ◌*◌, Result, ok, err, List, [], ◌∷◌, delivery_failed}
use Prim.Native.Nat.{min}

abbrev pub max_retries : ℕ
max_retries = 3

abbrev pub initial_backoff_ms : ℕ
initial_backoff_ms = 100

abbrev pub backoff_multiplier : ℕ
backoff_multiplier = 2

abbrev pub max_backoff_ms : ℕ
max_backoff_ms = 5000

-- What `send` comes to: a status of success, of a client error or another, or no answer.
pub data Answer : Type 0 where
  success client_error other_status no_answer : Answer

-- What the loop does: it sends a request, or sleeps for some milliseconds.
pub data Action : Type 0 where
  request : Action
  sleep : ℕ → Action

-- The result of the loop with what it did, in order.
pub record Attempts : Type 0 where
  pub outcome : Result (Unit {0})
  pub trace : List Action

abbrev pub once : Result (Unit {0}) → Attempts
once q = record { outcome = q; trace = request ∷ [] }

-- A request and a pause, before further attempts.
abbrev pub after_pause : ℕ → Attempts → Attempts
after_pause ms rest = record { outcome = rest.outcome; trace = request ∷ sleep ms ∷ rest.trace }

abbrev pub answered : Answer → Attempts → Attempts
answered success again = once (ok tt)
answered client_error again = once (err delivery_failed)
answered other_status again = again
answered no_answer again = again

-- The loop from `attempt` on, of which `left` further attempts are allowed.
unfoldable pub attempt_from : (ℕ → Answer) → ℕ → ℕ → ℕ → Attempts
attempt_from send zero attempt backoff_ms = answered (send attempt) (once (err delivery_failed))
attempt_from send (suc left) attempt backoff_ms = answered (send attempt) (
    after_pause backoff_ms
      (attempt_from send left (suc attempt) (min (backoff_ms * backoff_multiplier) max_backoff_ms)))

-- `send` says what each attempt comes to.
unfoldable pub publish : (ℕ → Answer) → Attempts
publish send = attempt_from send max_retries 0 initial_backoff_ms
