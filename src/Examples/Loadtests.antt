-- ===== src/Examples/Loadtests.antt =====
-- A load test of two workers, with numbers in place of f64.
use mathlib.Core.List.Perm
use peat_gateway.Base.{
  ℕ, ◌+◌, ◌-◌, ◌*◌, ◌/◌, Text, codes, some, none, [], ◌∷◌, ◌≡◌, refl, ltb, arith,
}
use peat_gateway.Loadtest.Worker.{Client, Round, get, post, patch, delete}
use peat_gateway.Loadtest.Report.{Floats, LoadTestReport}
use peat_gateway.Loadtest.Run.{Session, run}
use peat_gateway.Loadtest.Sums.{total}
use peat_gateway.Loadtest.Accounts.{AllSessionsAnswer, flatten, run-total}
use peat_gateway.Loadtest.Busy.{Answers, AllAnswer}

instance number_floats : Floats
number_floats = record {
  F64 = ℕ;
  from_nat = λ n. n;
  sub = ◌-◌;
  mul = ◌*◌;
  div = ◌/◌;
  is_pos = λ n. ltb 0 n;
  round_to_usize = λ n. n;
}

abbrev mark : ℕ → Text
mark n = n ∷ []

-- A server that lets everything but a creation pass.
abbrev server : Client
server (post path body) = some (record { status = 403; body = none })
server (get path) = some (record { status = 200; body = none })
server (patch path body) = some (record { status = 200; body = none })
server (delete path) = some (record { status = 204; body = none })

server-Answers : Answers server
server-Answers (post path body) = (_, refl)
server-Answers (get path) = (_, refl)
server-Answers (patch path body) = (_, refl)
server-Answers (delete path) = (_, refl)

abbrev round : Round
round = record { client = server; latency_us = 5; timestamp_ms = 7 }

abbrev session : Session
session = record { setup = server; rounds = round ∷ round ∷ [] }

sessions-Answer : AllSessionsAnswer (session ∷ session ∷ [])
sessions-Answer =
    let rounds : AllAnswer (round ∷ round ∷ []) = (server-Answers, (server-Answers, tt)) in
    (rounds, (rounds, tt))

run-total_example :
    (r : LoadTestReport) × (run mark flatten
        (λ m. m)
        (session ∷ session ∷ [])
        30
        (codes "multi-org")
        1
      ≡ some r)
    × (r.total_requests ≡ 4)
    × (r.successful + r.failed ≡ r.total_requests)
    × (total (λ e. e.count) r.endpoints ≡ r.total_requests)
    × (total (λ e. e.1) r.error_breakdown ≡ r.failed)
run-total_example =
    run-total mark flatten (λ sent. Perm.rfl) (λ m. m) (λ m. Perm.rfl) (session ∷ session ∷ []) 30
      (codes "multi-org") 1 (λ many. omega arith) sessions-Answer
