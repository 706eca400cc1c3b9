-- ===== src/Loadtest/Report.antt =====
-- loadtest.rs: `percentile` and `aggregate`. The type f64 with its operations is a parameter.
use Prim.Native.Nat.{min, max}
use peat_gateway.Base.{
  zero, suc, ℕ, ◌+◌, ◌-◌, ◌/◌, ◌%◌, ◌^◌, Text, ◌==◌, Bool, ◌||◌, List, [], ◌∷◌, ◌++◌, map, filter,
  length, leb, ltb, nat_eq, if◌then◌else◌,
}
use peat_gateway.Loadtest.Worker.{RequestSample}

-- `f64`: the conversions from and to `usize`, and the operations that are used.
pub record Floats : Type 1 where
  pub F64 : Type 0
  pub from_nat : ℕ → F64
  pub sub : F64 → F64 → F64
  pub mul : F64 → F64 → F64
  pub div : F64 → F64 → F64
  pub is_pos : F64 → Bool
  pub round_to_usize : F64 → ℕ

pub record EndpointStats : Type 0 where
  pub endpoint : Text
  pub count : ℕ
  pub errors : ℕ
  pub p50_us : ℕ
  pub p95_us : ℕ
  pub p99_us : ℕ
  pub max_us : ℕ
  pub mean_us : ℕ

-- a `HashMap` from statuses or endpoints, as its entries
abbrev pub Breakdown : Type 0
Breakdown = List (ℕ × ℕ)

abbrev pub Groups : Type 0
Groups = List (Text × List RequestSample)

abbrev pub nth_or_zero : ℕ → List ℕ → ℕ
nth_or_zero i [] = 0
nth_or_zero zero (x ∷ xs) = x
nth_or_zero (suc i) (x ∷ xs) = nth_or_zero i xs

-- `sort_unstable` on numbers
unfoldable pub insert_latency : ℕ → List ℕ → List ℕ
insert_latency x [] = x ∷ []
insert_latency x (y ∷ ys) =
    let rest = insert_latency x ys in if leb x y then x ∷ y ∷ ys else y ∷ rest

unfoldable pub sort_latencies : List ℕ → List ℕ
unfolding insert_latency
sort_latencies [] = []
sort_latencies (x ∷ xs) = insert_latency x (sort_latencies xs)

-- `iter().sum::<u64>()`, in a build without overflow checks
unfoldable pub sum_u64 : List ℕ → ℕ
sum_u64 [] = 0
sum_u64 (x ∷ xs) = (x + sum_u64 xs) % 2 ^ 64

unfoldable pub mean_of : List ℕ → ℕ
unfolding sum_u64
mean_of [] = 0
mean_of (x ∷ xs) = sum_u64 (x ∷ xs) / length (x ∷ xs)

-- `*lats.last().unwrap_or(&0)`
abbrev pub last_or_zero : List ℕ → ℕ
last_or_zero [] = 0
last_or_zero (x ∷ []) = x
last_or_zero (x ∷ y ∷ ys) = last_or_zero (y ∷ ys)

-- `*error_breakdown.entry(status).or_default() += 1`
unfoldable pub add_error : ℕ → Breakdown → Breakdown
add_error status [] = (status, 1) ∷ []
add_error status ((s, n) ∷ m) =
    let rest = add_error status m in if nat_eq s status then (s, n + 1) ∷ m else (s, n) ∷ rest

abbrev pub failing : RequestSample → Bool
failing s = leb 400 s.status

unfoldable pub breakdown_from : Breakdown → List RequestSample → Breakdown
unfolding add_error
breakdown_from m [] = m
breakdown_from m (s ∷ ss) = breakdown_from (if failing s then add_error s.status m else m) ss

-- `by_endpoint.entry(s.endpoint.clone()).or_default().push(s)`
unfoldable pub push_sample : RequestSample → Groups → Groups
push_sample s [] = (s.endpoint, s ∷ []) ∷ []
push_sample s ((e, ss) ∷ m) =
    let rest = push_sample s m in
    if e == s.endpoint then (e, ss ++ (s ∷ [])) ∷ m else (e, ss) ∷ rest

unfoldable pub groups_from : Groups → List RequestSample → Groups
unfolding push_sample
groups_from m [] = m
groups_from m (s ∷ ss) = groups_from (push_sample s m) ss

-- `endpoints.sort_by(|a, b| b.count.cmp(&a.count))`
unfoldable pub insert_stats : EndpointStats → List EndpointStats → List EndpointStats
insert_stats e [] = e ∷ []
insert_stats e (f ∷ fs) =
    let rest = insert_stats e fs in if leb f.count e.count then e ∷ f ∷ fs else f ∷ rest

unfoldable pub sort_stats : List EndpointStats → List EndpointStats
unfolding insert_stats
sort_stats [] = []
sort_stats (e ∷ es) = insert_stats e (sort_stats es)

abbrev pub least : ℕ → List RequestSample → ℕ
least acc [] = acc
least acc (s ∷ ss) = least (min acc s.timestamp_ms) ss

abbrev pub greatest : ℕ → List RequestSample → ℕ
greatest acc [] = acc
greatest acc (s ∷ ss) = greatest (max acc s.timestamp_ms) ss

abbrev pub latencies : List RequestSample → List ℕ
latencies = map λ s. s.latency_us

module _ ⦃f : Floats⦄ where
  unfoldable pub percentile : List ℕ → f.F64 → ℕ
  percentile sorted p =
      let idx =
        f.round_to_usize
          (f.mul (f.div p (f.from_nat 100)) (f.sub (f.from_nat (length sorted)) (f.from_nat 1))) in
      nth_or_zero (min idx (length sorted - 1)) sorted

  -- the closure of `by_endpoint.into_iter().map(…)`
  unfoldable pub stats_of : Text × List RequestSample → EndpointStats
  unfolding percentile mean_of
  stats_of (ep, ep_samples) =
      let lats = sort_latencies (latencies ep_samples) in
      record {
        endpoint = ep;
        count = length ep_samples;
        errors = length (filter (λ s. failing s || nat_eq s.status 0) ep_samples);
        p50_us = percentile lats (f.from_nat 50);
        p95_us = percentile lats (f.from_nat 95);
        p99_us = percentile lats (f.from_nat 99);
        max_us = last_or_zero lats;
        mean_us = mean_of lats;
      }

  abbrev pub positive_or : ℕ → f.F64 → f.F64
  positive_or duration_secs dur = if f.is_pos dur then dur else f.from_nat duration_secs

  -- `if samples.len() >= 2 { … }`
  unfoldable pub actual_duration : ℕ → List RequestSample → f.F64
  actual_duration duration_secs [] = f.from_nat duration_secs
  actual_duration duration_secs (s ∷ []) = f.from_nat duration_secs
  actual_duration duration_secs (s ∷ t ∷ ss) = positive_or duration_secs (
      f.div (f.from_nat (greatest s.timestamp_ms (t ∷ ss) - least s.timestamp_ms (t ∷ ss)))
        (f.from_nat 1000))

  pub record LoadTestReport : Type 0 where
    pub scenario : Text
    pub concurrency : ℕ
    pub duration_secs : ℕ
    pub total_requests : ℕ
    pub successful : ℕ
    pub failed : ℕ
    pub throughput_rps : f.F64
    pub p50_us : ℕ
    pub p95_us : ℕ
    pub p99_us : ℕ
    pub max_us : ℕ
    pub mean_us : ℕ
    pub error_breakdown : Breakdown
    pub endpoints : List EndpointStats
    pub samples : List RequestSample

  -- `iterate` is the order in which `into_iter` meets the entries of `by_endpoint`.
  unfoldable pub aggregate : (Groups → Groups) → List RequestSample → Text → ℕ → ℕ → LoadTestReport
  unfolding stats_of percentile mean_of breakdown_from groups_from sort_stats actual_duration
  aggregate iterate samples scenario concurrency duration_secs =
      let total = length samples in
      let successful = length (filter (λ s. ltb s.status 400) samples) in
      let all_latencies = sort_latencies (latencies samples) in
      record {
        scenario = scenario;
        concurrency = concurrency;
        duration_secs = duration_secs;
        total_requests = total;
        successful = successful;
        failed = total - successful;
        throughput_rps = f.div (f.from_nat total) (actual_duration duration_secs samples);
        p50_us = percentile all_latencies (f.from_nat 50);
        p95_us = percentile all_latencies (f.from_nat 95);
        p99_us = percentile all_latencies (f.from_nat 99);
        max_us = last_or_zero all_latencies;
        mean_us = mean_of all_latencies;
        error_breakdown = breakdown_from [] samples;
        endpoints = sort_stats (map stats_of (iterate (groups_from [] samples)));
        samples = samples;
      }
