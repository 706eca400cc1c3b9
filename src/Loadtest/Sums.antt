-- ===== src/Loadtest/Sums.antt =====
-- loadtest.rs: the numbers of a report account for every sample.
use mathlib.Core.List.{Perm, foldr}
use mathlib.Core.List.Perm
use mathlib.Core.Path.{fun_ext}
use native.Mathlib.Nat.{ℕ_set}
use native.Mathlib.Omega.{arith}
use peat_gateway.Base.{
  ℕ, suc, ◌+◌, ◌≡◌, refl, ap, sym, ◌∙◌, Text, Bool, true, ◌||◌, List, [], ◌∷◌, ◌++◌, map, filter,
  length, ltb, nat_eq,
}
use peat_gateway.Loadtest.Worker.{RequestSample}
use peat_gateway.Loadtest.Report.{
  Floats, EndpointStats, Breakdown, Groups, add_error, failing, breakdown_from, push_sample,
  groups_from, insert_stats, sort_stats, stats_of, aggregate,
}

-- The sum of a number over a list.
abbrev pub total {ℓ} : {A : Type ℓ} → (A → ℕ) → List A → ℕ
total g = foldr (λ x n. g x + n) 0

total-map {ℓ κ} :
    {A : Type ℓ} {B : Type κ} (f : A → B) (g : B → ℕ) (xs : List A)
    → total g (map f xs) ≡ total (λ x. g (f x)) xs
total-map f g [] = refl
total-map f g (x ∷ xs) = ap (λ n. g (f x) + n) (total-map f g xs)

add_error-total :
    (status : ℕ) (m : Breakdown) → total (λ e. e.1) (add_error status m) ≡ suc (total (λ e. e.1) m)
unfolding add_error
add_error-total status [] = refl
add_error-total status ((s, n) ∷ m) = ground (arith, add_error-total status m)

breakdown_from-total :
    (m : Breakdown) (ss : List RequestSample)
    → total (λ e. e.1) (breakdown_from m ss) ≡ total (λ e. e.1) m + length (filter failing ss)
unfolding breakdown_from
breakdown_from-total m [] = omega arith
breakdown_from-total m (s ∷ ss) = ground (
  arith,
  breakdown_from-total m ss,
  breakdown_from-total (add_error s.status m) ss,
  add_error-total s.status m,
)

insert_stats-total :
    (g : EndpointStats → ℕ) (e : EndpointStats) (es : List EndpointStats)
    → total g (insert_stats e es) ≡ g e + total g es
unfolding insert_stats
insert_stats-total g e [] = refl
insert_stats-total g e (f ∷ fs) = ground (arith, insert_stats-total g e fs)

sort_stats-total :
    (g : EndpointStats → ℕ) (es : List EndpointStats) → total g (sort_stats es) ≡ total g es
unfolding sort_stats
sort_stats-total g [] = refl
sort_stats-total g (e ∷ es) =
    omega (arith, insert_stats-total g e (sort_stats es), sort_stats-total g es)

filter-append-length :
    (p : RequestSample → Bool) (xs ys : List RequestSample)
    → length (filter p (xs ++ ys)) ≡ length (filter p xs) + length (filter p ys)
filter-append-length p [] ys = omega arith
filter-append-length p (x ∷ xs) ys = ground (arith, filter-append-length p xs ys)

-- The samples of a group that pass a test.
abbrev passing : (RequestSample → Bool) → Text × List RequestSample → ℕ
passing p (e, ss) = length (filter p ss)

push_sample-total :
    (p : RequestSample → Bool) (s : RequestSample) (m : Groups)
    → total (passing p) (push_sample s m) ≡ length (filter p (s ∷ [])) + total (passing p) m
unfolding push_sample
push_sample-total p s [] = omega arith
push_sample-total p s ((e, ss) ∷ m) =
    ground (arith, filter-append-length p ss (s ∷ []), push_sample-total p s m)

groups_from-total :
    (p : RequestSample → Bool) (m : Groups) (ss : List RequestSample)
    → total (passing p) (groups_from m ss) ≡ total (passing p) m + length (filter p ss)
unfolding groups_from
groups_from-total p m [] = omega arith
groups_from-total p m (s ∷ ss) =
    ground (arith, groups_from-total p (push_sample s m) ss, push_sample-total p s m)

pub total-perm {ℓ} :
    {A : Type ℓ} (g : A → ℕ) {xs ys : List A} → Perm xs ys → total g xs ≡ total g ys
total-perm {A} g p = Perm.foldr-eq ℕ_set (λ (x : A) n. g x + n) (λ a b n. omega arith) p 0

module _ ⦃f : Floats⦄ where
  endpoints-total :
      (g : EndpointStats → ℕ) (p : RequestSample → Bool)
      → ((q : Text × List RequestSample) → g (stats_of q) ≡ passing p q)
      → (iterate : Groups → Groups) → ((m : Groups) → Perm (iterate m) m)
      → (samples : List RequestSample)
      → total g (sort_stats (map stats_of (iterate (groups_from [] samples))))
        ≡ length (filter p samples)
  endpoints-total g p h iterate permutes samples =
      let groups = iterate (groups_from [] samples) in
      sort_stats-total g (map stats_of groups)
      ∙ total-map stats_of g groups
      ∙ ap (λ k. total k groups) (fun_ext h)
      ∙ total-perm (passing p) (permutes (groups_from [] samples))
      ∙ omega (arith, groups_from-total p [] samples)

  length-filter-compl :
      (ss : List RequestSample)
      → length (filter (λ s. ltb s.status 400) ss) + length (filter failing ss) ≡ length ss
  length-filter-compl [] = omega arith
  length-filter-compl (s ∷ ss) = ground (arith, length-filter-compl ss)

  length-filter-or :
      (ss : List RequestSample)
      → length (filter (λ s. failing s || nat_eq s.status 0) ss)
        ≡ length (filter failing ss) + length (filter (λ s. nat_eq s.status 0) ss)
  length-filter-or [] = omega arith
  length-filter-or (s ∷ ss) = ground (arith, length-filter-or ss)

  length-filter-true : (ss : List RequestSample) → length (filter (λ s. true) ss) ≡ length ss
  length-filter-true [] = refl
  length-filter-true (s ∷ ss) = ap suc (length-filter-true ss)

  -- A report's successes and failures, the counts of its endpoints and its breakdown add up to what
  -- they should.
  pub aggregate-total :
      (iterate : Groups → Groups)
      → ((m : Groups) → Perm (iterate m) m)
      → (samples : List RequestSample) (scenario : Text) (concurrency duration_secs : ℕ)
      → let r = aggregate iterate samples scenario concurrency duration_secs in
        (r.successful + r.failed ≡ length samples)
        × (total (λ e. e.1) r.error_breakdown ≡ r.failed)
        × (total (λ e. e.count) r.endpoints ≡ length samples)
        × (total (λ e. e.errors) r.endpoints
            ≡ r.failed + length (filter (λ s. nat_eq s.status 0) samples))
  unfolding aggregate stats_of
  aggregate-total iterate permutes samples scenario concurrency duration_secs =
      let compl = length-filter-compl samples in
      let breakdown = breakdown_from-total [] samples in
      let counts =
        endpoints-total (λ e. e.count) (λ s. true) (λ q. sym (length-filter-true q.1)) iterate
          permutes samples in
      let errors =
        endpoints-total (λ e. e.errors) (λ s. failing s || nat_eq s.status 0) (λ q. refl) iterate
          permutes samples in
      (
        omega (arith, compl),
        omega (arith, compl, breakdown),
        counts ∙ length-filter-true samples,
        omega (arith, errors, compl, length-filter-or samples),
      )
