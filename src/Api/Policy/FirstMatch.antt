-- ===== src/Api/Policy/FirstMatch.antt =====
-- api/enroll.rs: which rule decides.
use peat_gateway.Base.{
  Option-cases, ◌+◌, ℕ, ◌≤◌, ◌≡◌, refl, sym, subst, ◌⊎◌, inl, inr, true, false, Bool-cases, Option,
  none, some, List, [], ◌∷◌, ◌++◌, leb, arith, if◌then◌else◌, ap, ◌∙◌,
}
use peat_gateway.Tenant.Models.{PolicyRule, EnrollmentDecision, approved}
use peat_gateway.Api.Claims.{Claims}
use peat_gateway.Api.Policy.{
  endpoint, matches, insert_by_priority, sort_by_priority, first_match, evaluate_policy,
  default_decision,
}

-- Every rule of the list that matches has at least the priority number `k`.
abbrev pub NoneBefore : Claims → ℕ → List PolicyRule → Type 0
NoneBefore claims k [] = Unit {0}
NoneBefore claims k (r ∷ rs) = ((matches claims r ≡ true) → k ≤ r.priority) × NoneBefore claims k rs

abbrev pub NoMatch : Claims → List PolicyRule → Type 0
NoMatch claims [] = Unit {0}
NoMatch claims (r ∷ rs) = (matches claims r ≡ false) × NoMatch claims rs

-- The rule matches, and in the order of the list, every matching rule before it has a higher
-- priority number and every matching rule after it no lower one.
pub record Decides (claims : Claims) (rules : List PolicyRule) (rule : PolicyRule) : Type 0 where
  pub before : List PolicyRule
  pub after : List PolicyRule
  pub there : rules ≡ before ++ (rule ∷ after)
  pub hit : matches claims rule ≡ true
  pub earlier : NoneBefore claims (1 + rule.priority) before
  pub later : NoneBefore claims rule.priority after

-- the reference: the best of the matching rules, the earlier one on a tie
abbrev better : Claims → PolicyRule → Option PolicyRule → Option PolicyRule
better claims x none = if matches claims x then some x else none
better claims x (some y) =
    if matches claims x then (if leb x.priority y.priority then some x else some y) else some y

abbrev best : Claims → List PolicyRule → Option PolicyRule
best claims [] = none
best claims (x ∷ xs) = better claims x (best claims xs)

abbrev found : Claims → List PolicyRule → Option PolicyRule
found claims [] = none
found claims (x ∷ xs) = let rest = found claims xs in if matches claims x then some x else rest

abbrev decision_of : Option PolicyRule → EnrollmentDecision
decision_of none = default_decision
decision_of (some r) = approved r.tier r.permissions

first_match-found :
    (claims : Claims) (rs : List PolicyRule) → first_match claims rs ≡ decision_of (found claims rs)
unfolding first_match
first_match-found claims [] = refl
first_match-found claims (r ∷ rs) = ground (arith, first_match-found claims rs)

abbrev AllFrom : ℕ → List PolicyRule → Type 0
AllFrom k [] = Unit {0}
AllFrom k (r ∷ rs) = (k ≤ r.priority) × AllFrom k rs

abbrev IsSorted : List PolicyRule → Type 0
IsSorted [] = Unit {0}
IsSorted (r ∷ rs) = AllFrom r.priority rs × IsSorted rs

AllFrom-le : {k n : ℕ} (rs : List PolicyRule) → n ≤ k → AllFrom k rs → AllFrom n rs
AllFrom-le [] h a = tt
AllFrom-le (r ∷ rs) h (le, a) = (omega arith, AllFrom-le rs h a)

AllFrom-insert :
    (k : ℕ) (x : PolicyRule) (rs : List PolicyRule)
    → k ≤ x.priority
    → AllFrom k rs
    → AllFrom k (insert_by_priority x rs)
unfolding insert_by_priority
AllFrom-insert k x [] h a = (h, tt)
AllFrom-insert k x (r ∷ rs) h (le, a) = elim (Bool-cases (leb x.priority r.priority)) [
  | inl small ↦ rw small (h, (le, a))
  | inr big ↦ rw big (le, AllFrom-insert k x rs h a)
]

insert-IsSorted :
    (x : PolicyRule) (rs : List PolicyRule) → IsSorted rs → IsSorted (insert_by_priority x rs)
unfolding insert_by_priority
insert-IsSorted x [] s = (tt, tt)
insert-IsSorted x (r ∷ rs) (a, s) = elim (Bool-cases (leb x.priority r.priority)) [
  | inl small ↦ rw small ((ground arith, AllFrom-le rs (ground arith) a), (a, s))
  | inr big ↦ rw big (AllFrom-insert r.priority x rs (ground arith) a, insert-IsSorted x rs s)
]

sort-IsSorted : (rs : List PolicyRule) → IsSorted (sort_by_priority rs)
unfolding sort_by_priority
sort-IsSorted [] = tt
sort-IsSorted (r ∷ rs) = insert-IsSorted r (sort_by_priority rs) (sort-IsSorted rs)

module _ (claims : Claims) where
  better-first :
      (x : PolicyRule) (rs : List PolicyRule)
      → AllFrom x.priority rs
      → better claims x (found claims rs) ≡ found claims (x ∷ rs)
  better-first x [] a = refl
  better-first x (r ∷ rs) (le, a) = ground (arith, better-first x rs a)

  found-insert :
      (x : PolicyRule) (rs : List PolicyRule)
      → IsSorted rs
      → found claims (insert_by_priority x rs) ≡ better claims x (found claims rs)
  unfolding insert_by_priority
  found-insert x [] s = refl
  found-insert x (r ∷ rs) (a, s) = elim (Bool-cases (leb x.priority r.priority)) [
    | inl small ↦
        let le : x.priority ≤ r.priority = ground arith in
        rw small (sym (better-first x (r ∷ rs) (le, AllFrom-le rs le a)))
    | inr big ↦ rw big (elim (Bool-cases (matches claims r)) [
      | inl hit ↦ ground arith
      | inr miss ↦ ground (arith, found-insert x rs s)
    ])
  ]

  found-sort : (rs : List PolicyRule) → found claims (sort_by_priority rs) ≡ best claims rs
  unfolding sort_by_priority
  found-sort [] = refl
  found-sort (r ∷ rs) =
      found-insert r (sort_by_priority rs) (sort-IsSorted rs) ∙ ap (better claims r) (found-sort rs)

  NoMatch-NoneBefore : (k : ℕ) (rs : List PolicyRule) → NoMatch claims rs → NoneBefore claims k rs
  NoMatch-NoneBefore k [] h = tt
  NoMatch-NoneBefore k (r ∷ rs) (h, hs) = (λ e. ground arith, NoMatch-NoneBefore k rs hs)

  NoneBefore-le :
      (k n : ℕ) (rs : List PolicyRule) → n ≤ k → NoneBefore claims k rs → NoneBefore claims n rs
  NoneBefore-le k n [] le h = tt
  NoneBefore-le k n (r ∷ rs) le (h, hs) = (λ e. omega (arith, h e), NoneBefore-le k n rs le hs)

  NoneBefore-append :
      (k : ℕ) (rs ss : List PolicyRule)
      → NoneBefore claims k rs
      → NoneBefore claims k ss
      → NoneBefore claims k (rs ++ ss)
  NoneBefore-append k [] ss h g = g
  NoneBefore-append k (r ∷ rs) ss (h, hs) g = (h, NoneBefore-append k rs ss hs g)

  Decides-NoneBefore :
      (n : ℕ) (rs : List PolicyRule) (y : PolicyRule)
      → n ≤ y.priority
      → Decides claims rs y
      → NoneBefore claims n rs
  Decides-NoneBefore n rs y le d = subst (NoneBefore claims n) (sym d.there) (
      NoneBefore-append n d.before (y ∷ d.after)
        (NoneBefore-le (1 + y.priority) n d.before (omega arith) d.earlier)
        ((λ e. le), NoneBefore-le y.priority n d.after le d.later))

  Decides-cons :
      (x y : PolicyRule) (rs : List PolicyRule)
      → ((matches claims x ≡ true) → 1 + y.priority ≤ x.priority)
      → Decides claims rs y
      → Decides claims (x ∷ rs) y
  Decides-cons x y rs h d = record {
    before = x ∷ d.before;
    after = d.after;
    there = ap (λ t. x ∷ t) d.there;
    hit = d.hit;
    earlier = (h, d.earlier);
    later = d.later;
  }

  Decides-here :
      (x : PolicyRule) (rs : List PolicyRule)
      → matches claims x ≡ true
      → NoneBefore claims x.priority rs
      → Decides claims (x ∷ rs) x
  Decides-here x rs h later = record {
    before = [];
    after = rs;
    there = refl;
    hit = h;
    earlier = tt;
    later = later;
  }

  abbrev Decided : List PolicyRule → Option PolicyRule → Type 0
  Decided rs none = NoMatch claims rs
  Decided rs (some r) = Decides claims rs r

  best-Decided : (rs : List PolicyRule) → Decided rs (best claims rs)
  best-Decided [] = tt
  best-Decided (x ∷ xs) = go (best claims xs) (best-Decided xs)
    where
      go : (o : Option PolicyRule) → Decided xs o → Decided (x ∷ xs) (better claims x o)
      go none h = elim (Bool-cases (matches claims x)) [
        | inl hit ↦ rw hit (Decides-here x xs hit (NoMatch-NoneBefore x.priority xs h))
        | inr miss ↦ rw miss (miss, h)
      ]
      go (some y) d = elim (Bool-cases (matches claims x)) [
        | inr miss ↦ rw miss (Decides-cons x y xs (λ e. ground arith) d)
        | inl hit ↦ rw hit (elim (Bool-cases (leb x.priority y.priority)) [
          | inl small ↦
              rw small (Decides-here x xs hit (Decides-NoneBefore x.priority xs y (ground arith) d))
          | inr big ↦ rw big (Decides-cons x y xs (λ e. ground arith) d)
        ])
      ]

  -- Either some rule decides, the first in the order of the list among the matching rules with
  -- the lowest priority number, and evaluate_policy approves its tier and permissions; or no
  -- rule matches, and it approves an endpoint without permissions.
  pub evaluate_policy_lem :
      (rules : List PolicyRule)
      → ((rule : PolicyRule) × Decides claims rules rule
          × (evaluate_policy rules claims ≡ approved rule.tier rule.permissions))
        ⊎ (NoMatch claims rules × (evaluate_policy rules claims ≡ approved endpoint 0))
  unfolding evaluate_policy
  evaluate_policy_lem rules =
      let e =
        first_match-found claims (sort_by_priority rules) ∙ ap decision_of (found-sort rules) in
      elim (Option-cases (best claims rules)) [
        | inl nothing ↦
            inr (subst (Decided rules) nothing (best-Decided rules), e ∙ ap decision_of nothing)
        | inr (r, one) ↦
            inl (r, subst (Decided rules) one (best-Decided rules), e ∙ ap decision_of one)
      ]
