-- ===== src/Api/Policy.antt =====
-- api/enroll.rs: `evaluate_policy`.
pub mod FirstMatch
use peat_gateway.Base.{
  ℕ, Text, codes, ◌==◌, Bool, true, false, not, ◌&&◌, ◌||◌, Option, none, some, List, [], ◌∷◌, leb,
  if◌then◌else◌,
}
use peat_gateway.Tenant.Models.{PolicyRule, EnrollmentDecision, approved, endpoint}
use peat_gateway.Api.Claims.{
  Claims, Value, Values, null, boolean, number, string, array, object, no_value, value, as_str,
}

-- `v.as_str().map(|s| s == rule.claim_value).unwrap_or(false)`
abbrev pub is_text : Text → Option Text → Bool
is_text s none = false
is_text s (some t) = t == s

-- `arr.iter().any(…)`
abbrev pub any_text : Text → Values → Bool
any_text s no_value = false
any_text s (value v vs) = is_text s (as_str v) || any_text s vs

-- The `match claim_val` of the loop.
unfoldable pub matches_value : Text → Value → Bool
matches_value claim_value (string s) = s == claim_value
matches_value claim_value (boolean b) =
    (claim_value == codes "true" && b) || (claim_value == codes "false" && not b)
matches_value claim_value (array arr) = any_text claim_value arr
matches_value claim_value (number n) = n == claim_value
matches_value claim_value null = false
matches_value claim_value (object members) = false

abbrev matches_claim : Text → Option Value → Bool
matches_claim claim_value none = false
matches_claim claim_value (some v) = matches_value claim_value v

-- `if let Some(claim_val) = claims.get(&rule.claim_key) { … matches }`
unfoldable pub matches : Claims → PolicyRule → Bool
matches claims rule = matches_claim rule.claim_value (claims rule.claim_key)

-- `sort_by_key(|r| r.priority)`: a stable sort.
unfoldable pub insert_by_priority : PolicyRule → List PolicyRule → List PolicyRule
insert_by_priority x [] = x ∷ []
insert_by_priority x (y ∷ ys) =
    let rest = insert_by_priority x ys in
    if leb x.priority y.priority then x ∷ (y ∷ ys) else y ∷ rest

unfoldable pub sort_by_priority : List PolicyRule → List PolicyRule
sort_by_priority [] = []
sort_by_priority (x ∷ xs) = insert_by_priority x (sort_by_priority xs)

-- `EnrollmentDecision::Approved { tier: MeshTier::Endpoint, permissions: 0 }`
abbrev pub default_decision : EnrollmentDecision
default_decision = approved endpoint 0

-- The loop over the sorted rules, which returns at the first match.
unfoldable pub first_match : Claims → List PolicyRule → EnrollmentDecision
first_match claims [] = default_decision
first_match claims (rule ∷ rules) =
    let rest = first_match claims rules in
    if matches claims rule then approved rule.tier rule.permissions else rest

unfoldable pub evaluate_policy : List PolicyRule → Claims → EnrollmentDecision
evaluate_policy rules claims = first_match claims (sort_by_priority rules)
