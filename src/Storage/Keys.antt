-- ===== src/Storage/Keys.antt =====
-- storage/redb_backend.rs, the composite keys. Rust's `format!("{}\0{}", a, b)` is the bytes of
-- `a`, a zero byte, and the bytes of `b`.
pub mod Prefixes
use peat_gateway.Base.{ℕ, zero, suc, ◌+◌, ◌/◌, ◌%◌, Text, List, [], ◌∷◌, ◌++◌}

unfoldable pub formation_key : Text → Text → Text
formation_key org_id app_id = org_id ++ (0 ∷ app_id)

unfoldable pub formation_prefix : Text → Text
formation_prefix org_id = org_id ++ (0 ∷ [])

unfoldable pub token_key : Text → Text → Text
token_key org_id token_id = org_id ++ (0 ∷ token_id)

unfoldable pub token_prefix : Text → Text
token_prefix org_id = org_id ++ (0 ∷ [])

unfoldable pub sink_key : Text → Text → Text
sink_key org_id sink_id = org_id ++ (0 ∷ sink_id)

unfoldable pub sink_prefix : Text → Text
sink_prefix org_id = org_id ++ (0 ∷ [])

unfoldable pub cursor_key : Text → Text → Text → Text
cursor_key org_id app_id document_id = org_id ++ (0 ∷ (app_id ++ (0 ∷ document_id)))

unfoldable pub idp_key : Text → Text → Text
idp_key org_id idp_id = org_id ++ (0 ∷ idp_id)

unfoldable pub policy_rule_key : Text → Text → Text
policy_rule_key org_id rule_id = org_id ++ (0 ∷ rule_id)

-- `{:020}`: the decimal digits of a `u64`, which has at most twenty, with leading zeros.
unfoldable pub padded : ℕ → ℕ → Text
padded zero n = []
padded (suc width) n = padded width (n / 10) ++ ((b'0' + n % 10) ∷ [])

unfoldable pub audit_key : Text → ℕ → Text → Text
unfolding padded
audit_key org_id timestamp_ms audit_id = org_id ++ (0 ∷ (padded 20 timestamp_ms ++ (0 ∷ audit_id)))
