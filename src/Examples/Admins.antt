-- ===== src/Examples/Admins.antt =====
-- Runs of the theorems on the administrator's token.
use peat_gateway.Base.{
  Text, codes, none, some, ◌++◌, ok, err, ◌≡◌, ◌↔◌, ◌⊎◌, refl, forbidden, strip_prefix,
}
use peat_gateway.Api.Enroll.{Authorization}
use peat_gateway.Api.Auth.{constant_time_eq, fold_differences, bearer_of, require_admin_token}
use peat_gateway.Api.Auth.Tokens.{require_admin_token_iff}

abbrev header : Authorization
header = some (some (codes "Bearer secret"))

require_admin_token_iff_example : (require_admin_token (some (codes "secret")) header ≡ ok tt) ↔ (
    (some (codes "secret") ≡ none)
    ⊎ ((t : Text) × (some (codes "secret") ≡ some t)
        × (header ≡ some (some (codes "Bearer " ++ t)))))
require_admin_token_iff_example = require_admin_token_iff (some (codes "secret")) header

wrong_token : require_admin_token (some (codes "secres")) header ≡ err forbidden
unfolding require_admin_token bearer_of strip_prefix constant_time_eq fold_differences
wrong_token = refl
