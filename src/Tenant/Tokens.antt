-- ===== src/Tenant/Tokens.antt =====
-- tenant/manager.rs: enrollment tokens.
pub mod Cases
pub mod History
pub mod Valid
pub mod Limits
pub mod Races
use peat_gateway.Base.{
  required, ℕ, ◌+◌, ◌%◌, ◌^◌, Text, codes, ◌==◌, Bool, true, false, not, Option, none, some, List,
  ◌++◌, Exec, Result, ok, err, pure, fail, lift, reads, writes, ◌>>=◌, ◌>>◌, ok_or, token_not_found,
  wrong_formation, already_revoked, token_revoked, token_expired, token_exhausted, ltb, leb,
  if◌then◌else◌,
}
use peat_gateway.Storage.Redb.{Redb, Json}
use peat_gateway.Storage.Backend
use peat_gateway.Storage.Backend.{Db}
use peat_gateway.Crypto.Interfaces.{Hex, Rng, random_bytes}
use peat_gateway.Tenant.Models.{EnrollmentToken}
use peat_gateway.Tenant.Manager.{get_org, get_formation, deletes}
use peat_gateway.Tenant.Validate.{validate_non_empty}

-- `if let Some(expires_at) = token.expires_at { if now > expires_at { … } }`
abbrev pub expired : Option ℕ → ℕ → Bool
expired none now = false
expired (some expires_at) now = ltb expires_at now

-- `if let Some(max_uses) = token.max_uses { if token.uses >= max_uses { … } }`
abbrev pub exhausted : Option ℕ → ℕ → Bool
exhausted none uses = false
exhausted (some max_uses) uses = leb max_uses uses

-- `token.uses += 1` on a `u32`, as a build without overflow checks makes it
unfoldable pub count_use : EnrollmentToken → EnrollmentToken
count_use token = record token { uses = (token.uses + 1) % 2 ^ 32 }

-- `token.revoked = true`
unfoldable pub mark_revoked : EnrollmentToken → EnrollmentToken
mark_revoked token = record token { revoked = true }

module _ {T : Type 0} ⦃r : Redb T⦄ ⦃j : Json⦄ where
  unfoldable pub create_token :
      ⦃hex : Hex⦄ → Rng → ℕ → Text → Text → Text → Option ℕ → Option ℕ → Exec (Db T) EnrollmentToken
  create_token ⦃hex⦄ rng now org_id app_id label max_uses expires_at = do
    lift (validate_non_empty label)
    get_org org_id
    get_formation org_id app_id
    let token : EnrollmentToken = record {
      token_id = codes "peat_" ++ hex.encode (random_bytes 16 rng);
      org_id = org_id;
      app_id = app_id;
      label = label;
      max_uses = max_uses;
      uses = 0;
      expires_at = expires_at;
      created_at = now;
      revoked = false;
    }
    writes (λ db. Backend.create_token db token)
    pure token

  unfoldable pub get_token : Text → Text → Exec (Db T) EnrollmentToken
  get_token org_id token_id =
      reads (λ db. required (Backend.get_token db org_id token_id) token_not_found)

  unfoldable pub list_tokens : Text → Text → Exec (Db T) (List EnrollmentToken)
  list_tokens org_id app_id = do
    get_org org_id
    get_formation org_id app_id
    reads (λ db. Backend.list_tokens db org_id app_id)

  unfoldable pub revoke_token : Text → Text → Exec (Db T) EnrollmentToken
  unfolding get_token
  revoke_token org_id token_id = do
    token ← get_token org_id token_id
    if token.revoked then fail already_revoked else do
      let revoked = mark_revoked token
      writes (λ db. Backend.update_token db revoked)
      pure revoked

  unfoldable pub delete_token : Text → Text → Exec (Db T) (Unit {0})
  delete_token org_id token_id = do
    removed ← deletes (λ db. Backend.delete_token db org_id token_id)
    if not removed then fail token_not_found else pure tt

  unfoldable pub validate_and_consume_token : ℕ → Text → Text → Text → Exec (Db T) EnrollmentToken
  unfolding get_token
  validate_and_consume_token now org_id app_id token_id = do
    token ← get_token org_id token_id
    if not (token.app_id == app_id)
        then fail wrong_formation
        else if token.revoked
        then fail token_revoked
        else if expired token.expires_at now
        then fail token_expired
        else if exhausted token.max_uses token.uses
        then fail token_exhausted
        else do let used = count_use token; writes (λ db. Backend.update_token db used); pure used
