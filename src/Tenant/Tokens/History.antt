-- ===== src/Tenant/Tokens/History.antt =====
-- tenant/manager.rs: histories of token calls, as the handlers make them in some order.
use peat_gateway.Base.{
  ◌≡◌, ℕ, ◌+◌, Text, codes, ◌++◌, ◌==◌, ◌&&◌, Bool, true, false, Option, List, [], ◌∷◌, Result, ok,
  err, if◌then◌else◌,
}
use peat_gateway.Storage.Redb.{Redb, Json}
use peat_gateway.Storage.Keys.{token_key}
use peat_gateway.Storage.Backend.{Db}
use peat_gateway.Crypto.Interfaces.{Hex, Rng, random_bytes}
use peat_gateway.Tenant.Tokens.{
  create_token, revoke_token, delete_token, validate_and_consume_token,
}

pub data Call : Type 0 where
  -- rng, now, org, app, label, max_uses, expires_at
  creates : Rng → ℕ → Text → Text → Text → Option ℕ → Option ℕ → Call
  -- org, token
  revokes : Text → Text → Call
  deletes : Text → Text → Call
  -- now, org, app, token
  consumes : ℕ → Text → Text → Text → Call

abbrev pub is_ok : {A : Type 0} → Result A → Bool
is_ok (ok a) = true
is_ok (err e) = false

module _ {T : Type 0} ⦃r : Redb T⦄ ⦃j : Json⦄ ⦃hex : Hex⦄ where
  unfoldable pub step : Db T → Call → Db T
  step db (creates rng now o a label max_uses expires_at) =
      (create_token rng now o a label max_uses expires_at db).1
  step db (revokes o id) = (revoke_token o id db).1
  step db (deletes o id) = (delete_token o id db).1
  step db (consumes now o a id) = (validate_and_consume_token now o a id db).1

  -- 1 if the call consumes the token under the key `k` and succeeds, else 0
  unfoldable pub hit : Text → Db T → Call → ℕ
  hit k db (consumes now o a id) =
      if token_key o id == k && is_ok (validate_and_consume_token now o a id db).0 then 1 else 0
  hit k db c = 0

  -- how often the token under `k` is consumed in a history
  unfoldable pub consumed : Text → Db T → List Call → ℕ
  consumed k db [] = 0
  consumed k db (c ∷ cs) = hit k db c + consumed k (step db c) cs

  unfoldable pub run : Db T → List Call → Db T
  run db [] = db
  run db (c ∷ cs) = run (step db c) cs

-- No call of the history creates a token under the key `k`: the random identifiers do not collide.
abbrev pub IsFresh : ⦃hex : Hex⦄ → Text → Call → Type 0
IsFresh ⦃hex⦄ k (creates rng now o a label max_uses expires_at) =
    (token_key o (codes "peat_" ++ hex.encode (random_bytes 16 rng)) == k) ≡ false
IsFresh k c = Unit {0}

abbrev pub AllFresh : ⦃hex : Hex⦄ → Text → List Call → Type 0
AllFresh k [] = Unit {0}
AllFresh k (c ∷ cs) = IsFresh k c × AllFresh k cs
