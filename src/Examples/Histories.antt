-- ===== src/Examples/Histories.antt =====
-- Runs of the isolation and token theorems.
use peat_gateway.Base.{
  ◌≤◌, ◌≡◌, refl, Text, codes, Option, none, some, true, List, [], ◌∷◌, arith, Result, ok, ◌==◌,
}
use peat_gateway.Base.Entries.{lookup, put}
use peat_gateway.Storage.Keys.{token_key}
use peat_gateway.Storage.Backend
use peat_gateway.Storage.Backend.{Db}
use peat_gateway.Storage.Table.{decode_opt}
use peat_gateway.Storage.Isolation.{
  Write, create_formation, delete_org, set_cursor, view, empty, view-delete_org,
}
use peat_gateway.Storage.Isolation
use peat_gateway.Storage.Isolation.Reads.{answers, answers-run_ne}
use peat_gateway.Tenant.Models.{EnrollmentToken}
use peat_gateway.Tenant.Tokens.{mark_revoked, count_use, revoke_token, validate_and_consume_token}
use peat_gateway.Tenant.Tokens.History.{Call, consumes, revokes, step, hit, consumed, is_ok}
use peat_gateway.Tenant.Tokens.Valid.{TokensValid, update-TokensValid, step-TokensValid}
use peat_gateway.Tenant.Tokens.Cases.{stored}
use peat_gateway.Tenant.Tokens.Limits.{AtMost, limited, consumed-AtMost, consumed_revoked}
use peat_gateway.Examples.Stores.{entries_redb, entries_json}
use peat_gateway.Examples.World.{plain_hex}
use peat_gateway.Examples.Databases.{
  acme-NulFree, beta-NulFree, beta-other, app_formation, token, app_db, token_db,
}

abbrev acme : Text
acme = codes "acme"

abbrev beta : Text
beta = codes "beta"

abbrev beta_writes : List Write
beta_writes =
    create_formation beta app_formation
    ∷ set_cursor beta (codes "app") (codes "doc") (codes "1f")
    ∷ delete_org beta
    ∷ []

answers-run_ne_example : answers (Isolation.run token_db beta_writes) acme ≡ answers token_db acme
answers-run_ne_example =
    answers-run_ne token_db acme beta_writes acme-NulFree
      (((beta-NulFree, beta-other), ((beta-NulFree, beta-other), ((beta-NulFree, beta-other), tt))))

view-delete_org_example :
    (view (Backend.delete_org token_db acme).1 acme ≡ empty)
    × ((Backend.delete_org token_db acme).0 ≡ true)
unfolding Backend.update_token Backend.create_token Backend.create_formation Backend.create_org
    Backend.create entries_redb put lookup ◌==◌
view-delete_org_example = view-delete_org token_db acme

no_tokens : TokensValid app_db
unfolding Backend.create_formation Backend.create_org Backend.create entries_redb lookup decode_opt
no_tokens k t h =
    let impossible : ◌≡◌ {A = Result (Option EnrollmentToken)} (ok none) (ok (some t)) = h in
    absurd (ground arith)

pub token_db-Valid : TokensValid token_db
token_db-Valid = update-TokensValid app_db token no_tokens (omega arith)

two_left : AtMost (stored token_db (token_key acme (codes "peat_1"))) 2
unfolding Backend.update_token Backend.create_token Backend.create_formation Backend.create_org
    Backend.create entries_redb entries_json lookup put decode_opt token_key ◌==◌
two_left = limited token 2 refl refl (omega arith) (omega arith)

-- Three attempts to use a token that allows two uses, with a revocation of another one.
abbrev attempts : List Call
attempts =
    consumes 5 acme (codes "app") (codes "peat_1")
    ∷ consumes 6 acme (codes "app") (codes "peat_1")
    ∷ revokes acme (codes "peat_2")
    ∷ consumes 7 acme (codes "app") (codes "peat_1")
    ∷ []

consumed-AtMost_example : consumed (token_key acme (codes "peat_1")) token_db attempts ≤ 2
consumed-AtMost_example =
    consumed-AtMost (token_key acme (codes "peat_1")) token_db attempts 2 token_db-Valid
      (tt, (tt, (tt, (tt, tt)))) two_left

-- The bound is reached.
attempts_hit_twice : consumed (token_key acme (codes "peat_1")) token_db attempts ≡ 2
unfolding Backend.update_token Backend.create_token Backend.create_formation Backend.create_org
    Backend.create entries_redb entries_json lookup put decode_opt token_key consumed hit step
    validate_and_consume_token revoke_token ◌==◌ count_use mark_revoked Backend.get_token
attempts_hit_twice = refl

revoked_ok : is_ok (revoke_token acme (codes "peat_1") token_db).0 ≡ true
unfolding Backend.update_token Backend.create_token Backend.create_formation Backend.create_org
    Backend.create entries_redb entries_json lookup put decode_opt token_key revoke_token
    Backend.get_token ◌==◌
revoked_ok = refl

consumed_revoked_example :
    consumed
      (token_key acme (codes "peat_1"))
      (revoke_token acme (codes "peat_1") token_db).1
      attempts
    ≡ 0
consumed_revoked_example =
    consumed_revoked acme (codes "peat_1") token_db attempts token_db-Valid revoked_ok
      (tt, (tt, (tt, (tt, tt))))

step-TokensValid_example :
    TokensValid (step token_db (consumes 5 acme (codes "app") (codes "peat_1")))
step-TokensValid_example =
    step-TokensValid token_db (consumes 5 acme (codes "app") (codes "peat_1")) token_db-Valid
