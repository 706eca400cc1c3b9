-- ===== src/Examples/Races.antt =====
-- Token calls that interleave: a revocation that is lost, and a token that is used too often.
use peat_gateway.Base.{refl, codes, [], ◌∷◌, ok, ◌≡◌, ◌==◌, List}
use peat_gateway.Base.Entries.{Entries, lookup, put}
use peat_gateway.Storage.Keys.{token_key}
use peat_gateway.Storage.Table.{decode_opt}
use peat_gateway.Storage.Backend
use peat_gateway.Tenant.Models.{EnrollmentToken}
use peat_gateway.Tenant.Tokens.{
  count_use, mark_revoked, validate_and_consume_token, revoke_token, get_token,
}
use peat_gateway.Tenant.Tokens.History.{revokes, step}
use peat_gateway.Tenant.Tokens.Races.{
  Running, Step, Reach, here, next, consume_reads, writes_back, calls, Reach-TokensValid,
}
use peat_gateway.Tenant.Tokens.Valid.{TokensValid}
use peat_gateway.Examples.Stores.{entries_redb, entries_json}
use peat_gateway.Examples.World.{plain_hex}
use peat_gateway.Examples.Databases.{token, token_db}
use peat_gateway.Examples.Histories.{token_db-Valid}

-- The token has two uses left. Three calls find it usable before one of them has written.
accepted :
    (validate_and_consume_token 5 (codes "acme") (codes "app") (codes "peat_1") token_db).0
    ≡ ok (count_use token)
unfolding validate_and_consume_token Backend.get_token Backend.update_token Backend.create_token
    Backend.create_formation Backend.create_org Backend.create entries_redb entries_json lookup put
    decode_opt token_key ◌==◌ count_use
accepted = refl

abbrev used : EnrollmentToken
used = count_use token

abbrev reading : List EnrollmentToken → Running Entries
reading pending = record { db = token_db; pending = pending }

abbrev read_one : Step (reading []) (reading (used ∷ []))
read_one = consume_reads 5 (codes "acme") (codes "app") (codes "peat_1") used (reading []) accepted

thrice : Reach (reading []) (reading (used ∷ used ∷ used ∷ []))
thrice =
    next
      (next (next here read_one) (
        consume_reads 5 (codes "acme") (codes "app") (codes "peat_1") used (reading (used ∷ []))
          accepted))
      (consume_reads 5 (codes "acme") (codes "app") (codes "peat_1") used
        (reading (used ∷ used ∷ [])) accepted)

-- The token is revoked, and then a call that read it before writes it back.
abbrev revoked : Running Entries
revoked = record {
  db = step token_db (revokes (codes "acme") (codes "peat_1"));
  pending = used ∷ [];
}

abbrev overwritten : Running Entries
overwritten = record { db = Backend.update_token revoked.db used; pending = [] }

overwritten-Reach : Reach (reading []) overwritten
overwritten-Reach =
    next
      (next (next here read_one)
        (calls (revokes (codes "acme") (codes "peat_1")) (reading (used ∷ []))))
      (writes_back [] [] used revoked.db)

revocation_lost : (get_token (codes "acme") (codes "peat_1") overwritten.db).0 ≡ ok used
unfolding get_token step revoke_token mark_revoked Backend.get_token Backend.update_token
    Backend.create_token Backend.create_formation Backend.create_org Backend.create entries_redb
    entries_json lookup put decode_opt token_key ◌==◌ count_use
revocation_lost = refl

Reach-TokensValid_example : TokensValid overwritten.db
Reach-TokensValid_example = Reach-TokensValid token_db overwritten token_db-Valid overwritten-Reach
