-- ===== src/Tenant/Tokens/Cases.antt =====
-- tenant/manager.rs: the outcomes of the token methods.
use peat_gateway.Base.{
  formation_not_found, org_not_found, required, ◌++◌, codes, token_exhausted, token_expired,
  token_revoked, already_revoked, wrong_formation, token_not_found, ℕ, Text, ◌==◌, true, false,
  Option, none, some, Error, Result, ok, err, ◌≡◌, refl, Result-cases, inl, inr, Bool-cases,
}
use peat_gateway.Storage.Redb.{Redb, Json}
use peat_gateway.Storage.Keys.{token_key}
use peat_gateway.Storage.Table.Fetch.{fetch}
use peat_gateway.Storage.Backend
use peat_gateway.Storage.Backend.{Db}
use peat_gateway.Crypto.Interfaces.{random_bytes, Rng, Hex}
use peat_gateway.Tenant.Models.{EnrollmentToken}
use peat_gateway.Tenant.Manager.{get_org, get_formation}
use peat_gateway.Tenant.Tokens.{
  validate_non_empty, create_token, expired, exhausted, count_use, mark_revoked, revoke_token,
  validate_and_consume_token,
}

-- The token passes the checks of `validate_and_consume_token`.
pub record IsUsable (app_id : Text) (now : ℕ) (t : EnrollmentToken) : Type 0 where
  pub same_app : (t.app_id == app_id) ≡ true
  pub not_revoked : t.revoked ≡ false
  pub not_expired : expired t.expires_at now ≡ false
  pub not_exhausted : exhausted t.max_uses t.uses ≡ false

-- A created token has no uses and the limit asked for.
pub record IsNew (k : Text) (max_uses : Option ℕ) (t : EnrollmentToken) : Type 0 where
  pub no_uses : t.uses ≡ 0
  pub limit : t.max_uses ≡ max_uses
  pub key : token_key t.org_id t.token_id ≡ k

module _ {T : Type 0} ⦃r : Redb T⦄ ⦃j : Json⦄ where
  -- the stored token under a key
  abbrev pub stored : Db T → Text → Result (Option EnrollmentToken)
  stored db k = fetch j.token db.tokens k

  pub consume_cases :
      (P : Result EnrollmentToken × Db T → Type 0) (now : ℕ) (o a id : Text) (db : Db T)
      → ((e : Error) → P (err e, db))
      → ((t : EnrollmentToken)
          → stored db (token_key o id) ≡ ok (some t)
          → IsUsable a now t
          → P (ok (count_use t), Backend.update_token db (count_use t)))
      → P (validate_and_consume_token now o a id db)
  unfolding validate_and_consume_token Backend.get_token
  consume_cases P now o a id db bad good = elim (Result-cases (stored db (token_key o id))) [
    | inl (e, q) ↦ rw q (bad e)
    | inr (none, q) ↦ rw q (bad token_not_found)
    | inr (some t, q) ↦ rw q (elim (Bool-cases (t.app_id == a)) [
      | inr other ↦ simp other (bad wrong_formation)
      | inl same ↦ simp same (elim (Bool-cases t.revoked) [
        | inl gone ↦ simp gone (bad token_revoked)
        | inr live ↦ simp live (elim (Bool-cases (expired t.expires_at now)) [
          | inl late ↦ simp late (bad token_expired)
          | inr timely ↦ simp timely (elim (Bool-cases (exhausted t.max_uses t.uses)) [
            | inl full ↦ simp full (bad token_exhausted)
            | inr room ↦ simp room (
                good t q (record {
                  same_app = same;
                  not_revoked = live;
                  not_expired = timely;
                  not_exhausted = room;
                }))
          ])
        ])
      ])
    ])
  ]

  pub revoke_cases :
      (P : Result EnrollmentToken × Db T → Type 0) (o id : Text) (db : Db T)
      → ((e : Error) → P (err e, db))
      → ((t : EnrollmentToken)
          → stored db (token_key o id) ≡ ok (some t)
          → t.revoked ≡ false
          → P (ok (mark_revoked t), Backend.update_token db (mark_revoked t)))
      → P (revoke_token o id db)
  unfolding revoke_token Backend.get_token
  revoke_cases P o id db bad good = elim (Result-cases (stored db (token_key o id))) [
    | inl (e, q) ↦ rw q (bad e)
    | inr (none, q) ↦ rw q (bad token_not_found)
    | inr (some t, q) ↦ rw q (elim (Bool-cases t.revoked) [
      | inl gone ↦ simp gone (bad already_revoked)
      | inr live ↦ simp live (good t q live)
    ])
  ]

  pub create_token_cases :
      ⦃hex : Hex⦄ (P : Result EnrollmentToken × Db T → Type 0) (rng : Rng) (now : ℕ)
      (o a label : Text) (m e : Option ℕ) (db : Db T)
      → ((x : Error) → P (err x, db))
      → ((t : EnrollmentToken)
          → IsNew (token_key o (codes "peat_" ++ hex.encode (random_bytes 16 rng))) m t
          → P (ok t, Backend.create_token db t))
      → P (create_token rng now o a label m e db)
  unfolding create_token get_org get_formation
  create_token_cases P rng now o a label m e db bad good =
      elim (Result-cases (validate_non_empty label)) [
        | inl (x, q) ↦ rw q (bad x)
        | inr (u, q) ↦ rw q (elim (Result-cases (required (Backend.get_org db o) org_not_found)) [
          | inl (x, q) ↦ rw q (bad x)
          | inr (org, q) ↦
              rw q
                (elim (Result-cases (required (Backend.get_formation db o a) formation_not_found)) [
                  | inl (x, q) ↦ rw q (bad x)
                  | inr (f, q) ↦ rw q (good _ (record { no_uses = refl; limit = refl; key = refl }))
                ])
        ])
      ]
