-- ===== src/Tenant/Tokens/Limits.antt =====
-- tenant/manager.rs: how often a token can be consumed in any history of token calls.
use peat_gateway.Base.{
  ==_refl, refl, sym, subst, ap, ◌&&◌, ◌∙◌, ℕ, ◌+◌, ◌-◌, ◌≤◌, ◌<◌, ◌^◌, Text, ◌==◌, ==_sound, true,
  Option, none, some, List, [], ◌∷◌, Result, ok, ◌≡◌, arith, if◌then◌else◌, Bool-cases, inl, inr,
}
use peat_gateway.Storage.Redb.{Redb, Json}
use peat_gateway.Storage.Keys.{token_key}
use peat_gateway.Storage.Backend
use peat_gateway.Storage.Backend.{Db}
use peat_gateway.Crypto.Interfaces.{Rng, Hex}
use peat_gateway.Tenant.Models.{EnrollmentToken}
use peat_gateway.Tenant.Tokens.{
  create_token, revoke_token, delete_token, revoke_token, count_use, mark_revoked,
  validate_and_consume_token,
}
use peat_gateway.Tenant.Tokens.Cases.{
  stored, IsUsable, consume_cases, revoke_cases, create_token_cases,
}
use peat_gateway.Tenant.Tokens.History.{
  is_ok, Call, creates, revokes, deletes, consumes, step, hit, consumed, IsFresh, AllFresh,
}
use peat_gateway.Tenant.Tokens.Valid.{TokensValid, stored-update, stored-delete, step-TokensValid}

-- What is stored under a key allows at most `n` more uses: nothing is there, or the token is
-- revoked, or its limit is near enough.
pub data AtMost (s : Result (Option EnrollmentToken)) (n : ℕ) : Type 0 where
  gone : s ≡ ok none → AtMost s n
  dead : (t : EnrollmentToken) → s ≡ ok (some t) → t.revoked ≡ true → AtMost s n
  limited :
      (t : EnrollmentToken) (m : ℕ)
      → s ≡ ok (some t)
      → t.max_uses ≡ some m
      → m < 2 ^ 32
      → m ≤ t.uses + n
      → AtMost s n

AtMost-count_use :
    (a : Text) (now : ℕ) (t : EnrollmentToken) (n : ℕ)
    → IsUsable a now t
    → AtMost (ok (some t)) n
    → (n' : ℕ) × (1 + n' ≤ n) × AtMost (ok (some (count_use t))) n'
unfolding count_use
AtMost-count_use a now t n u (gone e) = cc
AtMost-count_use a now t n u (dead t' e h) = cc
AtMost-count_use a now t n u (limited t' m e em small room) =
    let same : t ≡ t' = cc in
    let limit : t.max_uses ≡ some m = ap (λ (x : EnrollmentToken). x.max_uses) same ∙ em in
    let uses : t.uses ≡ t'.uses = ap (λ (x : EnrollmentToken). x.uses) same in
    let below : t.uses < m = ground arith in
    (n - 1, omega arith, limited (count_use t) m refl limit small (omega arith))

AtMost-mark_revoked : (t : EnrollmentToken) (n : ℕ) → AtMost (ok (some (mark_revoked t))) n
unfolding mark_revoked
AtMost-mark_revoked t n = dead (mark_revoked t) refl refl

module _ {T : Type 0} ⦃r : Redb T⦄ ⦃j : Json⦄ where
  -- Writing a token under the key `i` sets what is stored there, and nothing else.
  stored-update_at :
      (db : Db T) (t : EnrollmentToken) (i k : Text)
      → token_key t.org_id t.token_id ≡ i
      → stored (Backend.update_token db t) k ≡ (if i == k then ok (some t) else stored db k)
  stored-update_at db t i k e =
      stored-update db t k ∙ ap (λ x. if x == k then ok (some t) else stored db k) e

-- What one call leaves of an allowance of `n` uses.
abbrev Left : ℕ → ℕ → Result (Option EnrollmentToken) → Type 0
Left n hits s = (n' : ℕ) × (hits + n' ≤ n) × AtMost s n'

module _ {T : Type 0} ⦃r : Redb T⦄ ⦃j : Json⦄ (k : Text) (db : Db T) (n : ℕ) where
  Left-consume :
      (now : ℕ) (o a id : Text)
      → TokensValid db
      → AtMost (stored db k) n
      → Left n
          (if token_key o id == k && is_ok (validate_and_consume_token now o a id db).0
            then 1
            else 0)
          (stored (validate_and_consume_token now o a id db).1 k)
  Left-consume now o a id v h =
      consume_cases (λ q. Left n (if token_key o id == k && is_ok q.0 then 1 else 0) (stored q.1 k))
        now o a id db (λ e. (n, ground arith, h))
        λ t found u.
          let at =
            stored-update_at db (count_use t) (token_key o id) k
              (unfold count_use in (v _ t found).keyed) in
          elim (Bool-cases (token_key o id == k)) [
            | inl same ↦
                let here = subst (λ x. AtMost (stored db x) n) (sym (==_sound _ k same)) h in
                let (n', le, rest) =
                  AtMost-count_use a now t n u (subst (λ s. AtMost s n) found here) in
                (n', rw same le, subst (λ s. AtMost s n') (sym (rw same at at)) rest)
            | inr other ↦
                (n, rw other (omega arith), subst (λ s. AtMost s n) (sym (rw other at at)) h)
          ]

  Left-revoke :
      (o id : Text)
      → TokensValid db
      → AtMost (stored db k) n
      → Left n 0 (stored (revoke_token o id db).1 k)
  Left-revoke o id v h =
      revoke_cases (λ q. Left n 0 (stored q.1 k)) o id db (λ e. (n, omega arith, h))
        λ t found live.
          let at =
            stored-update_at db (mark_revoked t) (token_key o id) k
              (unfold mark_revoked in (v _ t found).keyed) in
          elim (Bool-cases (token_key o id == k)) [
            | inl same ↦ (
              n,
              omega arith,
              subst (λ s. AtMost s n) (sym (rw same at at)) (AtMost-mark_revoked t n),
            )
            | inr other ↦ (n, omega arith, subst (λ s. AtMost s n) (sym (rw other at at)) h)
          ]

  Left-delete :
      (o id : Text) → AtMost (stored db k) n → Left n 0 (stored (delete_token o id db).1 k)
  Left-delete o id h =
      let at = stored-delete db o id k in
      elim (Bool-cases (token_key o id == k)) [
        | inl same ↦ (n, omega arith, gone (rw same at at))
        | inr other ↦ (n, omega arith, subst (λ s. AtMost s n) (sym (rw other at at)) h)
      ]

module _ {T : Type 0} ⦃r : Redb T⦄ ⦃j : Json⦄ ⦃hex : Hex⦄ where
  Left-create :
      (k : Text) (db : Db T) (n : ℕ) (rng : Rng) (now : ℕ) (o a label : Text) (m e : Option ℕ)
      → IsFresh k (creates rng now o a label m e)
      → AtMost (stored db k) n
      → Left n 0 (stored (create_token rng now o a label m e db).1 k)
  Left-create k db n rng now o a label m e other h =
      create_token_cases (λ q. Left n 0 (stored q.1 k)) rng now o a label m e db
        (λ x. (n, omega arith, h))
        λ t new. (
          n,
          omega arith,
          unfold Backend.update_token in
              (subst (λ s. AtMost s n) (sym (rw other at (stored-update_at db t _ k new.key))) h),
        )

  -- A call uses up at most its part of what is left of a token's allowance.
  pub Left-step :
      (k : Text) (db : Db T) (c : Call) (n : ℕ)
      → TokensValid db
      → IsFresh k c
      → AtMost (stored db k) n
      → Left n (hit k db c) (stored (step db c) k)
  unfolding step hit
  Left-step k db (creates rng now o a label m e) n v f h =
      Left-create k db n rng now o a label m e f h
  Left-step k db (revokes o id) n v f h = Left-revoke k db n o id v h
  Left-step k db (deletes o id) n v f h = Left-delete k db n o id h
  Left-step k db (consumes now o a id) n v f h = Left-consume k db n now o a id v h

  -- From a store whose tokens lie under their own keys within their limits, a token of which at
  -- most n uses are left is consumed at most n times in any history of token calls in any order,
  -- as long as no token created in the history gets its identifier.
  pub consumed-AtMost :
      (k : Text) (db : Db T) (cs : List Call) (n : ℕ)
      → TokensValid db
      → AllFresh k cs
      → AtMost (stored db k) n
      → consumed k db cs ≤ n
  unfolding consumed
  consumed-AtMost k db [] n v f h = omega arith
  consumed-AtMost k db (c ∷ cs) n v (f, fs) h =
      let (n', le, left) = Left-step k db c n v f h in
      let rest = consumed-AtMost k (step db c) cs n' (step-TokensValid db c v) fs left in
      omega arith

  -- From a store whose tokens lie under their own keys within their limits, once a revocation
  -- has succeeded, no later call of any history consumes that token, as long as no token created
  -- in the history gets its identifier.
  pub consumed_revoked :
      (o id : Text) (db : Db T) (cs : List Call)
      → TokensValid db
      → is_ok (revoke_token o id db).0 ≡ true
      → AllFresh (token_key o id) cs
      → consumed (token_key o id) (revoke_token o id db).1 cs ≡ 0
  unfolding step
  consumed_revoked o id db cs v h f =
      let left =
        revoke_cases (λ q. is_ok q.0 ≡ true → AtMost (stored q.1 (token_key o id)) 0) o id db
          (λ e bad. cc)
          (λ t found live good.
            let at =
              stored-update_at db (mark_revoked t) (token_key o id) (token_key o id)
                (unfold mark_revoked in (v _ t found).keyed) in
            subst (λ s. AtMost s 0) (sym (rw (==_refl (token_key o id)) at at))
              (AtMost-mark_revoked t 0))
          h in
      let db' = (revoke_token o id db).1 in
      let valid : TokensValid db' = step-TokensValid db (revokes o id) v in
      let most : consumed (token_key o id) db' cs ≤ 0 =
        consumed-AtMost (token_key o id) db' cs 0 valid f left in
      omega arith
