-- ===== src/Tenant/Tokens/Valid.antt =====
-- tenant/manager.rs: what holds of the stored tokens after any history of token calls.
use peat_gateway.Base.{
  is_some, inr, ==_sound, subst, inl, ◌^◌, Bool-cases, ◌%◌, ℕ, ◌+◌, ◌≤◌, Text, ◌==◌, false, Option,
  none, some, ok, ◌≡◌, arith, if◌then◌else◌,
}
use peat_gateway.Storage.Redb.{Redb, Json}
use peat_gateway.Storage.Keys.{token_key}
use peat_gateway.Storage.Table.Fetch.{fetch-insert, fetch-remove}
use peat_gateway.Storage.Backend
use peat_gateway.Storage.Backend.{get_org, Db}
use peat_gateway.Crypto.Interfaces.{Hex}
use peat_gateway.Tenant.Models.{EnrollmentToken}
use peat_gateway.Tenant.Tokens.{delete_token, count_use, mark_revoked, exhausted}
use peat_gateway.Tenant.Tokens.Cases.{
  create_token_cases, stored, IsUsable, consume_cases, revoke_cases,
}
use peat_gateway.Tenant.Tokens.History.{Call, creates, revokes, deletes, consumes, step}

-- The use counter is within the limit, if there is one.
abbrev pub IsWithin : Option ℕ → ℕ → Type 0
IsWithin none uses = Unit {0}
IsWithin (some m) uses = uses ≤ m

room_within : (m : Option ℕ) (u : ℕ) → exhausted m u ≡ false → IsWithin m ((u + 1) % 2 ^ 32)
room_within none u h = tt
room_within (some m) u h = ground arith

unused_within : {u : ℕ} (m : Option ℕ) → u ≡ 0 → IsWithin m u
unused_within none h = tt
unused_within (some m) h = omega arith

pub count_use_within :
    (a : Text) (now : ℕ) (t : EnrollmentToken)
    → IsUsable a now t
    → IsWithin (count_use t).max_uses (count_use t).uses
unfolding count_use
count_use_within a now t u = room_within t.max_uses t.uses u.not_exhausted

-- A stored token lies under its own key and is within its limit.
pub record IsStoredRight (k : Text) (t : EnrollmentToken) : Type 0 where
  pub keyed : token_key t.org_id t.token_id ≡ k
  pub within : IsWithin t.max_uses t.uses

module _ {T : Type 0} ⦃r : Redb T⦄ ⦃j : Json⦄ where
  abbrev pub TokensValid : Db T → Type 0
  TokensValid db = (k : Text) (t : EnrollmentToken) → stored db k ≡ ok (some t) → IsStoredRight k t

  pub stored-update :
      (db : Db T) (t : EnrollmentToken) (k : Text)
      → stored (Backend.update_token db t) k
        ≡ (if token_key t.org_id t.token_id == k then ok (some t) else stored db k)
  unfolding Backend.update_token
  stored-update db t k = fetch-insert j.token db.tokens (token_key t.org_id t.token_id) k t

  pub stored-delete :
      (db : Db T) (o id k : Text)
      → stored (delete_token o id db).1 k ≡ (if token_key o id == k then ok none else stored db k)
  unfolding delete_token Backend.delete_token
  stored-delete db o id k = elim (Bool-cases (is_some (r.remove db.tokens (token_key o id)).0)) [
    | inl there ↦ rw there (fetch-remove j.token db.tokens (token_key o id) k)
    | inr missing ↦ rw missing (fetch-remove j.token db.tokens (token_key o id) k)
  ]

  pub update-TokensValid :
      (db : Db T) (t : EnrollmentToken)
      → TokensValid db
      → IsWithin t.max_uses t.uses
      → TokensValid (Backend.update_token db t)
  update-TokensValid db t v w k t' h = elim (Bool-cases (token_key t.org_id t.token_id == k)) [
    | inl same ↦
        subst (IsStoredRight k) {x = t} {y = t'} (ground (arith, stored-update db t k))
          (record { keyed = ==_sound _ k same; within = w })
    | inr other ↦ v k t' (ground (arith, stored-update db t k))
  ]

module _ {T : Type 0} ⦃r : Redb T⦄ ⦃j : Json⦄ ⦃hex : Hex⦄ where
  -- Every token call keeps each stored token under its own key and its use counter within its
  -- limit, failing calls included.
  pub step-TokensValid : (db : Db T) (c : Call) → TokensValid db → TokensValid (step db c)
  unfolding step
  step-TokensValid db (creates rng now o a label max_uses expires_at) v =
      create_token_cases (λ q. TokensValid q.1) rng now o a label max_uses expires_at db (λ e. v)
        λ t n.
          unfold Backend.update_token in
          (update-TokensValid db t v (unused_within t.max_uses n.no_uses))
  step-TokensValid db (revokes o id) v =
      revoke_cases (λ q. TokensValid q.1) o id db (λ e. v)
        λ t h live.
          update-TokensValid db (mark_revoked t) v (unfold mark_revoked in (v _ t h).within)
  step-TokensValid db (deletes o id) v = λ k t h. v k t (ground (arith, stored-delete db o id k))
  step-TokensValid db (consumes now o a id) v =
      consume_cases (λ q. TokensValid q.1) now o a id db (λ e. v)
        λ t h u. update-TokensValid db (count_use t) v (count_use_within a now t u)
