-- ===== src/Tenant/Tokens/Races.antt =====
-- tenant/manager.rs: token calls that run at the same time. `validate_and_consume_token` and
-- `revoke_token` read the token in one transaction and write it back in another, and other
-- transactions may come in between.
use peat_gateway.Base.{subst, Text, ℕ, List, [], ◌∷◌, ◌++◌, ok, ◌≡◌}
use peat_gateway.Storage.Redb.{Redb, Json}
use peat_gateway.Storage.Backend
use peat_gateway.Storage.Backend.{Db}
use peat_gateway.Crypto.Interfaces.{Hex}
use peat_gateway.Tenant.Models.{EnrollmentToken}
use peat_gateway.Tenant.Tokens.{validate_and_consume_token, revoke_token, count_use, mark_revoked}
use peat_gateway.Tenant.Tokens.Cases.{consume_cases, revoke_cases}
use peat_gateway.Tenant.Tokens.History.{Call, step}
use peat_gateway.Tenant.Tokens.Valid.{
  IsWithin, TokensValid, update-TokensValid, step-TokensValid, count_use_within,
}

-- The database, and the tokens that calls have read and changed but not written back yet.
pub record Running (T : Type 0) : Type 0 where
  pub db : Db T
  pub pending : List EnrollmentToken

AllWithin : List EnrollmentToken → Type 0
AllWithin [] = Unit {0}
AllWithin (t ∷ ts) = IsWithin t.max_uses t.uses × AllWithin ts

AllWithin-remove :
    (before after : List EnrollmentToken) (t : EnrollmentToken)
    → AllWithin (before ++ (t ∷ after))
    → IsWithin t.max_uses t.uses × AllWithin (before ++ after)
unfolding AllWithin
AllWithin-remove [] after t h = h
AllWithin-remove (b ∷ before) after t h =
    let (w, rest) = AllWithin-remove before after t h.1 in (w, (h.0, rest))

module _ {T : Type 0} ⦃r : Redb T⦄ ⦃j : Json⦄ ⦃hex : Hex⦄ where
  pub data Step : Running T → Running T → Type 0 where
    -- a consumption that succeeds, up to its write
    consume_reads :
        (now : ℕ) (o a id : Text) (t : EnrollmentToken) (w : Running T)
        → (validate_and_consume_token now o a id w.db).0 ≡ ok t
        → Step w (record w { pending = t ∷ w.pending })
    -- a revocation that succeeds, up to its write
    revoke_reads :
        (o id : Text) (t : EnrollmentToken) (w : Running T)
        → (revoke_token o id w.db).0 ≡ ok t
        → Step w (record w { pending = t ∷ w.pending })
    -- the write of any of them
    writes_back :
        (before after : List EnrollmentToken) (t : EnrollmentToken) (db : Db T)
        → Step
            (record { db = db; pending = before ++ (t ∷ after) })
            (record { db = Backend.update_token db t; pending = before ++ after })
    -- a call that nothing comes between
    calls : (c : Call) (w : Running T) → Step w (record w { db = step w.db c })

  pub data Reach (w : Running T) : Running T → Type 0 where
    here : Reach w w
    next : {v u : Running T} → Reach w v → Step v u → Reach w u

  IsRight : Running T → Type 0
  IsRight w = TokensValid w.db × AllWithin w.pending

  consumed-IsWithin :
      (now : ℕ) (o a id : Text) (t : EnrollmentToken) (db : Db T)
      → (validate_and_consume_token now o a id db).0 ≡ ok t
      → IsWithin t.max_uses t.uses
  consumed-IsWithin now o a id t db =
      consume_cases (λ q. q.0 ≡ ok t → IsWithin t.max_uses t.uses) now o a id db
        (λ e bad. absurd cc)
        λ t₀ found usable h.
          let same : count_use t₀ ≡ t = cc in
          subst (λ x. IsWithin x.max_uses x.uses) same (count_use_within a now t₀ usable)

  revoked-IsWithin :
      (o id : Text) (t : EnrollmentToken) (db : Db T)
      → TokensValid db
      → (revoke_token o id db).0 ≡ ok t
      → IsWithin t.max_uses t.uses
  revoked-IsWithin o id t db v =
      revoke_cases (λ q. q.0 ≡ ok t → IsWithin t.max_uses t.uses) o id db (λ e bad. absurd cc)
        λ t₀ found live h.
          let same : mark_revoked t₀ ≡ t = cc in
          subst (λ x. IsWithin x.max_uses x.uses) same
            (unfold mark_revoked in (v _ t₀ found).within)

  Step-IsRight : {w u : Running T} → Step w u → IsRight w → IsRight u
  unfolding IsRight AllWithin
  Step-IsRight (consume_reads now o a id t w h) (v, p) =
      (v, (consumed-IsWithin now o a id t w.db h, p))
  Step-IsRight (revoke_reads o id t w h) (v, p) = (v, (revoked-IsWithin o id t w.db v h, p))
  Step-IsRight (writes_back before after t db) (v, p) =
      let (within, rest) = AllWithin-remove before after t p in
      (update-TokensValid db t v within, rest)
  Step-IsRight (calls c w) (v, p) = (step-TokensValid w.db c v, p)

  Reach-IsRight : {w u : Running T} → IsRight w → Reach w u → IsRight u
  Reach-IsRight h here = h
  Reach-IsRight h (next reached st) = Step-IsRight st (Reach-IsRight h reached)

  -- However the reads and the writes of consumptions and revocations interleave with each other
  -- and with other token calls, each stored token stays under its own key with its use counter
  -- within its limit, given that this holds where no call is running.
  pub Reach-TokensValid :
      (db : Db T) (w : Running T)
      → TokensValid db
      → Reach (record { db = db; pending = [] }) w
      → TokensValid w.db
  unfolding IsRight AllWithin
  Reach-TokensValid db w v reached =
      (Reach-IsRight {w = record { db = db; pending = [] }} (v, tt) reached).0
