-- ===== src/Base/Methods.antt =====
-- Methods that work on a shared state and may fail. What was written before a failure stays
-- written, so the state comes back beside the error too.
use mathlib.Core.Bool.{Bool, true, false}
use mathlib.Core.Path.{◌≡◌, refl}
use mathlib.Core.Logic.{◌⊎◌, inl, inr}
use mathlib.Core.Option.{Option, none, some}

-- One constructor for each `bail!` or `anyhow!` of the modelled code; the texts are left out.
pub data Error : Type 0 where
  -- storage/redb_backend.rs: serde_json fails on a stored value
  corrupt_record : Error
  -- storage/postgres.rs: a statement violates a constraint
  query_failed : Error
  -- tenant/manager.rs, validation
  empty_field too_long bad_first_char bad_char bad_scheme : Error
  -- tenant/manager.rs, lookups and quotas
  org_exists org_not_found formation_exists formation_not_found quota_reached : Error
  genesis_not_found bad_genesis token_not_found sink_not_found idp_not_found rule_not_found : Error
  -- tenant/manager.rs, tokens
  wrong_formation already_revoked token_revoked token_expired token_exhausted : Error
  -- crypto
  unsupported_version truncated bad_dek_length dek_too_long aead_failed provider_failed : Error
  bad_hex bad_kek_length no_key_provider feature_missing missing_vault_token : Error
  -- api/: the status of a refused request
  bad_request unauthorized forbidden not_found too_many_requests internal : Error
  -- api/enroll.rs: the identity provider
  idp_failed token_inactive : Error
  -- cdc/webhook_sink.rs
  delivery_failed : Error
  -- config.rs
  missing_part : Error
  -- cli.rs
  verification_failed : Error

pub data Result {ℓ} (A : Type ℓ) : Type ℓ where
  ok : A → Result A
  err : Error → Result A

pub Result-cases {ℓ} :
    {A : Type ℓ} (q : Result A) → ((e : Error) × (q ≡ err e)) ⊎ ((a : A) × (q ≡ ok a))
Result-cases (ok a) = inr (a, refl)
Result-cases (err e) = inl (e, refl)

-- `Option::ok_or_else`
abbrev pub ok_or {ℓ} : {A : Type ℓ} → Option A → Error → Result A
ok_or none e = err e
ok_or (some a) e = ok a

abbrev pub and_then {ℓ κ} : {A : Type ℓ} {B : Type κ} → Result A → (A → Result B) → Result B
and_then (ok a) f = f a
and_then (err e) f = err e

-- `.await?.ok_or_else(|| …)`
abbrev pub required {ℓ} : {A : Type ℓ} → Result (Option A) → Error → Result A
required (ok none) e = err e
required (ok (some a)) e = ok a
required (err x) e = err x

pub required-ok {ℓ} :
    {A : Type ℓ} (q : Result (Option A)) (e : Error) {a : A} → required q e ≡ ok a → q ≡ ok (some a)
required-ok (ok none) e h = cc
required-ok (ok (some a)) e h = cc
required-ok (err x) e h = cc

-- `if !b { bail!(e) }`
abbrev pub require : Bool → Error → Result (Unit {0})
require true e = ok tt
require false e = err e

abbrev pub Exec : Type 0 → Type 0 → Type 0
Exec S A = S → Result A × S

module _ {S A : Type 0} where
  abbrev pub pure : A → Exec S A
  pure a s = (ok a, s)

  abbrev pub fail : Error → Exec S A
  fail e s = (err e, s)

  abbrev pub lift : Result A → Exec S A
  lift r s = (r, s)

  -- a read of the state, which may fail
  abbrev pub reads : (S → Result A) → Exec S A
  reads f s = (f s, s)

-- A call of the store that goes through, or one that fails, which leaves the store as it was.
abbrev pub attempted : {S A : Type 0} → Bool → Exec S A → Exec S A
attempted true m s = m s
attempted false m s = (err query_failed, s)

abbrev pub writes : {S : Type 0} → (S → S) → Exec S (Unit {0})
writes f s = (ok tt, f s)

-- `.map_err(|_| e)`
abbrev pub replace_err : {A : Type 0} → Error → Result A → Result A
replace_err e (ok a) = ok a
replace_err e (err x) = err e

module _ {S A : Type 0} where
  abbrev pub map_err : Error → Exec S A → Exec S A
  map_err e m s = let (q, s') = m s in (replace_err e q, s')

  -- `if let Err(e) = … { warn!(…) }`: the outcome is only logged.
  abbrev pub logged : Exec S A → Exec S (Unit {0})
  logged m s = let (q, s') = m s in (ok tt, s')

module _ {S A B : Type 0} where
  abbrev pub continue : Result A → (A → Exec S B) → Exec S B
  continue (ok a) f s = f a s
  continue (err e) f s = (err e, s)

  infixl 10 ◌>>=◌ ◌>>◌
  abbrev pub ◌>>=◌ : Exec S A → (A → Exec S B) → Exec S B
  ◌>>=◌ m f s = let (r, s') = m s in continue r f s'

  abbrev pub ◌>>◌ : Exec S A → Exec S B → Exec S B
  m >> n = m >>= λ _. n
