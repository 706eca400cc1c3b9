-- ===== src/Cli.antt =====
-- cli.rs: `migrate_keys`, which seals the genesis records that were written in plaintext.
pub mod Cases
pub mod Preserves
pub mod Reaches
use peat_gateway.Base.{
  ℕ, ◌+◌, Text, Bytes, ◌==◌, Bool, not, Option, none, some, List, [], ◌∷◌, Result, ok, err, ok_or,
  Exec, pure, fail, lift, reads, writes, ◌>>=◌, ◌>>◌, verification_failed, no_key_provider,
  if◌then◌else◌,
}
use peat_gateway.Storage.Redb.{Redb, Json}
use peat_gateway.Storage.Backend
use peat_gateway.Storage.Backend.{Db}
use peat_gateway.Crypto.Interfaces.{Aead, KeyProvider}
use peat_gateway.Crypto.Envelope.{Draws, seal, open_envelope, is_envelope}
use peat_gateway.Tenant.Models.{Organization, FormationConfig}

-- The counters of the loop.
pub record Summary : Type 0 where
  pub total : ℕ
  pub migrated : ℕ
  pub already_encrypted : ℕ
  pub missing_genesis : ℕ

abbrev pub no_records : Summary
no_records = record { total = 0; migrated = 0; already_encrypted = 0; missing_genesis = 0 }

-- What a run is given: the provider, the flag, and what the seals draw, by the value of `total`.
module _ {T : Type 0} ⦃r : Redb T⦄ ⦃aead : Aead⦄ (provider : KeyProvider) (dry_run : Bool)
    (draws : ℕ → Draws) where
  -- Seal a plaintext record and store it, after the check that it opens to what it was.
  unfoldable pub seal_record : Text → Text → Bytes → Summary → Exec (Db T) Summary
  seal_record org_id app_id raw n = do
    sealed ← lift (seal provider (draws n.total) raw)
    opened ← lift (open_envelope provider sealed)
    decrypted ← lift (ok_or opened verification_failed)
    if not (decrypted == raw) then fail verification_failed else do
      writes (λ db. Backend.store_genesis db org_id app_id sealed)
      pure (record n { migrated = n.migrated + 1 })

  -- one turn of the inner loop, after `get_genesis`
  unfoldable pub visit_record : Text → Text → Option Bytes → Summary → Exec (Db T) Summary
  unfolding seal_record
  visit_record org_id app_id none n = pure (record n { missing_genesis = n.missing_genesis + 1 })
  visit_record org_id app_id (some raw) n =
      if is_envelope raw
      then pure (record n { already_encrypted = n.already_encrypted + 1 })
      else if dry_run
      then pure (record n { migrated = n.migrated + 1 })
      else seal_record org_id app_id raw n

  unfoldable pub visit_formation : Text → FormationConfig → Summary → Exec (Db T) Summary
  unfolding visit_record
  visit_formation org_id formation n = do
    raw ← reads (λ db. ok (Backend.get_genesis db org_id formation.app_id))
    visit_record org_id formation.app_id raw (record n { total = n.total + 1 })

  unfoldable pub visit_formations : Text → List FormationConfig → Summary → Exec (Db T) Summary
  unfolding visit_formation
  visit_formations org_id [] n = pure n
  visit_formations org_id (f ∷ fs) n = do
    n' ← visit_formation org_id f n
    visit_formations org_id fs n'

  unfoldable pub visit_orgs : ⦃j : Json⦄ → List Organization → Summary → Exec (Db T) Summary
  unfolding visit_formations
  visit_orgs [] n = pure n
  visit_orgs (org ∷ orgs) n = do
    formations ← reads (λ db. Backend.list_formations db org.org_id)
    n' ← visit_formations org.org_id formations n
    visit_orgs orgs n'

  unfoldable pub migrate_keys : ⦃j : Json⦄ → Bool → Exec (Db T) Summary
  unfolding visit_orgs
  migrate_keys encrypt_enabled =
      if not encrypt_enabled
      then fail no_key_provider
      else do orgs ← reads Backend.list_orgs; visit_orgs orgs no_records
