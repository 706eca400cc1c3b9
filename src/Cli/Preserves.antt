-- ===== src/Cli/Preserves.antt =====
-- cli.rs: what a migration keeps.
use peat_gateway.Base.{
  Text, Bytes, ◌==◌, ==_sound, Bool, true, false, some, ok, ◌≡◌, ◌∙◌, refl, sym, ap, inl, inr,
  Bool-cases, if◌then◌else◌, arith, ℕ,
}
use peat_gateway.Base.Entries.{lookup, lookup-put}
use peat_gateway.Storage.Redb.{Redb, Json}
use peat_gateway.Storage.Keys.{formation_key}
use peat_gateway.Storage.Backend
use peat_gateway.Storage.Backend.{Db}
use peat_gateway.Crypto.Interfaces.{Aead}
use peat_gateway.Crypto.Envelope.{Draws, open_envelope, is_envelope}
use peat_gateway.Crypto.Envelope.Malformed.{open_envelope-none_iff}
use peat_gateway.Tenant.Mesh.{Mesh}
use peat_gateway.Tenant.Manager.{TenantManager, load_genesis, decrypt_or_legacy}
use peat_gateway.Tenant.Manager.Genesis.{decoded, load_of, load_genesis-load_of}
use peat_gateway.Cli.{migrate_keys}
use peat_gateway.Cli.Cases.{Sealed, untouched, then_seals, migrate_keys-Sealed}

module _ {T : Type 0} ⦃r : Redb T⦄ where
  -- Storing a genesis sets what is stored for its formation, and nothing else.
  pub get_genesis-store :
      (db : Db T) (o a o' a' : Text) (bytes : Bytes)
      → Backend.get_genesis (Backend.store_genesis db o a bytes) o' a' ≡ (
          if formation_key o a == formation_key o' a'
          then some bytes
          else Backend.get_genesis db o' a')
  unfolding Backend.get_genesis Backend.store_genesis
  get_genesis-store db o a o' a' bytes =
      let k = formation_key o a in
      let k' = formation_key o' a' in
      ground (
        arith,
        r.get_lem (r.insert db.genesis k bytes) k',
        r.get_lem db.genesis k',
        ap (lookup k') (r.iter-insert db.genesis k bytes),
        lookup-put k k' bytes (r.iter db.genesis),
      )

  get_genesis-key :
      (db : Db T) (o a o' a' : Text)
      → (formation_key o a == formation_key o' a') ≡ true
      → Backend.get_genesis db o a ≡ Backend.get_genesis db o' a'
  unfolding Backend.get_genesis
  get_genesis-key db o a o' a' same = ap (r.get db.genesis) (==_sound _ _ same)

module _ {G : Type 0} ⦃aead : Aead⦄ (mesh : Mesh G) (mgr : TenantManager) where
  decrypt_or_legacy-sealed :
      (raw sealed : Bytes)
      → mgr.encrypt_enabled ≡ true
      → is_envelope raw ≡ false
      → open_envelope mgr.key_provider sealed ≡ ok (some raw)
      → decrypt_or_legacy mgr sealed ≡ decrypt_or_legacy mgr raw
  unfolding decrypt_or_legacy
  decrypt_or_legacy-sealed raw sealed on plain opens =
      let legacy = (open_envelope-none_iff mgr.key_provider raw).1 plain in
      rw (on, opens, legacy) refl

module _ {T G : Type 0} ⦃r : Redb T⦄ ⦃j : Json⦄ ⦃aead : Aead⦄ (mesh : Mesh G)
    (mgr : TenantManager) where
  load_of-Sealed :
      (dry_run : Bool) {db db' : Db T} (o a : Text)
      → mgr.encrypt_enabled ≡ true
      → Sealed mgr.key_provider dry_run db db'
      → load_of mesh mgr (Backend.get_genesis db' o a)
        ≡ load_of mesh mgr (Backend.get_genesis db o a)
  load_of-Sealed dry_run o a on untouched = refl
  load_of-Sealed dry_run o a on (then_seals {db' = db₁} o' a' raw sealed s found plain opens wet) =
      let before = load_of-Sealed dry_run o a on s in
      elim (Bool-cases (formation_key o' a' == formation_key o a)) [
        | inl same ↦
            rw (get_genesis-store db₁ o' a' o a sealed, same)
              (ap (decoded mesh mgr) (decrypt_or_legacy-sealed mesh mgr raw sealed on plain opens)
                ∙ ap (load_of mesh mgr) (sym found ∙ get_genesis-key db₁ o' a' o a same)
                ∙ before)
        | inr other ↦ rw (get_genesis-store db₁ o' a' o a sealed, other) before
      ]

  -- Whatever a migration of keys comes to, with success or an error, dry or not, every genesis
  -- loads afterwards as it did before, in a manager that has encryption enabled with the same
  -- key provider, which need not keep any contract.
  pub migrate_keys-load_genesis :
      (dry_run encrypt_enabled : Bool) (draws : ℕ → Draws) (o a : Text) (db : Db T)
      → mgr.encrypt_enabled ≡ true
      → (load_genesis mesh mgr o a
          (migrate_keys mgr.key_provider dry_run draws encrypt_enabled db).1).0
        ≡ (load_genesis mesh mgr o a db).0
  migrate_keys-load_genesis dry_run encrypt_enabled draws o a db on =
      let db' = (migrate_keys mgr.key_provider dry_run draws encrypt_enabled db).1 in
      load_genesis-load_of mesh mgr o a db'
      ∙ load_of-Sealed dry_run o a on
          (migrate_keys-Sealed mgr.key_provider dry_run draws encrypt_enabled db)
      ∙ sym (load_genesis-load_of mesh mgr o a db)
