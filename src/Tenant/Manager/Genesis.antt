-- ===== src/Tenant/Manager/Genesis.antt =====
-- tenant/manager.rs: the life of a formation and its genesis.
use peat_gateway.Base.{
  is_some, Text, Bytes, true, none, some, ok, err, ◌≡◌, sym, ap, refl, arith, Bool-cases, inl, inr,
  if◌then◌else◌, ◌∙◌, Option, Result, Result-cases, and_then, ok_or, bad_genesis, genesis_not_found,
  formation_not_found, ==_refl,
}
use peat_gateway.Base.Entries.{lookup, lookup-put, lookup-erase}
use peat_gateway.Storage.Redb.{Redb, Json}
use peat_gateway.Storage.Keys.{formation_key}
use peat_gateway.Storage.Table.{decode_opt}
use peat_gateway.Storage.Table.Fetch.{fetch-insert, fetch-remove}
use peat_gateway.Storage.Backend
use peat_gateway.Storage.Backend.{Db}
use peat_gateway.Crypto.Interfaces.{Aead, Rng, KeepsDeks}
use peat_gateway.Crypto.Envelope.{Draws, seal}
use peat_gateway.Crypto.Envelope.RoundTrip.{open_envelope-seal}
use peat_gateway.Tenant.Models.{FormationConfig, EnrollmentPolicy}
use peat_gateway.Tenant.Mesh.{Mesh, mesh_policy}
use peat_gateway.Tenant.Manager.{
  TenantManager, create_formation, load_genesis, delete_formation, get_formation, decrypt_or_legacy,
}
use peat_gateway.Tenant.Manager.Cases.{create_formation_cases, admitted, formation_of, stored_as}

module _ {T : Type 0} ⦃r : Redb T⦄ ⦃j : Json⦄ where
  pub get_genesis-admitted :
      (db : Db T) (o : Text) (f : FormationConfig) (bytes : Bytes)
      → Backend.get_genesis (admitted db o f bytes) o f.app_id ≡ some bytes
  unfolding Backend.get_genesis Backend.store_genesis Backend.create_formation
  get_genesis-admitted db o f bytes =
      let key = formation_key o f.app_id in
      ground (
        arith,
        r.get_lem (r.insert db.genesis key bytes) key,
        ap (lookup key) (r.iter-insert db.genesis key bytes),
        lookup-put key key bytes (r.iter db.genesis),
        ==_refl key,
      )

  get_formation-admitted :
      (db : Db T) (o : Text) (f : FormationConfig) (bytes : Bytes)
      → Backend.get_formation (admitted db o f bytes) o f.app_id ≡ ok (some f)
  unfolding Backend.get_formation Backend.store_genesis Backend.create_formation
  get_formation-admitted db o f bytes =
      let key = formation_key o f.app_id in
      ground (arith, fetch-insert j.formation db.formations key key f, ==_refl key)

  no_formation : (t : T) (k : Text) → decode_opt j.formation (r.get (r.remove t k).1 k) ≡ ok none
  unfolding decode_opt
  no_formation t k = ground (arith, fetch-remove j.formation t k k, ==_refl k)

  no_genesis : (t : T) (k : Text) → r.get (r.remove t k).1 k ≡ none
  no_genesis t k = ground (
    arith,
    r.get_lem (r.remove t k).1 k,
    ap (lookup k) (r.iter-remove t k),
    lookup-erase k k (r.iter t),
    ==_refl k,
  )

module _ {G : Type 0} ⦃aead : Aead⦄ (mesh : Mesh G) (mgr : TenantManager) where
  abbrev pub decoded : Result Bytes → Result G
  decoded q = and_then q λ plain. ok_or (mesh.decode plain) bad_genesis

  -- what `load_genesis` makes of the stored bytes
  abbrev pub load_of : Option Bytes → Result G
  load_of none = err genesis_not_found
  load_of (some stored) = decoded (decrypt_or_legacy mgr stored)

  decrypt_or_legacy-stored_as :
      (d : Draws) (g : G) (bytes : Bytes)
      → (mgr.encrypt_enabled ≡ true → KeepsDeks mgr.key_provider)
      → stored_as mesh mgr d g ≡ ok bytes
      → decrypt_or_legacy mgr bytes ≡ ok (mesh.encode g)
  unfolding decrypt_or_legacy
  decrypt_or_legacy-stored_as d g bytes c h = elim (Bool-cases mgr.encrypt_enabled) [
    | inl on ↦
        let sealed : seal mgr.key_provider d (mesh.encode g) ≡ ok bytes = rw on at h in
        rw (on, (open_envelope-seal mgr.key_provider (c on) d (mesh.encode g) bytes sealed).0) refl
    | inr off ↦ ground arith
  ]

module _ {T G : Type 0} ⦃r : Redb T⦄ ⦃j : Json⦄ ⦃aead : Aead⦄ (mesh : Mesh G)
    (mgr : TenantManager) where
  pub load_genesis-load_of :
      (o a : Text) (db : Db T)
      → (load_genesis mesh mgr o a db).0 ≡ load_of mesh mgr (Backend.get_genesis db o a)
  unfolding load_genesis
  load_genesis-load_of o a db = go (Backend.get_genesis db o a) refl
    where
      go :
          (found : Option Bytes)
          → Backend.get_genesis db o a ≡ found
          → (load_genesis mesh mgr o a db).0 ≡ load_of mesh mgr found
      go none h = rw h refl
      go (some stored) h = rw h (elim (Result-cases (decrypt_or_legacy mgr stored)) [
        | inl (e, q) ↦ rw q refl
        | inr (plain, q) ↦ rw q refl
      ])

  -- After a successful create_formation, where encryption is off or the key provider's
  -- unwrap_dek undoes its wrap_dek on keys of 32 bytes, get_formation returns the formation and
  -- load_genesis the genesis that was created, and the formation carries the mesh identifier of
  -- that genesis.
  pub create_formation-load_genesis :
      (rng : Rng) (d : Draws) (o a : Text) (pol : EnrollmentPolicy) (db : Db T)
      (f : FormationConfig)
      → (mgr.encrypt_enabled ≡ true → KeepsDeks mgr.key_provider)
      → (create_formation mesh mgr rng d o a pol db).0 ≡ ok f
      → let db' = (create_formation mesh mgr rng d o a pol db).1 in
        let g = mesh.create rng a (mesh_policy pol) in
        (get_formation o a db' ≡ (ok f, db'))
        × (load_genesis mesh mgr o a db' ≡ (ok g, db'))
        × (f.mesh_id ≡ mesh.mesh_id g)
  unfolding load_genesis get_formation
  create_formation-load_genesis rng d o a pol db f c =
      create_formation_cases mesh mgr
        (λ q.
          q.0 ≡ ok f
          → (get_formation o a q.1 ≡ (ok f, q.1))
            × (load_genesis mesh mgr o a q.1 ≡ (ok (mesh.create rng a (mesh_policy pol)), q.1))
            × (f.mesh_id ≡ mesh.mesh_id (mesh.create rng a (mesh_policy pol))))
        rng d o a pol db (λ e bad. absurd cc) (λ lost bad. absurd cc)
        λ org l bytes adm enc done.
          let g = mesh.create rng a (mesh_policy pol) in
          let f₀ = formation_of mesh a pol g in
          let same : f₀ ≡ f = cc in
          (
            rw (get_formation-admitted db o f₀ bytes, same) refl,
            rw
                (
                  get_genesis-admitted db o f₀ bytes,
                  decrypt_or_legacy-stored_as mesh mgr d g bytes c enc,
                  mesh.decode-encode g,
                )
                refl,
            ap (λ (x : FormationConfig). x.mesh_id) (sym same),
          )

  -- After a successful delete_formation, get_formation reports that there is nothing, and so
  -- does load_genesis if the deletion of the genesis went through; if that failed, load_genesis
  -- gives what it gave before.
  pub delete_formation-load_genesis :
      (o a : Text) (db : Db T)
      → (delete_formation mgr o a db).0 ≡ ok tt
      → let db' = (delete_formation mgr o a db).1 in
        (get_formation o a db' ≡ (err formation_not_found, db'))
        × ((load_genesis mesh mgr o a db').0 ≡ (
            if mgr.store.deletes_genesis
            then err genesis_not_found
            else (load_genesis mesh mgr o a db).0))
  unfolding load_genesis get_formation delete_formation Backend.delete_formation
      Backend.delete_genesis Backend.get_formation Backend.get_genesis
  delete_formation-load_genesis o a db =
      let key = formation_key o a in
      elim (Bool-cases mgr.store.deletes_formation) [
        | inr refused ↦ simp refused (λ h. absurd cc)
        | inl deleted ↦ simp deleted (elim (Bool-cases (is_some (r.remove db.formations key).0)) [
          | inr missing ↦ simp missing (λ h. absurd cc)
          | inl there ↦ simp there (elim (Bool-cases mgr.store.deletes_genesis) [
            | inr kept ↦ simp kept (λ h.
                let db' = (Backend.delete_formation db o a).1 in
                (
                  rw (no_formation db.formations key) refl,
                  load_genesis-load_of o a db' ∙ sym (load_genesis-load_of o a db),
                ))
            | inl gone ↦ simp gone (λ h.
                (rw (no_formation db.formations key) refl, rw (no_genesis db.genesis key) refl))
          ])
        ])
      ]
