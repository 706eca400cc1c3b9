-- ===== src/Tenant/Manager/Quota.antt =====
-- tenant/manager.rs: `create_formation` and the organisation's quota.
use peat_gateway.Base.{
  subst, false, Text, Bytes, Option, none, some, Error, List, ok, err, ◌≡◌, ◌∙◌, sym, refl, arith,
  length, leb, ◌<◌, ◌≤◌, ◌^◌, Option-cases, inl, inr, ◌⊎◌,
}
use peat_gateway.Base.Entries.{lookup}
use peat_gateway.Storage.Redb.{Redb, Json, Codec}
use peat_gateway.Storage.Keys.{formation_key, formation_prefix}
use peat_gateway.Storage.Keys.Prefixes.{starts_with-prefix}
use peat_gateway.Storage.Table.{decode_opt}
use peat_gateway.Storage.Table.Listing.{Inserted, length-Inserted, decode_all-put}
use peat_gateway.Storage.Backend
use peat_gateway.Storage.Backend.{Db}
use peat_gateway.Crypto.Interfaces.{Aead, Rng}
use peat_gateway.Crypto.Envelope.{Draws}
use peat_gateway.Tenant.Models.{Organization, FormationConfig, EnrollmentPolicy}
use peat_gateway.Tenant.Mesh.{Mesh, mesh_policy}
use peat_gateway.Tenant.Manager.{TenantManager, create_formation, as_u32}
use peat_gateway.Tenant.Manager.Cases.{formation_of, create_formation_cases, admitted}

decode_opt-none :
    {A : Type 0} (c : Codec A) (v : Option Bytes) → decode_opt c v ≡ ok none → v ≡ none
unfolding decode_opt
decode_opt-none c none h = refl
decode_opt-none c (some v) h = elim (Option-cases (c.from_slice v)) [
  | inl bad ↦ absurd (ground arith)
  | inr (a, good) ↦ absurd (ground arith)
]

module _ {T : Type 0} ⦃r : Redb T⦄ ⦃j : Json⦄ where
  list_formations-admitted :
      (db : Db T) (o : Text) (f : FormationConfig) (bytes : Bytes) (l : List FormationConfig)
      → Backend.list_formations db o ≡ ok l
      → Backend.get_formation db o f.app_id ≡ ok none
      → (l' : List FormationConfig) × (Backend.list_formations (admitted db o f bytes) o ≡ ok l')
        × Inserted f l l'
  unfolding Backend.list_formations Backend.get_formation Backend.create_formation
      Backend.store_genesis formation_key formation_prefix
  list_formations-admitted db o f bytes l listed unused =
      let key = formation_key o f.app_id in
      let free : lookup key (r.iter db.formations) ≡ none =
        sym (r.get_lem db.formations key) ∙ decode_opt-none j.formation _ unused in
      let (l', e, ins) =
        decode_all-put j.formation (formation_prefix o) key f (r.iter db.formations)
          (starts_with-prefix o f.app_id) free listed in
      (l', rw (r.iter-insert db.formations key (j.formation.to_vec f)) e, ins)

module _ {T G : Type 0} ⦃r : Redb T⦄ ⦃j : Json⦄ ⦃aead : Aead⦄ (mesh : Mesh G)
    (mgr : TenantManager) where
  -- A successful create_formation adds exactly the returned formation to the organisation's
  -- listing, which then holds no more formations than the quota of the organisation allows,
  -- given that the old listing has fewer than 2^32.
  pub create_formation-list_formations :
      (g : Rng) (d : Draws) (o a : Text) (pol : EnrollmentPolicy) (db : Db T) (org : Organization)
      (l : List FormationConfig) (f : FormationConfig)
      → Backend.get_org db o ≡ ok (some org)
      → Backend.list_formations db o ≡ ok l
      → length l < 2 ^ 32
      → (create_formation mesh mgr g d o a pol db).0 ≡ ok f
      → (l' : List FormationConfig) × (Backend.list_formations
            (create_formation mesh mgr g d o a pol db).1
            o
          ≡ ok l')
        × Inserted f l l'
        × (length l' ≤ org.quotas.max_formations)
  create_formation-list_formations g d o a pol db org l f found listed small =
      create_formation_cases mesh mgr
        (λ q.
          q.0 ≡ ok f
          → (l' : List FormationConfig) × (Backend.list_formations q.1 o ≡ ok l')
            × Inserted f l l'
            × (length l' ≤ org.quotas.max_formations))
        g d o a pol db (λ e bad. absurd cc) (λ lost bad. absurd cc)
        λ org₀ l₀ bytes adm enc done.
          let f₀ = formation_of mesh a pol (mesh.create g a (mesh_policy pol)) in
          let same : f₀ ≡ f = cc in
          let (l', e, ins) = list_formations-admitted db o f₀ bytes l listed adm.unused in
          let same_org : org₀ ≡ org = cc in
          let same_list : l₀ ≡ l = cc in
          let room : leb org.quotas.max_formations (as_u32 (length l)) ≡ false =
            rw (same_org, same_list) at adm.room in
          (l', e, subst (λ x. Inserted x l l') same ins, ground (arith, length-Inserted ins))

  -- A failing create_formation leaves the database as it was, unless it is the write of the
  -- genesis that fails: then the record of the formation may have been added, and nothing else.
  pub create_formation-err :
      (g : Rng) (d : Draws) (o a : Text) (pol : EnrollmentPolicy) (db : Db T) (e : Error)
      → (create_formation mesh mgr g d o a pol db).0 ≡ err e
      → ((create_formation mesh mgr g d o a pol db).1 ≡ db)
        ⊎ ((mgr.store.stores_genesis ≡ false)
            × ((create_formation mesh mgr g d o a pol db).1
                ≡ Backend.create_formation db o
                    (formation_of mesh a pol (mesh.create g a (mesh_policy pol)))))
  create_formation-err g d o a pol db e =
      let f = formation_of mesh a pol (mesh.create g a (mesh_policy pol)) in
      create_formation_cases mesh mgr
        (λ q.
          q.0 ≡ err e
          → (q.1 ≡ db)
            ⊎ ((mgr.store.stores_genesis ≡ false) × (q.1 ≡ Backend.create_formation db o f)))
        g d o a pol db (λ x h. inl refl) (λ lost h. inr (lost, refl))
        λ org₀ l₀ bytes adm enc h. absurd cc
