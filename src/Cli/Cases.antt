-- ===== src/Cli/Cases.antt =====
-- cli.rs: the writes that a migration makes.
use peat_gateway.Base.{
  Exec, if_cases, ℕ, Text, Bytes, ◌==◌, ==_sound, Bool, true, false, Option, none, some, List, [],
  ◌∷◌, ok, ◌≡◌, ◌∙◌, refl, ap, inl, inr, Result-cases, Bool-cases,
}
use peat_gateway.Storage.Redb.{Redb, Json}
use peat_gateway.Storage.Backend
use peat_gateway.Storage.Backend.{Db}
use peat_gateway.Crypto.Interfaces.{Aead, KeyProvider}
use peat_gateway.Crypto.Envelope.{Draws, seal, open_envelope, is_envelope}
use peat_gateway.Tenant.Models.{Organization, FormationConfig}
use peat_gateway.Cli.{
  Summary, no_records, seal_record, visit_record, visit_formation, visit_formations, visit_orgs,
  migrate_keys,
}

module _ {T : Type 0} ⦃r : Redb T⦄ ⦃aead : Aead⦄ (provider : KeyProvider) (dry_run : Bool) where
  -- Some plaintext records have been replaced by envelopes that open to them.
  pub data Sealed (db : Db T) : Db T → Type 0 where
    untouched : Sealed db db
    then_seals :
        {db' : Db T} (o a : Text) (raw sealed : Bytes)
        → Sealed db db'
        → Backend.get_genesis db' o a ≡ some raw
        → is_envelope raw ≡ false
        → open_envelope provider sealed ≡ ok (some raw)
        → dry_run ≡ false
        → Sealed db (Backend.store_genesis db' o a sealed)

  pub Sealed-trans : {db db' db'' : Db T} → Sealed db db' → Sealed db' db'' → Sealed db db''
  Sealed-trans s untouched = s
  Sealed-trans s (then_seals o a raw sealed t h e op wet) =
      then_seals o a raw sealed (Sealed-trans s t) h e op wet

  module _ (draws : ℕ → Draws) where
    seal_record-Sealed :
        (o a : Text) (raw : Bytes) (n : Summary) (db : Db T)
        → Backend.get_genesis db o a ≡ some raw
        → is_envelope raw ≡ false
        → dry_run ≡ false
        → Sealed db (seal_record provider dry_run draws o a raw n db).1
    unfolding seal_record
    seal_record-Sealed o a raw n db found plain wet =
        elim (Result-cases (seal provider (draws n.total) raw)) [
          | inl (e, q) ↦ rw q untouched
          | inr (sealed, q) ↦ rw q (elim (Result-cases (open_envelope provider sealed)) [
            | inl (e, op) ↦ rw op untouched
            | inr (none, op) ↦ rw op untouched
            | inr (some back, op) ↦ rw op (elim (Bool-cases (back == raw)) [
              | inr other ↦ simp other untouched
              | inl same ↦ simp same (
                  then_seals o a raw sealed untouched found plain
                    (op ∙ ap (λ b. ok (some b)) (==_sound back raw same)) wet)
            ])
          ])
        ]

    visit_record-Sealed :
        (o a : Text) (found : Option Bytes) (n : Summary) (db : Db T)
        → Backend.get_genesis db o a ≡ found
        → Sealed db (visit_record provider dry_run draws o a found n db).1
    unfolding visit_record
    visit_record-Sealed o a none n db h = untouched
    visit_record-Sealed o a (some raw) n db h = elim (Bool-cases (is_envelope raw)) [
      | inl envelope ↦ simp envelope untouched
      | inr plain ↦ simp plain (
          if_cases dry_run (λ (m : Exec (Db T) Summary). Sealed db (m db).1) (λ dry. untouched)
            (λ wet. seal_record-Sealed o a raw n db h plain wet))
    ]

    visit_formation-Sealed :
        (o : Text) (f : FormationConfig) (n : Summary) (db : Db T)
        → Sealed db (visit_formation provider dry_run draws o f n db).1
    unfolding visit_formation
    visit_formation-Sealed o f n db = visit_record-Sealed o f.app_id _ _ db refl

    pub visit_formations-Sealed :
        (o : Text) (fs : List FormationConfig) (n : Summary) (db : Db T)
        → Sealed db (visit_formations provider dry_run draws o fs n db).1
    unfolding visit_formations
    visit_formations-Sealed o [] n db = untouched
    visit_formations-Sealed o (f ∷ fs) n db =
        let first = visit_formation-Sealed o f n db in
        elim (Result-cases (visit_formation provider dry_run draws o f n db).0) [
          | inl (e, q) ↦ rw q first
          | inr (m, q) ↦ rw q (Sealed-trans first (visit_formations-Sealed o fs m _))
        ]

    pub visit_orgs-Sealed :
        ⦃j : Json⦄ (orgs : List Organization) (n : Summary) (db : Db T)
        → Sealed db (visit_orgs provider dry_run draws orgs n db).1
    unfolding visit_orgs
    visit_orgs-Sealed [] n db = untouched
    visit_orgs-Sealed (org ∷ orgs) n db =
        elim (Result-cases (Backend.list_formations db org.org_id)) [
          | inl (e, q) ↦ rw q untouched
          | inr (fs, q) ↦
              let first = visit_formations-Sealed org.org_id fs n db in
              rw q
                (elim (Result-cases
                  (visit_formations provider dry_run draws org.org_id fs n db).0) [
                    | inl (e, q) ↦ rw q first
                    | inr (m, q) ↦ rw q (Sealed-trans first (visit_orgs-Sealed orgs m _))
                  ])
        ]

    -- Whatever a migration comes to, it has done nothing but seal plaintext records.
    pub migrate_keys-Sealed :
        ⦃j : Json⦄ (encrypt_enabled : Bool) (db : Db T)
        → Sealed db (migrate_keys provider dry_run draws encrypt_enabled db).1
    unfolding migrate_keys
    migrate_keys-Sealed false db = untouched
    migrate_keys-Sealed true db = elim (Result-cases (Backend.list_orgs db)) [
      | inl (e, q) ↦ rw q untouched
      | inr (orgs, q) ↦ rw q (visit_orgs-Sealed orgs no_records db)
    ]
