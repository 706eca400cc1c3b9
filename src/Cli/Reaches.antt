-- ===== src/Cli/Reaches.antt =====
-- cli.rs: what a migration that succeeds has reached.
use peat_gateway.Base.{
  Text, Bytes, ◌==◌, ==_refl, Bool, true, false, Option, none, some, List, [], ◌∷◌, Result, ok, err,
  ◌≡◌, ◌∙◌, refl, inl, inr, Bool-cases, Result-cases, arith, ℕ, ◌+◌,
}
use peat_gateway.Storage.Redb.{Redb, Json}
use peat_gateway.Storage.Keys.{formation_key}
use peat_gateway.Storage.Backend
use peat_gateway.Storage.Backend.{Db}
use peat_gateway.Crypto.Interfaces.{Aead, KeyProvider}
use peat_gateway.Crypto.Envelope.{Draws, seal, open_envelope, is_envelope}
use peat_gateway.Crypto.Envelope.Malformed.{open_envelope-none_iff}
use peat_gateway.Tenant.Models.{Organization, FormationConfig}
use peat_gateway.Cli.{
  Summary, no_records, seal_record, visit_record, visit_formation, visit_formations, visit_orgs,
  migrate_keys,
}
use peat_gateway.Cli.Cases.{
  Sealed, untouched, then_seals, visit_formations-Sealed, visit_orgs-Sealed,
}
use peat_gateway.Cli.Preserves.{get_genesis-store}

-- No genesis, or one in an envelope.
abbrev pub InEnvelope : Option Bytes → Type 0
InEnvelope none = Unit {0}
InEnvelope (some stored) = is_envelope stored ≡ true

module _ ⦃aead : Aead⦄ where
  opened-InEnvelope :
      (p : KeyProvider) (sealed raw : Bytes)
      → open_envelope p sealed ≡ ok (some raw)
      → is_envelope sealed ≡ true
  opened-InEnvelope p sealed raw h = elim (Bool-cases (is_envelope sealed)) [
    | inl good ↦ good
    | inr bad ↦
        let none_there : open_envelope p sealed ≡ ok none =
          (open_envelope-none_iff p sealed).1 bad in
        absurd (ground arith)
  ]

module _ {T : Type 0} ⦃r : Redb T⦄ where
  -- Every formation of the list has its genesis, if any, in an envelope.
  abbrev pub AllInEnvelopes : Db T → Text → List FormationConfig → Type 0
  AllInEnvelopes db o [] = Unit {0}
  AllInEnvelopes db o (f ∷ fs) =
      InEnvelope (Backend.get_genesis db o f.app_id) × AllInEnvelopes db o fs

  module _ ⦃j : Json⦄ where
    -- The same of every formation that the organisations of the list have.
    abbrev pub OrgsInEnvelopes : Db T → List Organization → Type 0
    OrgsInEnvelopes db [] = Unit {0}
    OrgsInEnvelopes db (org ∷ orgs) =
        ((fs : List FormationConfig) × (Backend.list_formations db org.org_id ≡ ok fs)
          × AllInEnvelopes db org.org_id fs)
        × OrgsInEnvelopes db orgs

module _ {S : Type 0} where
  -- The property holds of the state that a successful step leaves.
  abbrev Reached : (S → Type 0) → Result Summary × S → Type 0
  Reached P (err e, s) = Unit {0}
  Reached P (ok n, s) = P s

  Reached-ok :
      (P : S → Type 0) (q : Result Summary × S) (n : Summary) → q.0 ≡ ok n → Reached P q → P q.1
  Reached-ok P (err e, s) n h t = absurd (ground arith)
  Reached-ok P (ok m, s) n h t = t

  Reached-and :
      (P Q : S → Type 0) (q : Result Summary × S) → P q.1 → Reached Q q → Reached (λ s. P s × Q s) q
  Reached-and P Q (err e, s) h t = tt
  Reached-and P Q (ok n, s) h t = (h, t)

module _ {T : Type 0} ⦃r : Redb T⦄ ⦃aead : Aead⦄ (p : KeyProvider) where
  Sealed-InEnvelope :
      {db db' : Db T} (o a : Text)
      → Sealed p false db db'
      → InEnvelope (Backend.get_genesis db o a)
      → InEnvelope (Backend.get_genesis db' o a)
  Sealed-InEnvelope o a untouched h = h
  Sealed-InEnvelope o a (then_seals {db' = db₁} o' a' raw sealed s found plain opens wet) h =
      elim (Bool-cases (formation_key o' a' == formation_key o a)) [
        | inl same ↦
            rw (get_genesis-store db₁ o' a' o a sealed, same) (opened-InEnvelope p sealed raw opens)
        | inr other ↦ rw (get_genesis-store db₁ o' a' o a sealed, other) (Sealed-InEnvelope o a s h)
      ]

  Sealed-AllInEnvelopes :
      {db db' : Db T} (o : Text) (fs : List FormationConfig)
      → Sealed p false db db'
      → AllInEnvelopes db o fs
      → AllInEnvelopes db' o fs
  Sealed-AllInEnvelopes o [] s h = tt
  Sealed-AllInEnvelopes o (f ∷ fs) s (h, hs) =
      (Sealed-InEnvelope o f.app_id s h, Sealed-AllInEnvelopes o fs s hs)

  Sealed-list_formations :
      ⦃j : Json⦄ {db db' : Db T} (o : Text)
      → Sealed p false db db'
      → Backend.list_formations db' o ≡ Backend.list_formations db o
  unfolding Backend.list_formations Backend.store_genesis
  Sealed-list_formations o untouched = refl
  Sealed-list_formations o (then_seals o' a' raw sealed s found plain opens wet) =
      Sealed-list_formations o s

  module _ (draws : ℕ → Draws) where
    seal_record-Reached :
        (o a : Text) (raw : Bytes) (n : Summary) (db : Db T)
        → Reached
            (λ s. InEnvelope (Backend.get_genesis s o a))
            (seal_record p false draws o a raw n db)
    unfolding seal_record
    seal_record-Reached o a raw n db = elim (Result-cases (seal p (draws n.total) raw)) [
      | inl (e, q) ↦ rw q tt
      | inr (sealed, q) ↦ rw q (elim (Result-cases (open_envelope p sealed)) [
        | inl (e, op) ↦ rw op tt
        | inr (none, op) ↦ rw op tt
        | inr (some back, op) ↦ rw op (elim (Bool-cases (back == raw)) [
          | inr other ↦ simp other tt
          | inl same ↦ simp same (
              rw (get_genesis-store db o a o a sealed, ==_refl (formation_key o a))
                (opened-InEnvelope p sealed back op))
        ])
      ])
    ]

    visit_record-Reached :
        (o a : Text) (found : Option Bytes) (n : Summary) (db : Db T)
        → Backend.get_genesis db o a ≡ found
        → Reached
            (λ s. InEnvelope (Backend.get_genesis s o a))
            (visit_record p false draws o a found n db)
    unfolding visit_record
    visit_record-Reached o a none n db h = rw h tt
    visit_record-Reached o a (some raw) n db h = elim (Bool-cases (is_envelope raw)) [
      | inl envelope ↦ simp envelope (rw h envelope)
      | inr plain ↦ simp plain (seal_record-Reached o a raw n db)
    ]

    visit_formations-Reached :
        (o : Text) (fs : List FormationConfig) (n : Summary) (db : Db T)
        → Reached (λ s. AllInEnvelopes s o fs) (visit_formations p false draws o fs n db)
    unfolding visit_formations visit_formation
    visit_formations-Reached o [] n db = tt
    visit_formations-Reached o (f ∷ fs) n db =
        let first = visit_record-Reached o f.app_id _ (record n { total = n.total + 1 }) db refl in
        elim (Result-cases (visit_formation p false draws o f n db).0) [
          | inl (e, q) ↦ rw q tt
          | inr (m, q) ↦
              let db₁ = (visit_formation p false draws o f n db).1 in
              let here =
                Reached-ok (λ s. InEnvelope (Backend.get_genesis s o f.app_id))
                  (visit_formation p false draws o f n db) m q first in
              rw q (
                Reached-and (λ s. InEnvelope (Backend.get_genesis s o f.app_id))
                  (λ s. AllInEnvelopes s o fs) (visit_formations p false draws o fs m db₁)
                  (Sealed-InEnvelope o f.app_id (visit_formations-Sealed p false draws o fs m db₁)
                    here)
                  (visit_formations-Reached o fs m db₁))
        ]

    module _ ⦃j : Json⦄ where
      visit_orgs-Reached :
          (orgs : List Organization) (n : Summary) (db : Db T)
          → Reached (λ s. OrgsInEnvelopes s orgs) (visit_orgs p false draws orgs n db)
      unfolding visit_orgs
      visit_orgs-Reached [] n db = tt
      visit_orgs-Reached (org ∷ orgs) n db =
          elim (Result-cases (Backend.list_formations db org.org_id)) [
            | inl (e, q) ↦ rw q tt
            | inr (fs, listed) ↦
                let o = org.org_id in
                let step = visit_formations p false draws o fs n db in
                rw listed (elim (Result-cases step.0) [
                  | inl (e, q) ↦ rw q tt
                  | inr (m, q) ↦
                      let all_here =
                        Reached-ok (λ s. AllInEnvelopes s o fs) step m q
                          (visit_formations-Reached o fs n db) in
                      let rest = visit_orgs-Sealed p false draws orgs m step.1 in
                      let still_listed =
                        Sealed-list_formations o rest
                        ∙ Sealed-list_formations o (visit_formations-Sealed p false draws o fs n db)
                        ∙ listed in
                      rw q (
                        Reached-and
                          (λ s.
                            (l : List FormationConfig) × (Backend.list_formations s o ≡ ok l)
                            × AllInEnvelopes s o l)
                          (λ s. OrgsInEnvelopes s orgs) (visit_orgs p false draws orgs m step.1)
                          (fs, still_listed, Sealed-AllInEnvelopes o fs rest all_here)
                          (visit_orgs-Reached orgs m step.1))
                ])
          ]

      -- After a migration of keys that succeeds and is no dry run, every formation that an
      -- organisation of the store lists has its genesis, if there is one, in an envelope.
      pub migrate_keys-OrgsInEnvelopes :
          (encrypt_enabled : Bool) (db : Db T) (orgs : List Organization) (n : Summary)
          → Backend.list_orgs db ≡ ok orgs
          → (migrate_keys p false draws encrypt_enabled db).0 ≡ ok n
          → OrgsInEnvelopes (migrate_keys p false draws encrypt_enabled db).1 orgs
      unfolding migrate_keys
      migrate_keys-OrgsInEnvelopes false db orgs n listed h = absurd (ground arith)
      migrate_keys-OrgsInEnvelopes true db orgs n listed h =
          let all_orgs = visit_orgs p false draws orgs no_records db in
          let success : all_orgs.0 ≡ ok n = rw listed at h in
          rw listed (
            Reached-ok (λ s. OrgsInEnvelopes s orgs) all_orgs n success
              (visit_orgs-Reached orgs no_records db))
