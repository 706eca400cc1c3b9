-- ===== src/Ingest/Polls/Quiet.antt =====
-- mesh_ingest.rs: a poll that finds what the one before found.
use peat_gateway.Base.{
  ℕ, Text, ◌==◌, ==_iff, ==_refl, nat_eq_iff, Bool, true, false, not, any, filter, Option, none,
  some, List, [], ◌∷◌, ok, ◌≡◌, ◌⊎◌, refl, ap, sym, ◌∙◌, arith, Bool-cases, Option-cases, inl, inr,
}
use peat_gateway.Storage.Redb.{Redb, Json}
use peat_gateway.Storage.Backend.{Db}
use peat_gateway.Api.Claims.{Value}
use peat_gateway.Config.{MeshBrokerMapping}
use peat_gateway.Cdc.Documents.{DefaultHasher, Serde}
use peat_gateway.Cdc.Engine.{CdcEngine}
use peat_gateway.Ingest.{Snapshot, Documents, fetch, document_id}
use peat_gateway.Ingest.Keys.{AllGet, AllGet-self, fetch-HasUniqueKeys}
use peat_gateway.Ingest.Diffs.{
  doc_content_hash, old_hash, later_hash, hash_if, change_of, changes_in, cdc_diffs, difference,
  distinct, ids_of, sync_events, emit_diffs,
}
use peat_gateway.Ingest.Polls.{Poll, refresh_once, replace, publish_with, publish_all}

abbrev pub In : {A : Type 0} → A → List A → Type 0
In x [] = ⊥
In x (y ∷ ys) = (x ≡ y) ⊎ In x ys

filter-none :
    {A : Type 0} (p : A → Bool) (xs : List A) → ((x : A) → In x xs → p x ≡ false) → filter p xs ≡ []
filter-none p [] h = refl
filter-none p (x ∷ xs) h = rw (h x (inl refl)) (filter-none p xs (λ y y_in. h y (inr y_in)))

any-In : (x : Text) (xs : List Text) → In x xs → any (λ y. y == x) xs ≡ true
any-In x [] x_in = absurd x_in
any-In x (y ∷ ys) (inl same) = ground (arith, ==_iff y x, sym same)
any-In x (y ∷ ys) (inr later) = ground (arith, any-In x ys later)

difference_self : (xs : List Text) → difference xs xs ≡ []
unfolding difference distinct
difference_self xs =
    ap distinct
      (filter-none (λ x. not (any (λ y. y == x) xs)) xs (λ x x_in. ap not (any-In x xs x_in)))

sync_events-AllGet : (new old : Documents) → AllGet new old → sync_events old new ≡ []
unfolding sync_events
sync_events-AllGet [] old h = refl
sync_events-AllGet ((c, docs) ∷ new) old h =
    rw (h.0, difference_self (ids_of docs)) (sync_events-AllGet new old h.1)

module _ ⦃d : DefaultHasher⦄ ⦃s : Serde⦄ where
  -- The documents of a list that have the identifier have the hash.
  abbrev Agreeing : Text → ℕ → List Value → Type 0
  Agreeing id h docs =
      (doc : Value) → In doc docs → document_id doc ≡ some id → doc_content_hash doc ≡ h

  hash_if-Agreeing :
      (id : Text) (h : ℕ) (doc : Value) (m : Option Text)
      → (m ≡ some id → doc_content_hash doc ≡ h)
      → (hash_if id m doc ≡ none) ⊎ (hash_if id m doc ≡ some h)
  hash_if-Agreeing id h doc none same = inl refl
  hash_if-Agreeing id h doc (some i) same = elim (Bool-cases (i == id)) [
    | inl hit ↦ inr (rw hit (ap some (same (ap some ((==_iff i id).0 hit)))))
    | inr miss ↦ inl (rw miss refl)
  ]

  later_hash-either :
      (a b : Option ℕ) (h : ℕ)
      → (a ≡ none) ⊎ (a ≡ some h)
      → (b ≡ none) ⊎ (b ≡ some h)
      → (later_hash a b ≡ none) ⊎ (later_hash a b ≡ some h)
  later_hash-either a b h (inl p) q = rw p q
  later_hash-either a b h (inr p) q = rw p (inr refl)

  old_hash-either :
      (id : Text) (h : ℕ) (docs : List Value)
      → Agreeing id h docs
      → (old_hash id docs ≡ none) ⊎ (old_hash id docs ≡ some h)
  unfolding old_hash
  old_hash-either id h [] same = inl refl
  old_hash-either id h (x ∷ xs) same =
      later_hash-either (old_hash id xs) (hash_if id (document_id x) x) h
        (old_hash-either id h xs (λ doc doc_in. same doc (inr doc_in)))
        (hash_if-Agreeing id h x (document_id x) (same x (inl refl)))

  old_hash-In :
      (id : Text) (h : ℕ) (docs : List Value) (doc : Value)
      → Agreeing id h docs
      → In doc docs
      → document_id doc ≡ some id
      → old_hash id docs ≡ some h
  unfolding old_hash
  old_hash-In id h [] doc same doc_in named = absurd doc_in
  old_hash-In id h (x ∷ xs) doc same (inl here) named =
      let x_named : document_id x ≡ some id = ap document_id (sym here) ∙ named in
      elim (old_hash-either id h xs (λ y y_in. same y (inr y_in))) [
        | inl p ↦ rw (p, x_named, ==_refl id) (ap some (same x (inl refl) x_named))
        | inr p ↦ rw p refl
      ]
  old_hash-In id h (x ∷ xs) doc same (inr there) named =
      rw (old_hash-In id h xs doc (λ y y_in. same y (inr y_in)) there named) refl

  -- Documents of one collection with the same identifier have the same hash.
  abbrev pub IsConsistent : List Value → Type 0
  IsConsistent docs =
      (a b : Value) (id : Text)
      → In a docs
      → In b docs
      → document_id a ≡ some id
      → document_id b ≡ some id
      → doc_content_hash a ≡ doc_content_hash b

  abbrev pub AllConsistent : Documents → Type 0
  AllConsistent [] = Unit
  AllConsistent ((c, docs) ∷ m) = IsConsistent docs × AllConsistent m

  module _ (mapping : MeshBrokerMapping) (now_ms : ℕ) where
    change_of-In :
        (c : Text) (docs : List Value) (doc : Value)
        → IsConsistent docs
        → In doc docs
        → (m : Option Text) → document_id doc ≡ m
        → change_of mapping now_ms c docs doc m ≡ []
    change_of-In c docs doc same doc_in none named = refl
    change_of-In c docs doc same doc_in (some id) named =
        rw
          (
            old_hash-In id (doc_content_hash doc) docs doc
                (λ y y_in y_named. same y doc id y_in doc_in y_named named) doc_in named,
            (nat_eq_iff (doc_content_hash doc) (doc_content_hash doc)).1 refl,
          )
          refl

    changes_in_self :
        (c : Text) (docs part : List Value)
        → IsConsistent docs
        → ((x : Value) → In x part → In x docs)
        → changes_in mapping now_ms c docs part ≡ []
    unfolding changes_in
    changes_in_self c docs [] same within = refl
    changes_in_self c docs (doc ∷ part) same within =
        rw (change_of-In c docs doc same (within doc (inl refl)) (document_id doc) refl)
          (changes_in_self c docs part same (λ x x_in. within x (inr x_in)))

    cdc_diffs-AllGet :
        (new old : Documents)
        → AllConsistent new
        → AllGet new old
        → cdc_diffs mapping now_ms old new ≡ []
    unfolding cdc_diffs
    cdc_diffs-AllGet [] old same h = refl
    cdc_diffs-AllGet ((c, docs) ∷ new) old same h =
        rw (h.0, changes_in_self c docs docs same.0 (λ x x_in. x_in))
          (cdc_diffs-AllGet new old same.1 h.1)

  module _ {T : Type 0} ⦃r : Redb T⦄ ⦃j : Json⦄ (mapping : MeshBrokerMapping)
      (engine : Option CdcEngine) where
    publish_with-nil : (db : Db T) → publish_with engine [] db ≡ ([], db)
    unfolding publish_with publish_all
    publish_with-nil db = elim (Option-cases engine) [ inl q ↦ rw q refl | inr (e, q) ↦ rw q refl ]

    -- A successful poll publishes nothing, announces nothing and leaves the database as it is,
    -- if the snapshot before it came from a successful poll too and had the same peers, topology
    -- and documents, where documents of one collection with the same identifier hash alike.
    pub refresh_once-quiet :
        (p₀ p : Poll) (old new : Snapshot) (db : Db T)
        → fetch mapping p₀.answers p₀.now_ms ≡ ok old
        → fetch mapping p.answers p.now_ms ≡ ok new
        → new.peers ≡ old.peers
        → new.topology ≡ old.topology
        → new.documents ≡ old.documents
        → AllConsistent old.documents
        → let out = refresh_once mapping engine p old db in
          (out.result ≡ ok tt)
          × (out.published ≡ [])
          × (out.announced ≡ [])
          × (out.snapshot ≡ new)
          × (out.db ≡ db)
    unfolding refresh_once replace emit_diffs
    refresh_once-quiet p₀ p old new db fetched₀ fetched peers topology documents same =
        let keys = fetch-HasUniqueKeys mapping p₀.answers p₀.now_ms old fetched₀ in
        let within = AllGet-self old.documents keys in
        rw
          (
            fetched,
            peers,
            topology,
            documents,
            cdc_diffs-AllGet mapping p.now_ms old.documents old.documents same within,
            publish_with-nil db,
            difference_self,
            sync_events-AllGet old.documents old.documents within,
            (nat_eq_iff old.topology.peer_count old.topology.peer_count).1 refl,
            ==_refl old.topology.role,
          )
          (refl, refl, refl, refl, refl)
