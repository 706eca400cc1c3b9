-- ===== src/Storage/Keyed.antt =====
-- storage/redb_backend.rs: the rows that are read to be written again lie under their own keys, so
-- that such a write names the organisation that was asked for.
pub mod Effects
use peat_gateway.Base.{
  map, Text, ◌==◌, true, false, Option, some, none, List, [], ◌∷◌, ◌++◌, ◌≡◌, refl, sym, ap, ◌∙◌,
  subst, arith, Bool-cases, inl, inr, ok, ==_sound,
}
use peat_gateway.Storage.Redb.{Redb, Json, Codec}
use peat_gateway.Storage.Keys.{token_key, sink_key, idp_key, formation_prefix}
use peat_gateway.Storage.Keys.Prefixes.{NulFree, key-injective}
use peat_gateway.Storage.Table.{remove_all, remove_prefix, with_prefix, decode_opt}
use peat_gateway.Base.Entries.{lookup}
use peat_gateway.Storage.Table.Fetch.{fetch, fetch-insert, fetch-remove}
use peat_gateway.Storage.Backend
use peat_gateway.Storage.Backend.{Db}
use peat_gateway.Storage.Identity
use peat_gateway.Storage.Isolation.{
  Write, create_org, delete_org, create_formation, delete_formation, create_token, delete_token,
  create_sink, delete_sink, create_idp, delete_idp, create_policy_rule, delete_policy_rule,
  append_audit, store_genesis, delete_genesis, set_cursor, apply, run,
}
use peat_gateway.Tenant.Models.{Organization, EnrollmentToken, CdcSinkConfig, IdpConfig}

module _ {A T : Type 0} ⦃r : Redb T⦄ (c : Codec A) (P : Text → A → Type 0) where
  -- Every row that can be read has the property.
  abbrev pub Rows : T → Type 0
  Rows t = (k : Text) (a : A) → fetch c t k ≡ ok (some a) → P k a

  pub insert-Rows : (t : T) (k : Text) (a : A) → P k a → Rows t → Rows (r.insert t k (c.to_vec a))
  insert-Rows t k a p rows i b h = elim (Bool-cases (k == i)) [
    | inl same ↦
        subst (P i) {x = a} {y = b} (ground (arith, fetch-insert c t k i a))
          (subst (λ x. P x a) (==_sound k i same) p)
    | inr other ↦ rows i b (ground (arith, fetch-insert c t k i a))
  ]

  pub remove-Rows : (t : T) (k : Text) → Rows t → Rows (r.remove t k).1
  remove-Rows t k rows i b h = rows i b (ground (arith, fetch-remove c t k i))

  remove_all-Rows : (ks : List Text) (t : T) → Rows t → Rows (remove_all ks t)
  unfolding remove_all
  remove_all-Rows [] t rows = rows
  remove_all-Rows (k ∷ ks) t rows =
      remove_all-Rows ks (r.remove t k).1 (λ i b h. remove-Rows t k rows i b h)

  pub remove_prefix-Rows : (p : Text) (t : T) → Rows t → Rows (remove_prefix p t)
  unfolding remove_prefix
  remove_prefix-Rows p t rows = remove_all-Rows (map (λ e. e.0) (with_prefix p (r.iter t))) t rows

-- A row of an organisation lies under its identifier, a zero byte and its own identifier.
pub record LiesUnder (k org_id id : Text) : Type 0 where
  pub keyed : org_id ++ (0 ∷ id) ≡ k
  pub free : NulFree org_id

-- A row that was asked for by an identifier without a zero byte is that organisation's.
pub LiesUnder-org_id :
    (o x org_id id : Text) → LiesUnder (o ++ (0 ∷ x)) org_id id → NulFree o → org_id ≡ o
LiesUnder-org_id o x org_id id l free = (key-injective org_id o id x l.free free l.keyed).0

abbrev pub OrgLies : Text → Organization → Type 0
OrgLies k org = (org.org_id ≡ k) × NulFree org.org_id

abbrev pub TokenLies : Text → EnrollmentToken → Type 0
TokenLies k t = LiesUnder k t.org_id t.token_id

abbrev pub SinkLies : Text → CdcSinkConfig → Type 0
SinkLies k s = LiesUnder k s.org_id s.sink_id

abbrev pub IdpLies : Text → IdpConfig → Type 0
IdpLies k i = LiesUnder k i.org_id i.idp_id

module _ {T : Type 0} ⦃r : Redb T⦄ ⦃j : Json⦄ where
  pub record Keyed (db : Db T) : Type 0 where
    pub orgs : Rows j.organization OrgLies db.orgs
    pub tokens : Rows j.token TokenLies db.tokens
    pub sinks : Rows j.sink SinkLies db.sinks
    pub idps : Rows j.idp IdpLies db.idps

-- The write names its organisation by an identifier without a zero byte, where it stores that.
abbrev pub Fits : Write → Type 0
Fits (create_org org) = NulFree org.org_id
Fits (create_token t) = NulFree t.org_id
Fits (create_sink s) = NulFree s.org_id
Fits (create_idp i) = NulFree i.org_id
Fits (delete_org o) = Unit {0}
Fits (create_formation o f) = Unit {0}
Fits (delete_formation o a) = Unit {0}
Fits (delete_token o t) = Unit {0}
Fits (delete_sink o s) = Unit {0}
Fits (delete_idp o i) = Unit {0}
Fits (create_policy_rule p) = Unit {0}
Fits (delete_policy_rule o p) = Unit {0}
Fits (append_audit e) = Unit {0}
Fits (store_genesis o a b) = Unit {0}
Fits (delete_genesis o a) = Unit {0}
Fits (set_cursor o a d h) = Unit {0}

module _ {T : Type 0} ⦃r : Redb T⦄ ⦃j : Json⦄ where
  -- A write that fits keeps the rows under their own keys.
  pub apply-Keyed : (db : Db T) (w : Write) → Fits w → Keyed db → Keyed (apply db w)
  unfolding apply Backend.create_org Backend.create_formation Backend.delete_formation
      Backend.create_token Backend.delete_token Backend.create_sink Backend.delete_sink
      Backend.delete_org Backend.store_genesis Backend.delete_genesis Backend.set_cursor
      Identity.create_idp Identity.delete_idp Identity.create_policy_rule
      Identity.delete_policy_rule Identity.append_audit formation_prefix token_key sink_key idp_key
  apply-Keyed db (create_org org) f h = record {
    orgs = insert-Rows j.organization OrgLies db.orgs org.org_id org (refl, f) h.orgs;
    tokens = h.tokens;
    sinks = h.sinks;
    idps = h.idps;
  }
  apply-Keyed db (create_token t) f h = record {
    orgs = h.orgs;
    tokens =
        insert-Rows j.token TokenLies db.tokens (token_key t.org_id t.token_id) t
          (record { keyed = refl; free = f }) h.tokens;
    sinks = h.sinks;
    idps = h.idps;
  }
  apply-Keyed db (create_sink s) f h = record {
    orgs = h.orgs;
    tokens = h.tokens;
    sinks =
        insert-Rows j.sink SinkLies db.sinks (sink_key s.org_id s.sink_id) s
          (record { keyed = refl; free = f }) h.sinks;
    idps = h.idps;
  }
  apply-Keyed db (create_idp i) f h = record {
    orgs = h.orgs;
    tokens = h.tokens;
    sinks = h.sinks;
    idps =
        insert-Rows j.idp IdpLies db.idps (idp_key i.org_id i.idp_id) i
          (record { keyed = refl; free = f }) h.idps;
  }
  apply-Keyed db (delete_org o) f h = record {
    orgs = remove-Rows j.organization OrgLies db.orgs o h.orgs;
    tokens = remove_prefix-Rows j.token TokenLies (formation_prefix o) db.tokens h.tokens;
    sinks = remove_prefix-Rows j.sink SinkLies (formation_prefix o) db.sinks h.sinks;
    idps = remove_prefix-Rows j.idp IdpLies (formation_prefix o) db.idps h.idps;
  }
  apply-Keyed db (delete_token o t) f h = record {
    orgs = h.orgs;
    tokens = remove-Rows j.token TokenLies db.tokens (token_key o t) h.tokens;
    sinks = h.sinks;
    idps = h.idps;
  }
  apply-Keyed db (delete_sink o s) f h = record {
    orgs = h.orgs;
    tokens = h.tokens;
    sinks = remove-Rows j.sink SinkLies db.sinks (sink_key o s) h.sinks;
    idps = h.idps;
  }
  apply-Keyed db (delete_idp o i) f h = record {
    orgs = h.orgs;
    tokens = h.tokens;
    sinks = h.sinks;
    idps = remove-Rows j.idp IdpLies db.idps (idp_key o i) h.idps;
  }
  apply-Keyed db (create_formation o a) f h = record {
    orgs = h.orgs;
    tokens = h.tokens;
    sinks = h.sinks;
    idps = h.idps;
  }
  apply-Keyed db (delete_formation o a) f h = record {
    orgs = h.orgs;
    tokens = h.tokens;
    sinks = h.sinks;
    idps = h.idps;
  }
  apply-Keyed db (create_policy_rule p) f h = record {
    orgs = h.orgs;
    tokens = h.tokens;
    sinks = h.sinks;
    idps = h.idps;
  }
  apply-Keyed db (delete_policy_rule o p) f h = record {
    orgs = h.orgs;
    tokens = h.tokens;
    sinks = h.sinks;
    idps = h.idps;
  }
  apply-Keyed db (append_audit e) f h = record {
    orgs = h.orgs;
    tokens = h.tokens;
    sinks = h.sinks;
    idps = h.idps;
  }
  apply-Keyed db (store_genesis o a b) f h = record {
    orgs = h.orgs;
    tokens = h.tokens;
    sinks = h.sinks;
    idps = h.idps;
  }
  apply-Keyed db (delete_genesis o a) f h = record {
    orgs = h.orgs;
    tokens = h.tokens;
    sinks = h.sinks;
    idps = h.idps;
  }
  apply-Keyed db (set_cursor o a d e) f h = record {
    orgs = h.orgs;
    tokens = h.tokens;
    sinks = h.sinks;
    idps = h.idps;
  }

module _ (T : Type 0) ⦃r : Redb T⦄ ⦃j : Json⦄ where
  create-Rows : {A : Type 0} (c : Codec A) (P : Text → A → Type 0) → Rows {T = T} c P r.create
  unfolding decode_opt lookup
  create-Rows c P k a h =
      let empty : r.get r.create k ≡ none = r.get_lem r.create k ∙ ap (lookup k) r.iter-create in
      absurd (ground (arith, empty))

  -- A new database has no rows.
  pub create-Keyed : Keyed {T = T} Backend.create
  unfolding Backend.create
  create-Keyed = record {
    orgs = create-Rows j.organization OrgLies;
    tokens = create-Rows j.token TokenLies;
    sinks = create-Rows j.sink SinkLies;
    idps = create-Rows j.idp IdpLies;
  }
