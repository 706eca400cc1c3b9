-- ===== src/Storage/Isolation.antt =====
-- storage/redb_backend.rs: the organisations share the tables and are told apart by the prefix of
-- their keys. The view of an organisation is the part of the database under its prefix.
pub mod Writes
pub mod Reads
use peat_gateway.Base.{
  ℕ, Text, Bytes, starts_with, Bool, true, false, Option, List, [], ◌∷◌, ◌≡◌, ◌≢◌, refl, ap, ap₂,
  sym, nat_eq, nat_eq_iff, ◌∙◌, Bool-cases, inl, inr, ==_iff, ◌==◌, ◌++◌, arith, is_some, Result,
  none, some,
}
use peat_gateway.Base.Entries.{Entries, lookup, lookup-put, lookup-erase}
use peat_gateway.Storage.Redb.{Redb, Json}
use peat_gateway.Storage.Keys.{
  formation_key, formation_prefix, token_key, sink_key, cursor_key, idp_key, policy_rule_key,
  audit_key,
}
use peat_gateway.Storage.Keys.Prefixes.{NulFree, starts_with-key}
use peat_gateway.Storage.Table.{with_prefix, remove_prefix}
use peat_gateway.Storage.Table.Views.{
  Disjoint, with_prefix-put_outside, with_prefix-erase_outside, with_prefix-remove_prefix,
  with_prefix-remove_prefix_outside,
}
use peat_gateway.Storage.Backend
use peat_gateway.Storage.Backend.{Db}
use peat_gateway.Storage.Identity
use peat_gateway.Tenant.Models.{
  Organization, FormationConfig, EnrollmentToken, CdcSinkConfig, IdpConfig, PolicyRule,
  EnrollmentAuditEntry,
}

pub record View : Type 0 where
  pub org : Option Bytes
  pub formations : Entries
  pub tokens : Entries
  pub sinks : Entries
  pub cursors : Entries
  pub idps : Entries
  pub policy_rules : Entries
  pub audit : Entries
  pub genesis : Entries

abbrev pub empty : View
empty = record {
  org = none;
  formations = [];
  tokens = [];
  sinks = [];
  cursors = [];
  idps = [];
  policy_rules = [];
  audit = [];
  genesis = [];
}

-- The write transactions of the backend. The `update_*` methods are the `create_*` ones.
pub data Write : Type 0 where
  create_org : Organization → Write
  delete_org : Text → Write
  create_formation : Text → FormationConfig → Write
  delete_formation : Text → Text → Write
  create_token : EnrollmentToken → Write
  delete_token : Text → Text → Write
  create_sink : CdcSinkConfig → Write
  delete_sink : Text → Text → Write
  create_idp : IdpConfig → Write
  delete_idp : Text → Text → Write
  create_policy_rule : PolicyRule → Write
  delete_policy_rule : Text → Text → Write
  append_audit : EnrollmentAuditEntry → Write
  store_genesis : Text → Text → Bytes → Write
  delete_genesis : Text → Text → Write
  set_cursor : Text → Text → Text → Text → Write

-- The organisation that a write names.
abbrev pub owner : Write → Text
owner (create_org org) = org.org_id
owner (delete_org o) = o
owner (create_formation o f) = o
owner (delete_formation o a) = o
owner (create_token t) = t.org_id
owner (delete_token o t) = o
owner (create_sink s) = s.org_id
owner (delete_sink o s) = o
owner (create_idp i) = i.org_id
owner (delete_idp o i) = o
owner (create_policy_rule p) = p.org_id
owner (delete_policy_rule o p) = o
owner (append_audit e) = e.org_id
owner (store_genesis o a b) = o
owner (delete_genesis o a) = o
owner (set_cursor o a d h) = o

-- Two different prefixes have no key in common.
pub prefixes-Disjoint :
    (o p : Text) → NulFree o → NulFree p → p ≢ o → Disjoint (p ++ (0 ∷ [])) (o ++ (0 ∷ []))
unfolding starts_with
prefixes-Disjoint [] [] ho hp ne k h = absurd (ne refl)
prefixes-Disjoint [] (d ∷ p) ho hp ne [] h = refl
prefixes-Disjoint [] (d ∷ p) ho hp ne (x ∷ k) h = ground (arith, hp.0)
prefixes-Disjoint (c ∷ o) [] ho hp ne [] h = refl
prefixes-Disjoint (c ∷ o) [] ho hp ne (x ∷ k) h = ground (arith, ho.0)
prefixes-Disjoint (c ∷ o) (d ∷ p) ho hp ne [] h = refl
prefixes-Disjoint (c ∷ o) (d ∷ p) ho hp ne (x ∷ k) h = elim (Bool-cases (nat_eq c d)) [
  | inl same ↦ ground (
    arith,
    prefixes-Disjoint o p ho.1 hp.1 (λ q. ne (ap₂ ◌∷◌ (sym ((nat_eq_iff c d).0 same)) q)) k,
  )
  | inr other ↦ ground arith
]

module _ {T : Type 0} ⦃r : Redb T⦄ where
  unfoldable pub view : Db T → Text → View
  unfolding formation_prefix
  view db o =
      let p = formation_prefix o in
      record {
        org = r.get db.orgs o;
        formations = with_prefix p (r.iter db.formations);
        tokens = with_prefix p (r.iter db.tokens);
        sinks = with_prefix p (r.iter db.sinks);
        cursors = with_prefix p (r.iter db.cursors);
        idps = with_prefix p (r.iter db.idps);
        policy_rules = with_prefix p (r.iter db.policy_rules);
        audit = with_prefix p (r.iter db.audit);
        genesis = with_prefix p (r.iter db.genesis);
      }

  -- Deleting an organisation leaves neither its record nor anything under its prefix in the
  -- other eight tables, and reports whether the organisation was there.
  pub view-delete_org :
      (db : Db T) (o : Text)
      → (view (Backend.delete_org db o).1 o ≡ empty)
        × ((Backend.delete_org db o).0 ≡ is_some (r.get db.orgs o))
  unfolding view Backend.delete_org
  view-delete_org db o =
      let p = formation_prefix o in
      (
        ground (
          arith,
          r.get_lem (r.remove db.orgs o).1 o,
          ap (lookup o) (r.iter-remove db.orgs o),
          lookup-erase o o (r.iter db.orgs),
          ==_iff o o,
          with_prefix-remove_prefix p db.formations,
          with_prefix-remove_prefix p db.tokens,
          with_prefix-remove_prefix p db.sinks,
          with_prefix-remove_prefix p db.cursors,
          with_prefix-remove_prefix p db.idps,
          with_prefix-remove_prefix p db.policy_rules,
          with_prefix-remove_prefix p db.audit,
          with_prefix-remove_prefix p db.genesis,
        ),
        ap is_some (r.removed db.orgs o ∙ sym (r.get_lem db.orgs o)),
      )

module _ {T : Type 0} ⦃r : Redb T⦄ ⦃j : Json⦄ where
  unfoldable pub apply : Db T → Write → Db T
  apply db (create_org org) = Backend.create_org db org
  apply db (delete_org o) = (Backend.delete_org db o).1
  apply db (create_formation o f) = Backend.create_formation db o f
  apply db (delete_formation o a) = (Backend.delete_formation db o a).1
  apply db (create_token t) = Backend.create_token db t
  apply db (delete_token o t) = (Backend.delete_token db o t).1
  apply db (create_sink s) = Backend.create_sink db s
  apply db (delete_sink o s) = (Backend.delete_sink db o s).1
  apply db (create_idp i) = Identity.create_idp db i
  apply db (delete_idp o i) = (Identity.delete_idp db o i).1
  apply db (create_policy_rule p) = Identity.create_policy_rule db p
  apply db (delete_policy_rule o p) = (Identity.delete_policy_rule db o p).1
  apply db (append_audit e) = Identity.append_audit db e
  apply db (store_genesis o a b) = Backend.store_genesis db o a b
  apply db (delete_genesis o a) = (Backend.delete_genesis db o a).1
  apply db (set_cursor o a d h) = Backend.set_cursor db o a d h

  unfoldable pub run : Db T → List Write → Db T
  run db [] = db
  run db (w ∷ ws) = run (apply db w) ws
