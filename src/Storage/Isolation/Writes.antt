-- ===== src/Storage/Isolation/Writes.antt =====
-- A write that names one organisation leaves the view of every other one as it is.
use peat_gateway.Base.{
  Text, Bytes, starts_with, false, ◌∷◌, [], ◌++◌, ◌≡◌, ◌≢◌, refl, ap, ◌∙◌, arith, ==_iff, List,
}
use peat_gateway.Base.Entries.{lookup, lookup-put, lookup-erase}
use peat_gateway.Storage.Redb.{Redb, Json}
use peat_gateway.Storage.Keys.{
  formation_key, token_key, sink_key, cursor_key, idp_key, policy_rule_key, padded, audit_key,
}
use peat_gateway.Storage.Keys.Prefixes.{NulFree, starts_with-key}
use peat_gateway.Storage.Table.{with_prefix}
use peat_gateway.Storage.Table.Views.{
  with_prefix-put_outside, with_prefix-erase_outside, with_prefix-remove_prefix_outside,
}
use peat_gateway.Storage.Backend
use peat_gateway.Storage.Backend.{Db}
use peat_gateway.Storage.Identity
use peat_gateway.Storage.Isolation.{
  Write, create_org, delete_org, create_formation, delete_formation, create_token, delete_token,
  create_sink, delete_sink, create_idp, delete_idp, create_policy_rule, delete_policy_rule,
  append_audit, store_genesis, delete_genesis, set_cursor, owner, view, apply, run,
  prefixes-Disjoint,
}

module _ {T : Type 0} ⦃r : Redb T⦄ (p : Text) (k : Text) (outside : starts_with k p ≡ false) where
  insert_outside :
      (t : T) (v : Bytes) → with_prefix p (r.iter (r.insert t k v)) ≡ with_prefix p (r.iter t)
  insert_outside t v =
      ap (with_prefix p) (r.iter-insert t k v) ∙ with_prefix-put_outside p k outside v (r.iter t)

  remove_outside : (t : T) → with_prefix p (r.iter (r.remove t k).1) ≡ with_prefix p (r.iter t)
  remove_outside t =
      ap (with_prefix p) (r.iter-remove t k) ∙ with_prefix-erase_outside p k outside (r.iter t)

module _ {T : Type 0} ⦃r : Redb T⦄ (o p : Text) (ne : p ≢ o) where
  get-insert_ne : (t : T) (v : Bytes) → r.get (r.insert t p v) o ≡ r.get t o
  get-insert_ne t v = ground (
    arith,
    r.get_lem (r.insert t p v) o,
    r.get_lem t o,
    ap (lookup o) (r.iter-insert t p v),
    lookup-put p o v (r.iter t),
    ==_iff p o,
  )

  get-remove_ne : (t : T) → r.get (r.remove t p).1 o ≡ r.get t o
  get-remove_ne t = ground (
    arith,
    r.get_lem (r.remove t p).1 o,
    r.get_lem t o,
    ap (lookup o) (r.iter-remove t p),
    lookup-erase p o (r.iter t),
    ==_iff p o,
  )

-- A key of another organisation.
key_outside :
    (o p rest : Text)
    → NulFree o
    → NulFree p
    → p ≢ o
    → starts_with (p ++ (0 ∷ rest)) (o ++ (0 ∷ [])) ≡ false
key_outside o p rest free hp ne = starts_with-key o p rest free hp ∙ ground (arith, ==_iff o p)

module _ {T : Type 0} ⦃r : Redb T⦄ ⦃j : Json⦄ (db : Db T) (o : Text) (free : NulFree o) where
  delete_org_outside :
      (p : Text) → NulFree p → p ≢ o → view (Backend.delete_org db p).1 o ≡ view db o
  unfolding view Backend.delete_org
  delete_org_outside p hp ne =
      let d = prefixes-Disjoint o p free hp ne in
      let keep = λ (t : T). with_prefix-remove_prefix_outside (p ++ (0 ∷ [])) (o ++ (0 ∷ [])) t d in
      λ i. record {
        org = get-remove_ne o p ne db.orgs i;
        formations = keep db.formations i;
        tokens = keep db.tokens i;
        sinks = keep db.sinks i;
        cursors = keep db.cursors i;
        idps = keep db.idps i;
        policy_rules = keep db.policy_rules i;
        audit = keep db.audit i;
        genesis = keep db.genesis i;
      }

  -- A write that names another organisation, both identifiers without a zero byte, changes nothing
  -- in the view of this one.
  pub view-apply_ne :
      (w : Write) → NulFree (owner w) → owner w ≢ o → view (apply db w) o ≡ view db o
  unfolding view apply Backend.create_org Backend.create_formation Backend.delete_formation
      Backend.create_token Backend.delete_token Backend.create_sink Backend.delete_sink
      Backend.store_genesis Backend.delete_genesis Backend.set_cursor Identity.create_idp
      Identity.delete_idp Identity.create_policy_rule Identity.delete_policy_rule
      Identity.append_audit formation_key token_key sink_key cursor_key idp_key policy_rule_key
      audit_key
  view-apply_ne (create_org org) hp ne = λ i. record (view db o) {
    org = get-insert_ne o org.org_id ne db.orgs (j.organization.to_vec org) i;
  }
  view-apply_ne (delete_org p) hp ne = delete_org_outside p hp ne
  view-apply_ne (create_formation p f) hp ne = λ i. record (view db o) {
    formations =
        insert_outside _ _ (key_outside o p f.app_id free hp ne) db.formations
          (j.formation.to_vec f) i;
  }
  view-apply_ne (create_token t) hp ne = λ i. record (view db o) {
    tokens =
        insert_outside _ _ (key_outside o t.org_id t.token_id free hp ne) db.tokens
          (j.token.to_vec t) i;
  }
  view-apply_ne (create_sink s) hp ne = λ i. record (view db o) {
    sinks =
        insert_outside _ _ (key_outside o s.org_id s.sink_id free hp ne) db.sinks (j.sink.to_vec s)
          i;
  }
  view-apply_ne (create_idp x) hp ne = λ i. record (view db o) {
    idps =
        insert_outside _ _ (key_outside o x.org_id x.idp_id free hp ne) db.idps (j.idp.to_vec x) i;
  }
  view-apply_ne (create_policy_rule x) hp ne = λ i. record (view db o) {
    policy_rules =
        insert_outside _ _ (key_outside o x.org_id x.rule_id free hp ne) db.policy_rules
          (j.policy_rule.to_vec x) i;
  }
  view-apply_ne (append_audit e) hp ne = λ i. record (view db o) {
    audit =
        insert_outside _ _
          (key_outside o e.org_id (padded 20 e.timestamp_ms ++ (0 ∷ e.audit_id)) free hp ne)
          db.audit (j.audit_entry.to_vec e) i;
  }
  view-apply_ne (store_genesis p a b) hp ne = λ i. record (view db o) {
    genesis = insert_outside _ _ (key_outside o p a free hp ne) db.genesis b i;
  }
  view-apply_ne (set_cursor p a d h) hp ne = λ i. record (view db o) {
    cursors = insert_outside _ _ (key_outside o p (a ++ (0 ∷ d)) free hp ne) db.cursors h i;
  }
  view-apply_ne (delete_formation p a) hp ne = λ i. record (view db o) {
    formations = remove_outside _ _ (key_outside o p a free hp ne) db.formations i;
  }
  view-apply_ne (delete_token p t) hp ne = λ i. record (view db o) {
    tokens = remove_outside _ _ (key_outside o p t free hp ne) db.tokens i;
  }
  view-apply_ne (delete_sink p s) hp ne = λ i. record (view db o) {
    sinks = remove_outside _ _ (key_outside o p s free hp ne) db.sinks i;
  }
  view-apply_ne (delete_idp p x) hp ne =
      λ i. record (view db o) { idps = remove_outside _ _ (key_outside o p x free hp ne) db.idps i }
  view-apply_ne (delete_policy_rule p x) hp ne = λ i. record (view db o) {
    policy_rules = remove_outside _ _ (key_outside o p x free hp ne) db.policy_rules i;
  }
  view-apply_ne (delete_genesis p a) hp ne = λ i. record (view db o) {
    genesis = remove_outside _ _ (key_outside o p a free hp ne) db.genesis i;
  }

-- Every write of the sequence names an organisation other than `o`.
abbrev pub AllOthers : Text → List Write → Type 0
AllOthers o [] = Unit {0}
AllOthers o (w ∷ ws) = (NulFree (owner w) × (owner w ≢ o)) × AllOthers o ws

module _ {T : Type 0} ⦃r : Redb T⦄ ⦃j : Json⦄ where
  pub view-run_ne :
      (db : Db T) (o : Text) (ws : List Write)
      → NulFree o
      → AllOthers o ws
      → view (run db ws) o ≡ view db o
  unfolding run
  view-run_ne db o [] free h = refl
  view-run_ne db o (w ∷ ws) free h =
      view-run_ne (apply db w) o ws free h.1 ∙ view-apply_ne db o free w h.0.0 h.0.1
