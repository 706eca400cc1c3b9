-- ===== src/Tenant/Effects.antt =====
-- tenant/manager.rs: the methods that write name the organisation that they are called for.
use peat_gateway.Base.{
  subst, required, required-ok, org_not_found, formation_not_found, sink_not_found, idp_not_found,
  leb, length, not, ℕ, Text, Bool, is_some, none, some, Option, ◌≡◌, refl, ok, Bool-cases, inl, inr,
}
use peat_gateway.Storage.Redb.{Redb, Json}
use peat_gateway.Storage.Keys.{token_key, sink_key, idp_key}
use peat_gateway.Storage.Keys.Prefixes.{NulFree}
use peat_gateway.Storage.Backend
use peat_gateway.Storage.Identity as Rows
use peat_gateway.Tenant.Tokens
use peat_gateway.Tenant.Sinks
use peat_gateway.Tenant.Identity
use peat_gateway.Storage.Backend.{Db}
use peat_gateway.Storage.Isolation.{
  create_org, delete_org, create_formation, delete_formation, create_token, delete_token,
  create_sink, delete_sink, create_idp, delete_idp, create_policy_rule, delete_policy_rule,
  store_genesis, delete_genesis, apply,
}
use peat_gateway.Storage.Keyed.{Keyed, LiesUnder-org_id}
use peat_gateway.Storage.Keyed.Effects.{
  Effect, unchanged, written, written_twice, continue-Effect, if-Effect,
}
use peat_gateway.Tenant.Manager
use peat_gateway.Tenant.Manager.{TenantManager, as_u32}
use peat_gateway.Tenant.Manager.Cases.{create_formation_cases}
use peat_gateway.Tenant.Tokens.{mark_revoked}
use peat_gateway.Tenant.Tokens.Cases.{revoke_cases}
use peat_gateway.Tenant.Mesh.{Mesh}
use peat_gateway.Tenant.Models.{Organization, OrgQuotas, CdcSinkType, EnrollmentPolicy, MeshTier}
use peat_gateway.Crypto.Interfaces.{Aead, Hex, Rng}
use peat_gateway.Crypto.Envelope.{Draws}
use peat_gateway.Tenant.Validate.{
  validate_identifier, validate_display_name, validate_non_empty, validate_sink_type,
  validate_issuer_url,
}
use peat_gateway.Tenant.Validate.Identifiers.{validate_identifier-NulFree}

module _ {T : Type 0} ⦃r : Redb T⦄ ⦃j : Json⦄ (db : Db T) (h : Keyed db) (o : Text) where
  org_lies :
      {org : Organization}
      → required (Backend.get_org db o) org_not_found ≡ ok org
      → (org.org_id ≡ o) × NulFree org.org_id
  unfolding Backend.get_org
  org_lies {org} found = h.orgs o org (required-ok (Backend.get_org db o) org_not_found found)

  -- An organisation that is there has no zero byte in its identifier.
  org-NulFree :
      {org : Organization} → required (Backend.get_org db o) org_not_found ≡ ok org → NulFree o
  org-NulFree found = subst NulFree (org_lies found).0 (org_lies found).1

  pub create_org-Effect : (now : ℕ) (name : Text) → Effect o db (Manager.create_org now o name db).1
  unfolding Manager.create_org apply
  create_org-Effect now name = continue-Effect o db (validate_identifier o) _ λ u valid.
      continue-Effect o db (validate_display_name name) _ λ v named.
        continue-Effect o db (Backend.get_org db o) _ λ existing read.
          if-Effect o db db (is_some existing) _ _ (unchanged o db)
            (written o db (create_org _) (validate_identifier-NulFree o valid, λ free. refl))

  update_org_to :
      {org : Organization} (name : Text) (quotas : OrgQuotas)
      → required (Backend.get_org db o) org_not_found ≡ ok org
      → Effect o db (Backend.update_org db (record org { display_name = name; quotas = quotas }))
  unfolding Backend.update_org apply
  update_org_to name quotas found =
      written o db (create_org _) ((org_lies found).1, λ free. (org_lies found).0)

  pub update_org-Effect :
      (name : Option Text) (quotas : Option OrgQuotas)
      → Effect o db (Manager.update_org o name quotas db).1
  unfolding Manager.update_org Manager.get_org
  update_org-Effect none none =
      continue-Effect o db (required (Backend.get_org db o) org_not_found) _
        λ org found. update_org_to org.display_name org.quotas found
  update_org-Effect none (some q) =
      continue-Effect o db (required (Backend.get_org db o) org_not_found) _
        λ org found. update_org_to org.display_name q found
  update_org-Effect (some n) none =
      continue-Effect o db (required (Backend.get_org db o) org_not_found) _
        λ org found. update_org_to n org.quotas found
  update_org-Effect (some n) (some q) =
      continue-Effect o db (required (Backend.get_org db o) org_not_found) _
        λ org found. update_org_to n q found

  pub create_token-Effect :
      ⦃hex : Hex⦄ (rng : Rng) (now : ℕ) (a label : Text) (m e : Option ℕ)
      → Effect o db (Tokens.create_token rng now o a label m e db).1
  unfolding Tokens.create_token Manager.get_org Manager.get_formation apply
  create_token-Effect rng now a label m e =
      continue-Effect o db (validate_non_empty label) _ λ u labelled.
        continue-Effect o db (required (Backend.get_org db o) org_not_found) _ λ org found.
          continue-Effect o db (required (Backend.get_formation db o a) formation_not_found) _
            λ f there. written o db (create_token _) (org-NulFree found, λ free. refl)

  pub revoke_token-Effect : (id : Text) → Effect o db (Tokens.revoke_token o id db).1
  unfolding mark_revoked apply Backend.update_token token_key
  revoke_token-Effect id =
      revoke_cases (λ q. Effect o db q.1) o id db (λ e. unchanged o db)
        λ t there live.
          let lies = h.tokens (token_key o id) t there in
          written o db (create_token _) (lies.free, LiesUnder-org_id o id t.org_id t.token_id lies)

  pub create_sink-Effect :
      ⦃hex : Hex⦄ (rng : Rng) (now : ℕ) (t : CdcSinkType)
      → Effect o db (Sinks.create_sink rng now o t db).1
  unfolding Sinks.create_sink Manager.get_org apply
  create_sink-Effect rng now t = continue-Effect o db (validate_sink_type t) _ λ u valid.
      continue-Effect o db (required (Backend.get_org db o) org_not_found) _ λ org found.
        continue-Effect o db (Backend.list_sinks db o) _ λ existing read.
          if-Effect o db db (leb org.quotas.max_cdc_sinks (as_u32 (length existing))) _ _
            (unchanged o db) (written o db (create_sink _) (org-NulFree found, λ free. refl))

  pub toggle_sink-Effect :
      (id : Text) (enabled : Bool) → Effect o db (Sinks.toggle_sink o id enabled db).1
  unfolding Sinks.toggle_sink Sinks.get_sink apply Backend.get_sink Backend.update_sink sink_key
  toggle_sink-Effect id enabled =
      continue-Effect o db (required (Backend.get_sink db o id) sink_not_found) _ λ s found.
        let lies =
          h.sinks (sink_key o id) s (required-ok (Backend.get_sink db o id) sink_not_found found) in
        written o db (create_sink _) (lies.free, LiesUnder-org_id o id s.org_id s.sink_id lies)

  pub create_idp-Effect :
      ⦃hex : Hex⦄ (rng : Rng) (now : ℕ) (url client secret : Text)
      → Effect o db (Identity.create_idp rng now o url client secret db).1
  unfolding Identity.create_idp Manager.get_org apply
  create_idp-Effect rng now url client secret =
      continue-Effect o db (validate_issuer_url url) _ λ u valid.
        continue-Effect o db (validate_non_empty client) _ λ v named.
          continue-Effect o db (validate_non_empty secret) _ λ w known.
            continue-Effect o db (required (Backend.get_org db o) org_not_found) _
              λ org found. written o db (create_idp _) (org-NulFree found, λ free. refl)

  pub toggle_idp-Effect :
      (id : Text) (enabled : Bool) → Effect o db (Identity.toggle_idp o id enabled db).1
  unfolding Identity.toggle_idp Identity.get_idp apply Rows.get_idp Rows.update_idp idp_key
  toggle_idp-Effect id enabled =
      continue-Effect o db (required (Rows.get_idp db o id) idp_not_found) _ λ i found.
        let lies =
          h.idps (idp_key o id) i (required-ok (Rows.get_idp db o id) idp_not_found found) in
        written o db (create_idp _) (lies.free, LiesUnder-org_id o id i.org_id i.idp_id lies)

-- These methods name their organisation in any database.
module _ {T : Type 0} ⦃r : Redb T⦄ ⦃j : Json⦄ (db : Db T) (o : Text) where
  pub delete_org-Effect : Effect o db (Manager.delete_org o db).1
  unfolding Manager.delete_org apply
  delete_org-Effect =
      let gone = written o db (delete_org o) (tt, λ free. refl) in
      if-Effect o db _ (not (Backend.delete_org db o).0) _ _ gone gone

  pub create_formation-Effect :
      {G : Type 0} ⦃aead : Aead⦄ (mesh : Mesh G) (mgr : TenantManager) (g : Rng) (d : Draws)
      (a : Text) (policy : EnrollmentPolicy)
      → Effect o db (Manager.create_formation mesh mgr g d o a policy db).1
  unfolding apply
  create_formation-Effect mesh mgr g d a policy =
      create_formation_cases mesh mgr (λ q. Effect o db q.1) g d o a policy db (λ e. unchanged o db)
        (λ lost. written o db (create_formation o _) (tt, λ free. refl))
        λ org l bytes admission stored.
          written_twice o db (create_formation o _) (store_genesis o _ bytes) (tt, λ free. refl)
            (tt, λ free. refl)

  pub delete_formation-Effect :
      (mgr : TenantManager) (a : Text) → Effect o db (Manager.delete_formation mgr o a db).1
  unfolding Manager.delete_formation apply
  delete_formation-Effect mgr a =
      let once = written o db (delete_formation o a) (tt, λ free. refl) in
      let twice =
        written_twice o db (delete_formation o a) (delete_genesis o a) (tt, λ free. refl)
          (tt, λ free. refl) in
      elim (Bool-cases mgr.store.deletes_formation) [
        | inr refused ↦ simp refused (unchanged o db)
        | inl deleted ↦ simp deleted (
            if-Effect o db _ (not (Backend.delete_formation db o a).0) _ _ once
              (elim (Bool-cases mgr.store.deletes_genesis) [
                | inr kept ↦ simp kept once
                | inl gone ↦ simp gone twice
              ]))
      ]

  pub delete_token-Effect : (id : Text) → Effect o db (Tokens.delete_token o id db).1
  unfolding Tokens.delete_token apply
  delete_token-Effect id =
      let gone = written o db (delete_token o id) (tt, λ free. refl) in
      if-Effect o db _ (not (Backend.delete_token db o id).0) _ _ gone gone

  pub delete_sink-Effect : (id : Text) → Effect o db (Sinks.delete_sink o id db).1
  unfolding Sinks.delete_sink apply
  delete_sink-Effect id =
      let gone = written o db (delete_sink o id) (tt, λ free. refl) in
      if-Effect o db _ (not (Backend.delete_sink db o id).0) _ _ gone gone

  pub delete_idp-Effect : (id : Text) → Effect o db (Identity.delete_idp o id db).1
  unfolding Identity.delete_idp apply
  delete_idp-Effect id =
      let gone = written o db (delete_idp o id) (tt, λ free. refl) in
      if-Effect o db _ (not (Rows.delete_idp db o id).0) _ _ gone gone

  pub create_policy_rule-Effect :
      ⦃hex : Hex⦄ (rng : Rng) (key value : Text) (tier : MeshTier) (permissions priority : ℕ)
      → Effect o db (Identity.create_policy_rule rng o key value tier permissions priority db).1
  unfolding Identity.create_policy_rule Manager.get_org apply
  create_policy_rule-Effect rng key value tier permissions priority =
      continue-Effect o db (required (Backend.get_org db o) org_not_found) _
        λ org found. written o db (create_policy_rule _) (tt, λ free. refl)

  pub delete_policy_rule-Effect : (id : Text) → Effect o db (Identity.delete_policy_rule o id db).1
  unfolding Identity.delete_policy_rule apply
  delete_policy_rule-Effect id =
      let gone = written o db (delete_policy_rule o id) (tt, λ free. refl) in
      if-Effect o db _ (not (Rows.delete_policy_rule db o id).0) _ _ gone gone
