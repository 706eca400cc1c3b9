-- ===== src/Storage/Isolation/Reads.antt =====
-- What the reads of an organisation return is determined by its view, so that no write of another
-- organisation can be seen.
use mathlib.Core.List.{reverse, reverse-cons, append-nil}
use peat_gateway.Base.{
  ℕ, ◌+◌, Text, Bytes, starts_with, Option, List, [], ◌∷◌, ◌++◌, ◌≡◌, refl, ap, sym, ◌∙◌, arith,
  Result, ok, and_then, filter, ◌==◌, Bool-cases, inl, inr,
}
use peat_gateway.Base.Entries.{Entries, lookup}
use peat_gateway.Storage.Redb.{Redb, Json, Codec}
use peat_gateway.Storage.Keys.{
  formation_key, formation_prefix, token_key, token_prefix, sink_key, sink_prefix, cursor_key,
  idp_key,
}
use peat_gateway.Storage.Keys.Prefixes.{NulFree, starts_with-prefix}
use peat_gateway.Storage.Table.{with_prefix, decode_opt, decode_all}
use peat_gateway.Storage.Table.Views.{lookup-with_prefix}
use peat_gateway.Storage.Backend
use peat_gateway.Storage.Backend.{Db}
use peat_gateway.Storage.Identity
use peat_gateway.Storage.Identity.{collect_audit, org_prefix}
use peat_gateway.Storage.Isolation.{View, Write, view, run}
use peat_gateway.Storage.Isolation.Writes.{AllOthers, view-run_ne}
use peat_gateway.Tenant.Models.{
  Organization, FormationConfig, EnrollmentToken, CdcSinkConfig, IdpConfig, PolicyRule,
  EnrollmentAuditEntry,
}

-- The answers of all reads of one organisation.
pub record Answers : Type 0 where
  pub get_org : Result (Option Organization)
  pub get_formation : Text → Result (Option FormationConfig)
  pub list_formations : Result (List FormationConfig)
  pub get_token : Text → Result (Option EnrollmentToken)
  pub list_tokens : Text → Result (List EnrollmentToken)
  pub get_sink : Text → Result (Option CdcSinkConfig)
  pub list_sinks : Result (List CdcSinkConfig)
  pub get_idp : Text → Result (Option IdpConfig)
  pub list_idps : Result (List IdpConfig)
  pub list_policy_rules : Result (List PolicyRule)
  pub list_audit : Option Text → ℕ → Result (List EnrollmentAuditEntry)
  pub get_genesis : Text → Option Bytes
  pub get_cursor : Text → Text → Option Text

module _ {T : Type 0} ⦃r : Redb T⦄ ⦃j : Json⦄ where
  unfoldable pub answers : Db T → Text → Answers
  answers db o = record {
    get_org = Backend.get_org db o;
    get_formation = Backend.get_formation db o;
    list_formations = Backend.list_formations db o;
    get_token = Backend.get_token db o;
    list_tokens = Backend.list_tokens db o;
    get_sink = Backend.get_sink db o;
    list_sinks = Backend.list_sinks db o;
    get_idp = Identity.get_idp db o;
    list_idps = Identity.list_idps db o;
    list_policy_rules = Identity.list_policy_rules db o;
    list_audit = Identity.list_audit db o;
    get_genesis = Backend.get_genesis db o;
    get_cursor = Backend.get_cursor db o;
  }

-- The same answers, computed from the view alone.
module _ ⦃j : Json⦄ where
  answers_from : View → Text → Answers
  answers_from v o = record {
    get_org = decode_opt j.organization v.org;
    get_formation = λ a. decode_opt j.formation (lookup (formation_key o a) v.formations);
    list_formations = decode_all j.formation v.formations;
    get_token = λ t. decode_opt j.token (lookup (token_key o t) v.tokens);
    list_tokens = λ a.
        and_then (decode_all j.token v.tokens) λ tokens. ok (filter (λ t. t.app_id == a) tokens);
    get_sink = λ s. decode_opt j.sink (lookup (sink_key o s) v.sinks);
    list_sinks = decode_all j.sink v.sinks;
    get_idp = λ s. decode_opt j.idp (lookup (idp_key o s) v.idps);
    list_idps = decode_all j.idp v.idps;
    list_policy_rules = decode_all j.policy_rule v.policy_rules;
    list_audit = λ a limit. collect_audit j.audit_entry (org_prefix o) a limit 0 (reverse v.audit);
    get_genesis = λ a. lookup (formation_key o a) v.genesis;
    get_cursor = λ a d. lookup (cursor_key o a d) v.cursors;
  }

-- The loop of `list_audit` skips the entries outside its prefix.
collect_audit-with_prefix :
    (c : Codec EnrollmentAuditEntry) (p : Text) (app : Option Text) (limit count : ℕ) (m : Entries)
    → collect_audit c p app limit count (with_prefix p m) ≡ collect_audit c p app limit count m
unfolding collect_audit
collect_audit-with_prefix c p app limit count [] = refl
collect_audit-with_prefix c p app limit count ((k, v) ∷ m) = ground (
  arith,
  collect_audit-with_prefix c p app limit count m,
  collect_audit-with_prefix c p app limit (count + 1) m,
)

with_prefix-append :
    (p : Text) (l m : Entries) → with_prefix p (l ++ m) ≡ with_prefix p l ++ with_prefix p m
with_prefix-append p [] m = refl
with_prefix-append p ((k, v) ∷ l) m = ground (arith, with_prefix-append p l m)

with_prefix-reverse :
    (p : Text) (m : Entries) → with_prefix p (reverse m) ≡ reverse (with_prefix p m)
with_prefix-reverse p [] = refl
with_prefix-reverse p ((k, v) ∷ m) =
    rw
      (
        reverse-cons (k, v) m,
        with_prefix-append p (reverse m) ((k, v) ∷ []),
        with_prefix-reverse p m,
      )
      (elim (Bool-cases (starts_with k p)) [
        | inl hit ↦ rw (hit, reverse-cons (k, v) (with_prefix p m))
        | inr miss ↦ rw (miss, append-nil)
      ])

module _ {T : Type 0} ⦃r : Redb T⦄ where
  get_under :
      (t : T) (o rest : Text)
      → r.get t (o ++ (0 ∷ rest))
        ≡ lookup (o ++ (0 ∷ rest)) (with_prefix (o ++ (0 ∷ [])) (r.iter t))
  get_under t o rest =
      r.get_lem t _ ∙ sym (lookup-with_prefix _ _ (r.iter t) (starts_with-prefix o rest))

collect_audit_under :
    (c : Codec EnrollmentAuditEntry) (p : Text) (app : Option Text) (limit : ℕ) (m : Entries)
    → collect_audit c p app limit 0 (reverse m)
      ≡ collect_audit c p app limit 0 (reverse (with_prefix p m))
collect_audit_under c p app limit m =
    sym (collect_audit-with_prefix c p app limit 0 (reverse m))
    ∙ ap (collect_audit c p app limit 0) (with_prefix-reverse p m)

module _ {T : Type 0} ⦃r : Redb T⦄ ⦃j : Json⦄ where
  answers-eq-from : (db : Db T) (o : Text) → answers db o ≡ answers_from (view db o) o
  unfolding answers answers_from view Backend.get_org Backend.get_formation Backend.list_formations
      Backend.get_token Backend.list_tokens Backend.get_sink Backend.list_sinks Identity.get_idp
      Identity.list_idps Identity.list_policy_rules Identity.list_audit Backend.get_genesis
      Backend.get_cursor formation_key token_key token_prefix sink_key sink_prefix cursor_key
      idp_key formation_prefix
  answers-eq-from db o = λ i. record (answers_from (view db o) o) {
    get_formation = λ a. decode_opt j.formation (get_under db.formations o a i);
    get_token = λ t. decode_opt j.token (get_under db.tokens o t i);
    get_sink = λ s. decode_opt j.sink (get_under db.sinks o s i);
    get_idp = λ x. decode_opt j.idp (get_under db.idps o x i);
    list_audit =
        λ a limit. collect_audit_under j.audit_entry (org_prefix o) a limit (r.iter db.audit) i;
    get_genesis = λ a. get_under db.genesis o a i;
    get_cursor = λ a d. get_under db.cursors o (a ++ (0 ∷ d)) i;
  }

  -- After any sequence of write transactions that all name other organisations, by identifiers
  -- without a zero byte, every read of the redb backend for an organisation without a zero byte
  -- in its identifier (its record, formations, tokens, sinks, identity providers, policy rules,
  -- audit entries, genesis records and cursors) returns what it returned before.
  pub answers-run_ne :
      (db : Db T) (o : Text) (ws : List Write)
      → NulFree o
      → AllOthers o ws
      → answers (run db ws) o ≡ answers db o
  answers-run_ne db o ws free h =
      answers-eq-from (run db ws) o
      ∙ ap (λ v. answers_from v o) (view-run_ne db o ws free h)
      ∙ sym (answers-eq-from db o)
