-- ===== src/Examples/Identities.antt =====
-- The serialisation of policy rules and audit entries.
use peat_gateway.Base.{ℕ, zero, suc, Text, [], ◌≡◌, refl}
use peat_gateway.Tenant.Models.{
  MeshTier, authority, infrastructure, endpoint, PolicyRule, EnrollmentDecision, approved, denied,
  EnrollmentAuditEntry,
}
use peat_gateway.Examples.Formats.{Format, number_format, text_format, pair_format, embedded}

abbrev to_tier : ℕ → MeshTier
to_tier zero = authority
to_tier (suc zero) = infrastructure
to_tier (suc (suc n)) = endpoint

abbrev tier_code : MeshTier → ℕ
tier_code authority = 0
tier_code infrastructure = 1
tier_code endpoint = 2

pub to_tier-code : (t : MeshTier) → to_tier (tier_code t) ≡ t
to_tier-code authority = refl
to_tier-code infrastructure = refl
to_tier-code endpoint = refl

abbrev pub rule_format : Format PolicyRule
rule_format =
    embedded
      (pair_format text_format (
        pair_format text_format (
          pair_format text_format (
            pair_format text_format (
              pair_format (embedded number_format tier_code to_tier to_tier-code)
                (pair_format number_format number_format))))))
      (λ s. (
        s.rule_id,
        (s.org_id, (s.claim_key, (s.claim_value, (s.tier, (s.permissions, s.priority))))),
      ))
      (λ t. record {
        rule_id = t.0;
        org_id = t.1.0;
        claim_key = t.1.1.0;
        claim_value = t.1.1.1.0;
        tier = t.1.1.1.1.0;
        permissions = t.1.1.1.1.1.0;
        priority = t.1.1.1.1.1.1;
      })
      (λ s. refl)

abbrev decision_of : ℕ × (ℕ × Text) → EnrollmentDecision
decision_of (zero, (p, reason)) = denied reason
decision_of (suc n, (p, reason)) = approved (to_tier n) p

abbrev decision_code : EnrollmentDecision → ℕ × (ℕ × Text)
decision_code (denied reason) = (0, (0, reason))
decision_code (approved tier p) = (suc (tier_code tier), (p, []))

pub decision_of-code : (d : EnrollmentDecision) → decision_of (decision_code d) ≡ d
decision_of-code (denied reason) = refl
decision_of-code (approved authority p) = refl
decision_of-code (approved infrastructure p) = refl
decision_of-code (approved endpoint p) = refl

abbrev pub audit_format : Format EnrollmentAuditEntry
audit_format =
    embedded
      (pair_format text_format (
        pair_format text_format (
          pair_format text_format (
            pair_format text_format (
              pair_format text_format (
                pair_format
                  (embedded (pair_format number_format (pair_format number_format text_format))
                    decision_code decision_of decision_of-code)
                  number_format))))))
      (λ s.
        (s.audit_id, (s.org_id, (s.app_id, (s.idp_id, (s.subject, (s.decision, s.timestamp_ms)))))))
      (λ t. record {
        audit_id = t.0;
        org_id = t.1.0;
        app_id = t.1.1.0;
        idp_id = t.1.1.1.0;
        subject = t.1.1.1.1.0;
        decision = t.1.1.1.1.1.0;
        timestamp_ms = t.1.1.1.1.1.1;
      })
      (λ s. refl)
