-- ===== src/Examples/Tenants.antt =====
-- The serialisation of organisations, formations, tokens, sinks and identity providers.
use peat_gateway.Base.{ℕ, zero, suc, Text, ◌≡◌, refl}
use peat_gateway.Tenant.Models.{
  OrgQuotas, Organization, EnrollmentPolicy, open_policy, controlled, strict, FormationConfig,
  EnrollmentToken, CdcSinkType, nats, kafka, webhook, CdcSinkConfig, IdpConfig,
}
use peat_gateway.Examples.Formats.{
  Format, number_format, text_format, pair_format, flag_format, maybe_format, embedded,
}

abbrev pub quotas_format : Format OrgQuotas
quotas_format =
    embedded
      (pair_format number_format (
        pair_format number_format
          (pair_format number_format (pair_format number_format number_format))))
      (λ q. (
        q.max_formations,
        (
          q.max_peers_per_formation,
          (q.max_documents_per_formation, (q.max_cdc_sinks, q.max_enrollments_per_hour)),
        ),
      ))
      (λ t. record {
        max_formations = t.0;
        max_peers_per_formation = t.1.0;
        max_documents_per_formation = t.1.1.0;
        max_cdc_sinks = t.1.1.1.0;
        max_enrollments_per_hour = t.1.1.1.1;
      })
      (λ q. refl)

abbrev pub organization_format : Format Organization
organization_format =
    embedded
      (pair_format text_format (pair_format text_format (pair_format quotas_format number_format)))
      (λ o. (o.org_id, (o.display_name, (o.quotas, o.created_at))))
      (λ t. record { org_id = t.0; display_name = t.1.0; quotas = t.1.1.0; created_at = t.1.1.1 })
      (λ o. refl)

abbrev to_policy : ℕ → EnrollmentPolicy
to_policy zero = open_policy
to_policy (suc zero) = controlled
to_policy (suc (suc n)) = strict

abbrev policy_code : EnrollmentPolicy → ℕ
policy_code open_policy = 0
policy_code controlled = 1
policy_code strict = 2

pub to_policy-code : (p : EnrollmentPolicy) → to_policy (policy_code p) ≡ p
to_policy-code open_policy = refl
to_policy-code controlled = refl
to_policy-code strict = refl

abbrev pub formation_format : Format FormationConfig
formation_format =
    embedded
      (pair_format text_format
        (pair_format text_format (embedded number_format policy_code to_policy to_policy-code)))
      (λ f. (f.app_id, (f.mesh_id, f.enrollment_policy)))
      (λ t. record { app_id = t.0; mesh_id = t.1.0; enrollment_policy = t.1.1 }) (λ f. refl)

abbrev pub token_format : Format EnrollmentToken
token_format =
    embedded
      (pair_format text_format (
        pair_format text_format (
          pair_format text_format (
            pair_format text_format (
              pair_format maybe_format (
                pair_format number_format
                  (pair_format maybe_format (pair_format number_format flag_format))))))))
      (λ t. (
        t.token_id,
        (
          t.org_id,
          (t.app_id, (t.label, (t.max_uses, (t.uses, (t.expires_at, (t.created_at, t.revoked)))))),
        ),
      ))
      (λ t. record {
        token_id = t.0;
        org_id = t.1.0;
        app_id = t.1.1.0;
        label = t.1.1.1.0;
        max_uses = t.1.1.1.1.0;
        uses = t.1.1.1.1.1.0;
        expires_at = t.1.1.1.1.1.1.0;
        created_at = t.1.1.1.1.1.1.1.0;
        revoked = t.1.1.1.1.1.1.1.1;
      })
      (λ t. refl)

abbrev sink_of : ℕ × Text → CdcSinkType
sink_of (zero, t) = nats t
sink_of (suc zero, t) = kafka t
sink_of (suc (suc n), t) = webhook t

abbrev sink_code : CdcSinkType → ℕ × Text
sink_code (nats t) = (0, t)
sink_code (kafka t) = (1, t)
sink_code (webhook t) = (2, t)

pub sink_of-code : (s : CdcSinkType) → sink_of (sink_code s) ≡ s
sink_of-code (nats t) = refl
sink_of-code (kafka t) = refl
sink_of-code (webhook t) = refl

abbrev pub sink_format : Format CdcSinkConfig
sink_format =
    embedded
      (pair_format text_format (
        pair_format text_format (
          pair_format
            (embedded (pair_format number_format text_format) sink_code sink_of sink_of-code)
            (pair_format flag_format number_format))))
      (λ s. (s.sink_id, (s.org_id, (s.sink_type, (s.enabled, s.created_at)))))
      (λ t. record {
        sink_id = t.0;
        org_id = t.1.0;
        sink_type = t.1.1.0;
        enabled = t.1.1.1.0;
        created_at = t.1.1.1.1;
      })
      (λ s. refl)

abbrev pub idp_format : Format IdpConfig
idp_format =
    embedded
      (pair_format text_format (
        pair_format text_format (
          pair_format text_format (
            pair_format text_format
              (pair_format text_format (pair_format flag_format number_format))))))
      (λ s. (
        s.idp_id,
        (s.org_id, (s.issuer_url, (s.client_id, (s.client_secret, (s.enabled, s.created_at))))),
      ))
      (λ t. record {
        idp_id = t.0;
        org_id = t.1.0;
        issuer_url = t.1.1.0;
        client_id = t.1.1.1.0;
        client_secret = t.1.1.1.1.0;
        enabled = t.1.1.1.1.1.0;
        created_at = t.1.1.1.1.1.1;
      })
      (λ s. refl)
