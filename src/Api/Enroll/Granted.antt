-- ===== src/Api/Enroll/Granted.antt =====
-- api/enroll.rs: what an enrollment that succeeds rests on, and what one that fails leaves.
use peat_gateway.Base.{
  continue, ==_refl, ℕ, ◌-◌, ◌<◌, ◌≡◌, refl, sym, ap, inl, inr, Text, Option, none, some, Error,
  Result, ok, err, Result-cases, Bool-cases, bad_request, forbidden, too_many_requests, internal,
  leb, arith, true, false, ◌⊎◌, if◌then◌else◌,
}
use peat_gateway.Storage.Redb.{Redb, Json}
use peat_gateway.Storage.Backend
use peat_gateway.Storage.Backend.{Db}
use peat_gateway.Storage.Identity
use peat_gateway.Storage.Keys.{audit_key}
use peat_gateway.Storage.Table.Fetch.{fetch, fetch-insert}
use peat_gateway.Crypto.Interfaces.{Aead, Hex}
use peat_gateway.Tenant.Models.{
  approved, MeshTier, EnrollmentAuditEntry, FormationConfig, Organization,
}
use peat_gateway.Tenant.Mesh.{Mesh}
use peat_gateway.Tenant.Manager.{
  usize_max, TenantManager, as_u32, get_org, get_formation, count_recent_enrollments,
}
use peat_gateway.Tenant.Identity.{append_audit}
use peat_gateway.Api.Certificate.{EnrollRequest, try_issue_certificate}
use peat_gateway.Api.Enroll.{
  Authorization, Outside, Verdict, finish, enroll, EnrollmentResponse, build_audit, generate_id,
  validate_body, is_strict,
}
use peat_gateway.Api.Enroll.Outcomes.{IsGrounded, decide_cases}

module _ {T : Type 0} ⦃r : Redb T⦄ ⦃j : Json⦄ where
  -- Counting only reads.
  pub count_recent_enrollments-state :
      (o : Text) (since : ℕ) (db : Db T) → (count_recent_enrollments o since db).1 ≡ db
  unfolding count_recent_enrollments
  count_recent_enrollments-state o since db =
      elim (Result-cases (Identity.list_audit db o none usize_max)) [
        | inl (e, q) ↦ rw q refl
        | inr (l, q) ↦ rw q refl
      ]

  fetch-append_audit :
      (db : Db T) (entry : EnrollmentAuditEntry)
      → fetch j.audit_entry
          (Identity.append_audit db entry).audit
          (audit_key entry.org_id entry.timestamp_ms entry.audit_id)
        ≡ ok (some entry)
  unfolding Identity.append_audit
  fetch-append_audit db entry =
      let key = audit_key entry.org_id entry.timestamp_ms entry.audit_id in
      ground (arith, fetch-insert j.audit_entry db.audit key key entry, ==_refl key)

module _ {T G : Type 0} ⦃r : Redb T⦄ ⦃j : Json⦄ ⦃aead : Aead⦄ ⦃hex : Hex⦄ (mesh : Mesh G)
    (mgr : TenantManager) (out : Outside) (headers : Authorization) (body : Option EnrollRequest)
    (o a : Text) (db : Db T) where
  abbrev pub since : ℕ
  since = out.request_ms - 3_600_000

  abbrev pub entry_of : Verdict → EnrollmentAuditEntry
  entry_of v = build_audit out.audit_ms (generate_id out.audit_rng) o a v.1.0 v.1.1 v.0

  -- The database with the entry of a verdict, unless the store does not take it.
  abbrev pub audited : Verdict → Db T → Db T
  audited v db₁ = if mgr.store.appends_audit then Identity.append_audit db₁ (entry_of v) else db₁

  abbrev pub response_to : Verdict → Db T → EnrollmentResponse
  response_to v db₂ =
      let issued = try_issue_certificate mesh mgr o a v.0 body db₂ in
      record {
        decision = v.0;
        audit_id = generate_id out.audit_rng;
        certificate = issued.0;
        mesh_id = issued.1.0;
        authority_public_key = issued.1.1;
      }

  -- A request that passed the checks of the handler, with its verdict.
  pub record IsGranted (v : Verdict) (db₁ : Db T) : Type 0 where
    pub org : Organization
    pub formation : FormationConfig
    pub recent : ℕ
    pub org_found : Backend.get_org db o ≡ ok (some org)
    pub formation_found : Backend.get_formation db o a ≡ ok (some formation)
    pub counted : (count_recent_enrollments o since db).0 ≡ ok recent
    pub below_limit : as_u32 recent < org.quotas.max_enrollments_per_hour
    pub grounded : IsGrounded out o a headers body db formation.enrollment_policy v db₁

  pub finish_lem :
      (v : Verdict) (db₁ : Db T)
      → (tier : MeshTier) (permissions : ℕ) → v.0 ≡ approved tier permissions
      → finish mesh mgr out body o a v db₁ ≡ (ok (response_to v (audited v db₁)), audited v db₁)
  unfolding finish append_audit
  finish_lem (d, rest) db₁ tier permissions e = elim (Bool-cases mgr.store.appends_audit) [
    | inl taken ↦ simp (taken, e) refl
    | inr lost ↦ simp (lost, e) refl
  ]

  pub enroll_cases :
      (P : Result EnrollmentResponse × Db T → Type 0)
      → ((e : Error) → P (err e, db))
      → ((v : Verdict) (db₁ : Db T)
          → IsGranted v db₁
          → P (ok (response_to v (audited v db₁)), audited v db₁))
      → P (enroll mesh mgr out headers body o a db)
  unfolding enroll get_org get_formation
  enroll_cases P bad good = elim (Result-cases (Backend.get_org db o)) [
    | inl (e, q) ↦ rw q (bad bad_request)
    | inr (none, q) ↦ rw q (bad bad_request)
    | inr (some org, q) ↦ rw q (elim (Result-cases (Backend.get_formation db o a)) [
      | inl (e, qf) ↦ rw qf (bad bad_request)
      | inr (none, qf) ↦ rw qf (bad bad_request)
      | inr (some f, qf) ↦ rw qf (elim (Result-cases (validate_body body)) [
        | inl (e, qb) ↦ rw qb (bad e)
        | inr (u, qb) ↦
            rw (qb, count_recent_enrollments-state o since db)
              (elim (Result-cases (count_recent_enrollments o since db).0) [
                | inl (e, qc) ↦ rw qc (bad internal)
                | inr (recent, qc) ↦
                    rw qc
                      (elim (Bool-cases (leb org.quotas.max_enrollments_per_hour (as_u32 recent))) [
                        | inl full ↦ simp full (bad too_many_requests)
                        | inr room ↦ simp room (elim (Bool-cases (is_strict f.enrollment_policy)) [
                          | inl closed ↦ simp closed (bad forbidden)
                          | inr lenient ↦ simp lenient (
                              decide_cases out o a headers body db
                                (λ q. P (continue q.0 (λ v. finish mesh mgr out body o a v) q.1))
                                f.enrollment_policy bad
                                λ v db₁ g. rw (finish_lem v db₁ g.tier g.permissions g.approves) (
                                  good v db₁ (record {
                                    org = org;
                                    formation = f;
                                    recent = recent;
                                    org_found = q;
                                    formation_found = qf;
                                    counted = qc;
                                    below_limit = ground arith;
                                    grounded = g;
                                  })))
                        ])
                      ])
              ])
      ])
    ])
  ]

  -- The database has the entry that tells of the verdict, under the identifier of the response, and
  -- nothing else new; or the store did not take the entry, and the database has nothing new.
  abbrev pub IsAudited : Verdict → Db T → EnrollmentResponse → Db T → Type 0
  IsAudited v db₁ response db₂ =
      ((mgr.store.appends_audit ≡ true)
        × (db₂ ≡ Identity.append_audit db₁ (entry_of v))
        × (fetch j.audit_entry db₂.audit (audit_key o out.audit_ms response.audit_id)
            ≡ ok (some (entry_of v))))
      ⊎ ((mgr.store.appends_audit ≡ false) × (db₂ ≡ db₁))

  audited-IsAudited :
      (v : Verdict) (db₁ : Db T) (response : EnrollmentResponse)
      → response.audit_id ≡ generate_id out.audit_rng
      → IsAudited v db₁ response (audited v db₁)
  unfolding build_audit generate_id
  audited-IsAudited v db₁ response named = elim (Bool-cases mgr.store.appends_audit) [
    | inl taken ↦ simp taken (inl (refl, refl, rw named (fetch-append_audit db₁ (entry_of v))))
    | inr lost ↦ simp lost (inr (refl, refl))
  ]

  -- If an enrollment succeeds, then the organisation and the formation exist, the count of the
  -- enrollments of the last hour, taken as a u32, is below the organisation's limit, and the
  -- decision has the grounds that the formation's policy asks for: none for an open formation, a
  -- usable token of that formation, whose use is counted, or claims that an enabled identity
  -- provider of the organisation vouches for, judged by the organisation's rules; a strict
  -- formation admits nobody. The answer carries that decision, and the database gains exactly
  -- the audit entry that tells of it, besides the counted use, or only the counted use where the
  -- store does not take the entry.
  pub enroll-ok :
      (response : EnrollmentResponse)
      → (enroll mesh mgr out headers body o a db).0 ≡ ok response
      → (v : Verdict) × (db₁ : Db T) × IsGranted v db₁
        × (response.decision ≡ v.0)
        × IsAudited v db₁ response (enroll mesh mgr out headers body o a db).1
  enroll-ok response =
      enroll_cases
        (λ q.
          q.0 ≡ ok response
          → (v : Verdict) × (db₁ : Db T) × IsGranted v db₁
            × (response.decision ≡ v.0)
            × IsAudited v db₁ response q.1)
        (λ e bad. absurd cc)
        λ v db₁ g h.
          let same : response_to v (audited v db₁) ≡ response = cc in
          let named : response.audit_id ≡ generate_id out.audit_rng =
            ap (λ (x : EnrollmentResponse). x.audit_id) (sym same) in
          (
            v,
            db₁,
            g,
            ap (λ (x : EnrollmentResponse). x.decision) (sym same),
            audited-IsAudited v db₁ response named,
          )

  -- A refused enrollment leaves the database as it was: no use of a token is counted, and no
  -- audit entry is written.
  pub enroll-err :
      (e : Error)
      → (enroll mesh mgr out headers body o a db).0 ≡ err e
      → (enroll mesh mgr out headers body o a db).1 ≡ db
  enroll-err e = enroll_cases (λ q. q.0 ≡ err e → q.1 ≡ db) (λ x h. refl) λ v db₁ g h. absurd cc
