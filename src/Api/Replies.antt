-- ===== src/Api/Replies.antt =====
-- api/: what the admin handlers take from their surroundings, and what they answer.
use peat_gateway.Base.{ℕ, Text, Bool, Option, none, some, List, Exec, Result, ok, err}
use peat_gateway.Crypto.Interfaces.{Rng}
use peat_gateway.Crypto.Envelope.{Draws}
use peat_gateway.Tenant.Models.{
  Organization, FormationConfig, EnrollmentToken, CdcSinkConfig, IdpConfigResponse, PolicyRule,
  EnrollmentAuditEntry, PeerInfo,
}

-- The clock and the random bytes that a request meets.
pub record Ambient : Type 0 where
  pub now : ℕ
  pub rng : Rng
  pub genesis_rng : Rng
  pub draws : Draws

-- `axum::http::StatusCode` of an answer that is no error. A plain `Json(…)` or `()` goes with
-- `success`.
pub data StatusCode : Type 0 where
  success created : StatusCode

-- `DocumentSummary` and `CertificateSummary` of api/formations.rs
pub record DocumentSummary : Type 0 where
  pub doc_id : Text
  pub key_count : ℕ
  pub last_modified : ℕ

pub record CertificateSummary : Type 0 where
  pub peer_id : Text
  pub fingerprint : Text
  pub issued_at : ℕ
  pub expires_at : ℕ
  pub revoked : Bool

-- What is serialised into the body.
pub data Body : Type 0 where
  no_body : Body
  one_org : Organization → Body
  many_orgs : List Organization → Body
  one_formation : FormationConfig → Body
  many_formations : List FormationConfig → Body
  one_token : EnrollmentToken → Body
  many_tokens : List EnrollmentToken → Body
  one_sink : CdcSinkConfig → Body
  many_sinks : List CdcSinkConfig → Body
  one_idp : IdpConfigResponse → Body
  many_idps : List IdpConfigResponse → Body
  one_rule : PolicyRule → Body
  many_rules : List PolicyRule → Body
  audit_entries : List EnrollmentAuditEntry → Body
  peers : List PeerInfo → Body
  documents : List DocumentSummary → Body
  certificates : List CertificateSummary → Body

abbrev pub Reply : Type 0
Reply = StatusCode × Body

-- `Result::map`
abbrev pub map_ok : {A B : Type 0} → (A → B) → Result A → Result B
map_ok f (ok a) = ok (f a)
map_ok f (err e) = err e

module _ {S A B : Type 0} where
  -- `.map(f)` on the outcome of a method
  abbrev pub returning : (A → B) → Exec S A → Exec S B
  returning f m s = let (q, s') = m s in (map_ok f q, s')

-- A field with `#[serde(default = …)]` is an option here: what the body has, if it has it.
abbrev pub or_default : {A : Type 0} → A → Option A → A
or_default d none = d
or_default d (some a) = a
