-- ===== src/Crypto/Build.antt =====
-- crypto/mod.rs: `build_key_provider`, which picks a key provider from the configuration.
use peat_gateway.Base.{
  ◌∙◌, ap, sym, if_cases, subst, Text, codes, Bool, true, false, Option, none, some, Result, ok,
  err, and_then, ok_or, feature_missing, missing_vault_token, if◌then◌else◌, ◌≡◌, ◌⊎◌, inl, inr,
  refl, Result-cases,
}
use peat_gateway.Crypto.Interfaces.{Aead, Hex, KeyProvider, KeepsDeks, KeepsContract-KeepsDeks}
use peat_gateway.Crypto.Local.{
  plaintext_provider, local_provider, from_hex, local_provider-KeepsContract,
}
use peat_gateway.Crypto.External.{
  KmsOps, kms_provider, Base64, Server, IsTransit, vault_provider, vault_provider-KeepsDeks, new,
}
use peat_gateway.Config.{GatewayConfig}

-- The features of the build, and the services that answer.
pub record Services : Type 0 where
  pub aws_kms : Bool
  pub vault : Bool
  pub kms_ops : KmsOps
  pub server : Server

-- `config.vault_transit_key.as_deref().unwrap_or("peat-gateway")`
abbrev pub transit_key : Option Text → Text
transit_key none = codes "peat-gateway"
transit_key (some key_name) = key_name

module _ ⦃aead : Aead⦄ ⦃hex : Hex⦄ ⦃b64 : Base64⦄ (services : Services) where
  unfoldable pub build_kms : Text → Result (KeyProvider × Bool)
  build_kms arn =
      if services.aws_kms then ok (kms_provider services.kms_ops arn, true) else err feature_missing

  unfoldable pub build_vault : Text → Option Text → Option Text → Result (KeyProvider × Bool)
  build_vault addr vault_token vault_transit_key =
      if services.vault
      then and_then (ok_or vault_token missing_vault_token) (λ token.
        ok (vault_provider services.server (new addr token (transit_key vault_transit_key)), true))
      else err feature_missing

  unfoldable pub build_local : Text → Result (KeyProvider × Bool)
  build_local kek_hex = and_then (from_hex kek_hex) λ kek. ok (local_provider kek, true)

  -- The first of `kms_key_arn`, `vault_addr` and `kek` that is set decides.
  unfoldable pub build_with :
      Option Text
      → Option Text
      → Option Text
      → Option Text
      → Option Text
      → Result (KeyProvider × Bool)
  unfolding build_kms build_vault build_local
  build_with (some arn) vault_addr vault_token key_name kek = build_kms arn
  build_with none (some addr) vault_token key_name kek = build_vault addr vault_token key_name
  build_with none none vault_token key_name (some kek_hex) = build_local kek_hex
  build_with none none vault_token key_name none = ok (plaintext_provider, false)

  unfoldable pub build_key_provider : GatewayConfig → Result (KeyProvider × Bool)
  unfolding build_with
  build_key_provider config =
      build_with config.kms_key_arn config.vault_addr config.vault_token config.vault_transit_key
        config.kek

  -- The services decrypt what they encrypted.
  abbrev pub AreFaithful : Type 0
  AreFaithful =
      ((key_id : Text) → KeepsDeks (kms_provider services.kms_ops key_id))
      × ((addr token key_name : Text) → IsTransit services.server (new addr token key_name))

  -- Nothing is configured, and encryption is off; or something is, encryption is on, and the
  -- provider keeps data keys.
  abbrev pub Fitting : Option Text → Option Text → Option Text → KeyProvider × Bool → Type 0
  Fitting kms_key_arn vault_addr kek q =
      ((q.1 ≡ false)
        × (q.0 ≡ plaintext_provider)
        × (kms_key_arn ≡ none)
        × (vault_addr ≡ none)
        × (kek ≡ none))
      ⊎ ((q.1 ≡ true) × KeepsDeks q.0)

  fits_enabled :
      (k v l : Option Text) (p : KeyProvider) (q : KeyProvider × Bool)
      → KeepsDeks p
      → ok (p, true) ≡ ok q
      → Fitting k v l q
  fits_enabled k v l p q keeps h =
      let e : (p, true) ≡ q = cc in subst (Fitting k v l) e (inr (refl, keeps))

  build_with-Fitting :
      (k v t n l : Option Text) (q : KeyProvider × Bool)
      → AreFaithful
      → build_with k v t n l ≡ ok q
      → Fitting k v l q
  unfolding build_with build_kms build_vault build_local
  build_with-Fitting (some arn) v t n l q faithful =
      if_cases services.aws_kms (λ m. m ≡ ok q → Fitting (some arn) v l q)
        (λ on h. fits_enabled (some arn) v l _ q (faithful.0 arn) h) (λ off h. absurd cc)
  build_with-Fitting none (some addr) none n l q faithful =
      if_cases services.vault (λ m. m ≡ ok q → Fitting none (some addr) l q) (λ on h. absurd cc)
        (λ off h. absurd cc)
  build_with-Fitting none (some addr) (some token) n l q faithful =
      if_cases services.vault (λ m. m ≡ ok q → Fitting none (some addr) l q)
        (λ on h.
          fits_enabled none (some addr) l _ q
            (vault_provider-KeepsDeks services.server _ (faithful.1 addr token (transit_key n))) h)
        (λ off h. absurd cc)
  build_with-Fitting none none t n (some kek_hex) q faithful = λ h.
      elim (Result-cases (from_hex kek_hex)) [
        | inl (e, bad) ↦ absurd (
            let x : err e ≡ ok q =
              sym (ap (λ m. and_then m (λ kek. ok (local_provider kek, true))) bad) ∙ h in
            cc)
        | inr (kek, good) ↦
            fits_enabled none none (some kek_hex) (local_provider kek) q
              (KeepsContract-KeepsDeks _ (local_provider-KeepsContract kek))
              (sym (ap (λ m. and_then m (λ kek. ok (local_provider kek, true))) good) ∙ h)
      ]
  build_with-Fitting none none t n none q faithful = λ h.
      let e : (plaintext_provider, false) ≡ q = cc in
      subst (Fitting none none none) e (inl (refl, refl, refl, refl, refl))

  -- A successful build_key_provider leaves encryption off, with the provider that refuses, only
  -- where none of a KMS key, a Vault server and a local key is configured; otherwise encryption
  -- is on, and unwrap_dek undoes wrap_dek on keys of 32 bytes, given that AWS KMS and Vault
  -- decrypt what they encrypted.
  pub build_key_provider-Fitting :
      (config : GatewayConfig) (q : KeyProvider × Bool)
      → AreFaithful
      → build_key_provider config ≡ ok q
      → Fitting config.kms_key_arn config.vault_addr config.kek q
  unfolding build_key_provider
  build_key_provider-Fitting config q faithful h =
      build_with-Fitting config.kms_key_arn config.vault_addr config.vault_token
        config.vault_transit_key config.kek q faithful h
