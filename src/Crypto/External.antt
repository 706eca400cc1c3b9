-- ===== src/Crypto/External.antt =====
-- crypto/kms.rs and crypto/vault.rs: the key providers that ask another service.
use peat_gateway.Base.{
  trim_slashes, Text, Bytes, codes, not, Option, none, some, ◌++◌, Result, ok, err, and_then, ok_or,
  provider_failed, bad_dek_length, length, nat_eq, if◌then◌else◌, ◌≡◌, refl,
}
use peat_gateway.Crypto.Interfaces.{KeyProvider, KeepsDeks}

-- The trait `KmsOps`: `encrypt` with a key's identifier, and `decrypt`.
pub record KmsOps : Type 0 where
  pub encrypt : Text → Bytes → Result Bytes
  pub decrypt : Bytes → Result Bytes

-- `AwsKmsProvider`
unfoldable pub kms_provider : KmsOps → Text → KeyProvider
kms_provider ops key_id = record {
  wrap_dek = λ g dek. ops.encrypt key_id dek;
  unwrap_dek = λ wrapped. ops.decrypt wrapped;
}

-- The crate `base64`.
pub record Base64 : Type 0 where
  pub encode : Bytes → Text
  pub decode : Text → Option Bytes
  pub decode-encode : (b : Bytes) → decode (encode b) ≡ some b

-- What a request comes to: no answer, a status that is no success, or a success with the field
-- that is asked for, if the body has it.
pub data Reply : Type 0 where
  no_reply : Reply
  refused : Reply
  replied : Option Text → Reply

-- A Vault server, as what a POST to a URL with a token and a text in the body comes to, and
-- `std::str::from_utf8`.
pub record Server : Type 0 where
  pub post : Text → Text → Text → Reply
  pub from_utf8 : Bytes → Option Text

pub record VaultTransitProvider : Type 0 where
  pub encrypt_url : Text
  pub decrypt_url : Text
  pub token : Text

unfoldable pub new : Text → Text → Text → VaultTransitProvider
unfolding trim_slashes
new addr token key_name =
    let base = trim_slashes addr in
    record {
      encrypt_url = base ++ (codes "/v1/transit/encrypt/" ++ key_name);
      decrypt_url = base ++ (codes "/v1/transit/decrypt/" ++ key_name);
      token = token;
    }

-- The checks of the status and of the body.
abbrev pub field_of : Reply → Result Text
field_of no_reply = err provider_failed
field_of refused = err provider_failed
field_of (replied none) = err provider_failed
field_of (replied (some t)) = ok t

module _ ⦃b64 : Base64⦄ (server : Server) (vault : VaultTransitProvider) where
  unfoldable pub vault_wrap_dek : Bytes → Result Bytes
  vault_wrap_dek dek = field_of (server.post vault.encrypt_url vault.token (b64.encode dek))

  unfoldable pub vault_unwrap_dek : Bytes → Result Bytes
  vault_unwrap_dek wrapped =
      and_then (ok_or (server.from_utf8 wrapped) provider_failed) λ ciphertext.
        and_then (field_of (server.post vault.decrypt_url vault.token ciphertext)) λ plaintext.
          and_then (ok_or (b64.decode plaintext) provider_failed)
            λ dek. if not (nat_eq (length dek) 32) then err bad_dek_length else ok dek

  unfoldable pub vault_provider : KeyProvider
  unfolding vault_wrap_dek vault_unwrap_dek
  vault_provider = record { wrap_dek = λ g dek. vault_wrap_dek dek; unwrap_dek = vault_unwrap_dek }

  -- The server decrypts what it encrypted, and a ciphertext, which comes in JSON, is UTF-8.
  pub record IsTransit : Type 0 where
    pub decrypts :
        (plaintext ciphertext : Text)
        → server.post vault.encrypt_url vault.token plaintext ≡ replied (some ciphertext)
        → server.post vault.decrypt_url vault.token ciphertext ≡ replied (some plaintext)
    pub is_utf8 :
        (plaintext ciphertext : Text)
        → server.post vault.encrypt_url vault.token plaintext ≡ replied (some ciphertext)
        → server.from_utf8 ciphertext ≡ some ciphertext

  replied_ok : (q : Reply) (t : Text) → field_of q ≡ ok t → q ≡ replied (some t)
  replied_ok no_reply t h = absurd cc
  replied_ok refused t h = absurd cc
  replied_ok (replied none) t h = absurd cc
  replied_ok (replied (some s)) t h = cc

  pub vault_provider-KeepsDeks : IsTransit → KeepsDeks vault_provider
  unfolding vault_provider
  vault_provider-KeepsDeks transit = record {
    unwrap-wrap_dek = λ g dek wrapped n h.
        let asked =
          replied_ok (server.post vault.encrypt_url vault.token (b64.encode dek)) wrapped h in
        rw
          (
            transit.is_utf8 (b64.encode dek) wrapped asked,
            transit.decrypts (b64.encode dek) wrapped asked,
            b64.decode-encode dek,
            n,
          )
          refl;
  }
