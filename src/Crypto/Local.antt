-- ===== src/Crypto/Local.antt =====
-- crypto/local.rs: the provider that holds its key itself, and the one that refuses to wrap.
use peat_gateway.Base.{
  ◌+◌, ◌++◌, ◌≡◌, Text, Bytes, some, Result, ok, err, ok_or, and_then, bad_hex, bad_kek_length,
  truncated, provider_failed, length, take, drop, ltb, nat_eq, if◌then◌else◌, arith, take-append,
  drop-append, length-append, not, Option-cases, inl, inr, sym, subst, ◌≤◌,
}
use peat_gateway.Crypto.Interfaces.{
  Aead, Hex, KeyProvider, KeepsContract, Rng, random_bytes, length-random_bytes,
}
use peat_gateway.Crypto.Envelope.{new_from_slice}

-- `PlaintextProvider` of crypto/mod.rs
unfoldable pub plaintext_provider : KeyProvider
plaintext_provider = record {
  wrap_dek = λ g dek. err provider_failed;
  unwrap_dek = λ wrapped. err provider_failed;
}

-- `LocalKeyProvider::from_hex`
unfoldable pub from_hex : ⦃h : Hex⦄ → Text → Result Bytes
from_hex ⦃h⦄ hex_str =
    and_then (ok_or (h.decode hex_str) bad_hex)
      λ bytes. if not (nat_eq (length bytes) 32) then err bad_kek_length else ok bytes

module _ ⦃aead : Aead⦄ where
  unfoldable pub wrap_dek : Bytes → Rng → Bytes → Result Bytes
  wrap_dek kek g dek =
      let nonce = random_bytes 12 g in
      and_then (new_from_slice kek)
        λ key. and_then (ok_or (aead.encrypt key nonce dek) provider_failed) λ ct. ok (nonce ++ ct)

  unfoldable pub unwrap_dek : Bytes → Bytes → Result Bytes
  unwrap_dek kek wrapped =
      if ltb (length wrapped) (12 + 16)
      then err truncated
      else and_then (new_from_slice kek)
          λ key. ok_or (aead.decrypt key (take 12 wrapped) (drop 12 wrapped)) provider_failed

  unfoldable pub local_provider : Bytes → KeyProvider
  unfolding wrap_dek unwrap_dek
  local_provider kek = record { wrap_dek = wrap_dek kek; unwrap_dek = unwrap_dek kek }

  wrap_dek_inv :
      (kek : Bytes) (g : Rng) (dek wrapped : Bytes)
      → wrap_dek kek g dek ≡ ok wrapped
      → (ct : Bytes) × (length kek ≡ 32)
        × (aead.encrypt kek (random_bytes 12 g) dek ≡ some ct)
        × (wrapped ≡ random_bytes 12 g ++ ct)
  unfolding wrap_dek
  wrap_dek_inv kek g dek wrapped h =
      elim (Option-cases (aead.encrypt kek (random_bytes 12 g) dek)) [
        | inl none_e ↦ absurd (ground arith)
        | inr (ct, e) ↦ (ct, ground arith, e, ground arith)
      ]

  unwrap_dek-append :
      (kek nonce ct dek : Bytes)
      → length kek ≡ 32
      → length nonce ≡ 12
      → 16 ≤ length ct
      → aead.decrypt kek nonce ct ≡ some dek
      → unwrap_dek kek (nonce ++ ct) ≡ ok dek
  unfolding unwrap_dek
  unwrap_dek-append kek nonce ct dek hk hn hc h =
      ground (arith, take-append nonce ct, drop-append nonce ct, length-append nonce ct)

  -- The local key provider keeps the contract of the trait, for every key: what wrap_dek has
  -- wrapped, unwrap_dek turns back into the same bytes.
  pub local_provider-KeepsContract : (kek : Bytes) → KeepsContract (local_provider kek)
  unfolding local_provider
  local_provider-KeepsContract kek = record {
    unwrap-wrap = λ g dek wrapped h.
        let (ct, hk, he, e) = wrap_dek_inv kek g dek wrapped h in
        subst (λ w. unwrap_dek kek w ≡ ok dek) (sym e)
          (unwrap_dek-append kek (random_bytes 12 g) ct dek hk (length-random_bytes 12 g)
            (omega (arith, aead.length-encrypt kek _ dek ct he))
            (aead.decrypt-encrypt kek _ dek ct he));
  }
