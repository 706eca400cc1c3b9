-- ===== src/Crypto/Envelope/RoundTrip.antt =====
-- crypto/mod.rs: `open` undoes `seal`, for every provider that keeps data keys.
use peat_gateway.Base.{
  ◌&&◌, ◌==◌, leb, ==_refl, Result-cases, drop-add-append, ℕ, ◌+◌, ◌/◌, ◌%◌, ◌≤◌, ◌≡◌, Bytes, true,
  some, ◌∷◌, ◌++◌, ok, arith, length, take, drop, length-append, take-append, drop-append,
  Option-cases, inl, inr, ap, sym, subst, ◌∙◌,
}
use peat_gateway.Crypto.Interfaces.{Aead, KeyProvider, KeepsDeks, random_bytes, length-random_bytes}
use peat_gateway.Crypto.Envelope.{
  to_le_bytes, Draws, magic, version, fixed_header, assemble, slice, from_le_bytes, is_envelope,
  seal, open_envelope,
}

abbrev header : ℕ → Bytes
header n = magic ++ (version ∷ to_le_bytes n)

-- The length of the wrapped DEK survives its two bytes.
from_le_bytes-to_le_bytes : (n : ℕ) → n ≤ 65535 → from_le_bytes (n % 256) (n / 256) ≡ n
from_le_bytes-to_le_bytes n h = omega arith

module _ (wrapped nonce cipher : Bytes) where
  length-assemble :
      length nonce ≡ 12
      → length (assemble wrapped nonce cipher) ≡ 19 + length wrapped + length cipher
  length-assemble h =
      omega (arith, length-append wrapped (nonce ++ cipher), length-append nonce cipher)

  slice-wrapped : slice (assemble wrapped nonce cipher) 7 (7 + length wrapped) ≡ wrapped
  unfolding slice
  slice-wrapped =
      ap (λ n. take n (wrapped ++ (nonce ++ cipher))) (omega arith) ∙ take-append wrapped _

  drop-assemble :
      (k : ℕ)
      → drop (7 + length wrapped + k) (assemble wrapped nonce cipher) ≡ drop k (nonce ++ cipher)
  drop-assemble k =
      ap (λ n. drop n (assemble wrapped nonce cipher)) (omega arith)
      ∙ drop-add-append (header (length wrapped)) (wrapped ++ (nonce ++ cipher))
          (length wrapped + k)
      ∙ drop-add-append wrapped (nonce ++ cipher) k

  slice-nonce :
      length nonce ≡ 12
      → slice (assemble wrapped nonce cipher) (7 + length wrapped) (7 + length wrapped + 12) ≡ nonce
  unfolding slice
  slice-nonce h =
      ap (λ n. take n (drop (7 + length wrapped) (assemble wrapped nonce cipher))) (omega arith)
      ∙ ap (λ n. take (length nonce) (drop n (assemble wrapped nonce cipher))) (omega arith)
      ∙ ap (take (length nonce)) (drop-assemble 0)
      ∙ take-append nonce cipher

  drop-cipher :
      length nonce ≡ 12 → drop (7 + length wrapped + 12) (assemble wrapped nonce cipher) ≡ cipher
  drop-cipher h =
      drop-assemble 12 ∙ ap (λ n. drop n (nonce ++ cipher)) (sym h) ∙ drop-append nonce cipher

-- What a successful `seal` has done.
module _ ⦃aead : Aead⦄ (p : KeyProvider) (d : Draws) (plain e : Bytes) where
  seal_inv :
      seal p d plain ≡ ok e
      → (wrapped : Bytes) × (cipher : Bytes) × (p.wrap_dek d.wrapping (random_bytes 32 d.dek)
          ≡ ok wrapped)
        × (aead.encrypt (random_bytes 32 d.dek) (random_bytes 12 d.data_nonce) plain ≡ some cipher)
        × (length wrapped ≤ 65535)
        × (e ≡ assemble wrapped (random_bytes 12 d.data_nonce) cipher)
  unfolding seal
  seal_inv h = elim (Result-cases (p.wrap_dek d.wrapping (random_bytes 32 d.dek))) [
    | inl (x, bad) ↦ absurd (ground (arith, length-random_bytes 32 d.dek))
    | inr (wrapped, good) ↦
        elim (Option-cases
          (aead.encrypt (random_bytes 32 d.dek) (random_bytes 12 d.data_nonce) plain)) [
            | inl bad ↦ absurd (ground (arith, length-random_bytes 32 d.dek))
            | inr (cipher, enc) ↦ (
              wrapped,
              cipher,
              good,
              enc,
              ground (arith, length-random_bytes 32 d.dek),
              ground (arith, length-random_bytes 32 d.dek),
            )
          ]
  ]

module _ ⦃aead : Aead⦄ (p : KeyProvider) (wrapped nonce cipher dek plain : Bytes) where
  open_envelope-assemble :
      p.unwrap_dek wrapped ≡ ok dek
      → length dek ≡ 32
      → length nonce ≡ 12
      → length wrapped ≤ 65535
      → 16 ≤ length cipher
      → aead.decrypt dek nonce cipher ≡ some plain
      → open_envelope p (assemble wrapped nonce cipher) ≡ ok (some plain)
  unfolding open_envelope
  open_envelope-assemble hu hd hn hw hc hp = ground (
    arith,
    length-assemble wrapped nonce cipher hn,
    from_le_bytes-to_le_bytes (length wrapped) hw,
    slice-wrapped wrapped nonce cipher,
    slice-nonce wrapped nonce cipher hn,
    drop-cipher wrapped nonce cipher hn,
    ==_refl magic,
  )

module _ ⦃aead : Aead⦄ (p : KeyProvider) (contract : KeepsDeks p) where
  -- For a key provider whose unwrap_dek undoes its wrap_dek on keys of 32 bytes, whatever seal
  -- has sealed opens to the bytes that were sealed, and is_envelope recognises it.
  pub open_envelope-seal :
      (d : Draws) (plain e : Bytes)
      → seal p d plain ≡ ok e
      → (open_envelope p e ≡ ok (some plain)) × (is_envelope e ≡ true)
  unfolding is_envelope
  open_envelope-seal d plain e h =
      let (wrapped, cipher, hw, hc, fits, eq) = seal_inv p d plain e h in
      let nonce = random_bytes 12 d.data_nonce in
      let opened =
        open_envelope-assemble p wrapped nonce cipher (random_bytes 32 d.dek) plain
          (contract.unwrap-wrap_dek d.wrapping _ wrapped (length-random_bytes 32 d.dek) hw)
          (length-random_bytes 32 d.dek) (length-random_bytes 12 d.data_nonce) fits
          (omega (arith, aead.length-encrypt _ nonce plain cipher hc))
          (aead.decrypt-encrypt _ nonce plain cipher hc) in
      let long = length-assemble wrapped nonce cipher (length-random_bytes 12 d.data_nonce) in
      (
        subst (λ x. open_envelope p x ≡ ok (some plain)) (sym eq) opened,
        subst (λ x. (leb fixed_header (length x) && take 4 x == magic) ≡ true) (sym eq)
            (ground (arith, long, ==_refl magic)),
      )
