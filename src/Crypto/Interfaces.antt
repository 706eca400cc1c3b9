-- ===== src/Crypto/Interfaces.antt =====
-- What crypto/ is given: the crates `aes_gcm` and `hex`, which are not part of the repository, and
-- the trait `KeyProvider` of crypto/mod.rs, whose providers differ.
use peat_gateway.Base.{
  zero, suc, [], ◌∷◌, refl, arith, ℕ, ◌+◌, ◌≡◌, Text, Bytes, Option, some, Result, ok, length,
}

-- `Aes256Gcm`: key, nonce, text. What it documents: decryption undoes encryption under the same
-- key and nonce, and the ciphertext is 16 bytes longer.
pub record Aead : Type 0 where
  pub encrypt : Bytes → Bytes → Bytes → Option Bytes
  pub decrypt : Bytes → Bytes → Bytes → Option Bytes
  pub decrypt-encrypt :
      (key nonce plain cipher : Bytes)
      → encrypt key nonce plain ≡ some cipher
      → decrypt key nonce cipher ≡ some plain
  pub length-encrypt :
      (key nonce plain cipher : Bytes)
      → encrypt key nonce plain ≡ some cipher
      → length cipher ≡ length plain + 16

-- `hex::encode` and `hex::decode`
pub record Hex : Type 0 where
  pub encode : Bytes → Text
  pub decode : Text → Option Bytes
  pub decode-encode : (b : Bytes) → decode (encode b) ≡ some b

-- A source of random bytes, and `OsRng::fill_bytes` on a buffer of `n` bytes.
abbrev pub Rng : Type 0
Rng = ℕ → ℕ

unfoldable pub random_bytes : ℕ → Rng → Bytes
random_bytes zero g = []
random_bytes (suc n) g = g n ∷ random_bytes n g

pub length-random_bytes : (n : ℕ) (g : Rng) → length (random_bytes n g) ≡ n
unfolding random_bytes
length-random_bytes zero g = refl
length-random_bytes (suc n) g = omega (arith, length-random_bytes n g)

-- The trait `KeyProvider`. `wrap_dek` may draw random bytes from its first argument.
pub record KeyProvider : Type 0 where
  pub wrap_dek : Rng → Bytes → Result Bytes
  pub unwrap_dek : Bytes → Result Bytes

-- "The only contract is that `unwrap_dek(wrap_dek(dek))` returns the original DEK."
pub record KeepsContract (p : KeyProvider) : Type 0 where
  pub unwrap-wrap :
      (g : Rng) (dek wrapped : Bytes)
      → p.wrap_dek g dek ≡ ok wrapped
      → p.unwrap_dek wrapped ≡ ok dek

-- The same on data keys, which have 32 bytes.
pub record KeepsDeks (p : KeyProvider) : Type 0 where
  pub unwrap-wrap_dek :
      (g : Rng) (dek wrapped : Bytes)
      → length dek ≡ 32
      → p.wrap_dek g dek ≡ ok wrapped
      → p.unwrap_dek wrapped ≡ ok dek

pub KeepsContract-KeepsDeks : (p : KeyProvider) → KeepsContract p → KeepsDeks p
KeepsContract-KeepsDeks p c = record {
  unwrap-wrap_dek = λ g dek wrapped n h. c.unwrap-wrap g dek wrapped h;
}
