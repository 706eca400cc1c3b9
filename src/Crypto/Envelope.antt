-- ===== src/Crypto/Envelope.antt =====
-- crypto/mod.rs: the envelope format, `seal` and `open`.
pub mod RoundTrip
pub mod Malformed
use peat_gateway.Base.{
  ℕ, zero, suc, ◌+◌, ◌*◌, ◌/◌, ◌%◌, Text, Bytes, codes, ◌==◌, Bool, ◌&&◌, ◌||◌, not, ◌-◌, Option,
  none, some, List, [], ◌∷◌, ◌++◌, Result, ok, err, ok_or, and_then, unsupported_version, truncated,
  bad_dek_length, dek_too_long, aead_failed, provider_failed, length, take, drop, ltb, leb, nat_eq,
  if◌then◌else◌,
}
use peat_gateway.Crypto.Interfaces.{Aead, KeyProvider, Rng, random_bytes}

abbrev pub magic : Bytes
magic = codes "PENV"

abbrev pub version : ℕ
version = 0x01

-- magic, version and the length of the wrapped DEK
abbrev pub fixed_header : ℕ
fixed_header = 4 + 1 + 2

-- `u16::to_le_bytes` and `u16::from_le_bytes`
abbrev pub to_le_bytes : ℕ → Bytes
to_le_bytes n = (n % 256) ∷ (n / 256) ∷ []

abbrev pub from_le_bytes : ℕ → ℕ → ℕ
from_le_bytes lo hi = lo + hi * 256

-- `data[i]`, where the code has checked that `i` is in range
abbrev pub byte_at : Bytes → ℕ → ℕ
byte_at [] i = 0
byte_at (b ∷ bs) zero = b
byte_at (b ∷ bs) (suc i) = byte_at bs i

-- `&data[from..to]`
unfoldable pub slice : Bytes → ℕ → ℕ → Bytes
slice d from to = take (to - from) (drop from d)

-- `Aes256Gcm::new_from_slice`, which wants 32 bytes
abbrev pub new_from_slice : Bytes → Result Bytes
new_from_slice key = if nat_eq (length key) 32 then ok key else err aead_failed

unfoldable pub is_envelope : Bytes → Bool
is_envelope d = leb fixed_header (length d) && take 4 d == magic

abbrev pub assemble : Bytes → Bytes → Bytes → Bytes
assemble wrapped nonce cipher =
    magic ++ (version ∷ (to_le_bytes (length wrapped) ++ (wrapped ++ (nonce ++ cipher))))

-- The random numbers that one call of `seal` draws.
pub record Draws : Type 0 where
  pub dek : Rng
  pub data_nonce : Rng
  pub wrapping : Rng

module _ ⦃aead : Aead⦄ where
  unfoldable pub seal : KeyProvider → Draws → Bytes → Result Bytes
  seal provider draws plain =
      let dek = random_bytes 32 draws.dek in
      let nonce = random_bytes 12 draws.data_nonce in
      and_then (provider.wrap_dek draws.wrapping dek) λ wrapped.
        if ltb 65535 (length wrapped)
        then err dek_too_long
        else and_then (new_from_slice dek) λ key.
          and_then (ok_or (aead.encrypt key nonce plain) aead_failed)
            λ cipher. ok (assemble wrapped nonce cipher)

  -- `crypto::open`; `none` says that the data is no envelope.
  unfoldable pub open_envelope : KeyProvider → Bytes → Result (Option Bytes)
  open_envelope provider d =
      if ltb (length d) fixed_header || not (take 4 d == magic)
      then ok none
      else if not (nat_eq (byte_at d 4) version)
      then err unsupported_version
      else let wrapped_end = fixed_header + from_le_bytes (byte_at d 5) (byte_at d 6) in
        let nonce_end = wrapped_end + 12 in
        if ltb (length d) (nonce_end + 16)
        then err truncated
        else and_then (provider.unwrap_dek (slice d fixed_header wrapped_end)) λ dek.
          if not (nat_eq (length dek) 32)
          then err bad_dek_length
          else and_then (new_from_slice dek) λ key.
            and_then
              (ok_or (aead.decrypt key (slice d wrapped_end nonce_end) (drop nonce_end d))
                aead_failed)
              λ plain. ok (some plain)
