-- ===== src/Crypto/Envelope/Malformed.antt =====
-- crypto/mod.rs: `open` on data that `seal` may not have made.
use peat_gateway.Base.{
  ◌-◌, ◌+◌, ◌≤◌, ◌≡◌, Bytes, false, none, some, ok, arith, length, drop, length-drop, length-take,
  ◌↔◌,
}
use peat_gateway.Crypto.Interfaces.{Aead, KeyProvider}
use peat_gateway.Crypto.Envelope.{byte_at, from_le_bytes, is_envelope, open_envelope, slice}

module _ ⦃aead : Aead⦄ (p : KeyProvider) (d : Bytes) where
  -- The function open answers that its data is no envelope exactly on the data that is_envelope
  -- rejects.
  pub open_envelope-none_iff : (open_envelope p d ≡ ok none) ↔ (is_envelope d ≡ false)
  unfolding open_envelope is_envelope
  open_envelope-none_iff = (λ h. ground arith, λ h. ground arith)

  -- When open returns a plaintext, the three slices that it took lay inside the data: the
  -- wrapped key has its announced length, the nonce has 12 bytes, and the ciphertext at least
  -- 16.
  pub open_envelope_in_bounds :
      (plain : Bytes)
      → open_envelope p d ≡ ok (some plain)
      → let n = from_le_bytes (byte_at d 5) (byte_at d 6) in
        (length (slice d 7 (7 + n)) ≡ n)
        × (length (slice d (7 + n) (7 + n + 12)) ≡ 12)
        × (16 ≤ length (drop (7 + n + 12) d))
  unfolding open_envelope slice
  open_envelope_in_bounds plain h =
      let n = from_le_bytes (byte_at d 5) (byte_at d 6) in
      let fits : 7 + n + 12 + 16 ≤ length d = ground arith in
      (
        omega (arith, length-take (7 + n - 7) (drop 7 d), length-drop 7 d),
        omega (arith, length-take (7 + n + 12 - (7 + n)) (drop (7 + n) d), length-drop (7 + n) d),
        omega (arith, length-drop (7 + n + 12) d),
      )
