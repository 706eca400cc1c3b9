-- ===== src/Tenant/Validate/Identifiers.antt =====
-- tenant/manager.rs: what `validate_identifier` accepts.
use peat_gateway.Base.{ℕ, ◌≤◌, Text, true, [], ◌∷◌, ◌≡◌, ◌↔◌, ◌⊎◌, arith, ok, length, all}
use peat_gateway.Storage.Keys.Prefixes.{NulFree}
use peat_gateway.Tenant.Validate.{validate_identifier, is_identifier_byte}

-- `[a-zA-Z0-9]`
abbrev pub IsAlphanumeric : ℕ → Type 0
IsAlphanumeric c =
    ((b'0' ≤ c) × (c ≤ b'9')) ⊎ (((b'A' ≤ c) × (c ≤ b'Z')) ⊎ ((b'a' ≤ c) × (c ≤ b'z')))

-- `[a-zA-Z0-9._-]*`
abbrev pub IsTail : Text → Type 0
IsTail [] = Unit {0}
IsTail (c ∷ s) = (IsAlphanumeric c ⊎ ((c ≡ b'.') ⊎ ((c ≡ b'_') ⊎ (c ≡ b'-')))) × IsTail s

-- `^[a-zA-Z0-9][a-zA-Z0-9._-]*$`, at most 128 bytes
abbrev pub IsIdentifier : Text → Type 0
IsIdentifier [] = ⊥
IsIdentifier (c ∷ s) = IsAlphanumeric c × IsTail s × (length (c ∷ s) ≤ 128)

IsTail-sound : (s : Text) → all is_identifier_byte s ≡ true → IsTail s
IsTail-sound [] h = tt
IsTail-sound (c ∷ s) h = (ground arith, IsTail-sound s (ground arith))

IsTail-complete : (s : Text) → IsTail s → all is_identifier_byte s ≡ true
IsTail-complete [] h = ground arith
IsTail-complete (c ∷ s) h = ground (arith, IsTail-complete s h.1)

-- The function validate_identifier accepts exactly the texts of the documented pattern: a letter
-- or digit, then letters, digits, dots, underscores and hyphens, 128 bytes at most.
pub validate_identifier_iff : (s : Text) → (validate_identifier s ≡ ok tt) ↔ IsIdentifier s
unfolding validate_identifier
validate_identifier_iff [] = (λ h. cc, λ h. absurd h)
validate_identifier_iff (c ∷ s) = (
  λ h. (ground arith, IsTail-sound s (ground arith), ground arith),
  λ h. ground (arith, IsTail-complete s h.1),
)

tail-NulFree : (s : Text) → IsTail s → NulFree s
tail-NulFree [] h = tt
tail-NulFree (c ∷ s) h = (ground arith, tail-NulFree s h.1)

-- An identifier that passed validate_identifier has no zero byte, so the composite keys made
-- with it cannot be mistaken for others.
pub validate_identifier-NulFree : (s : Text) → validate_identifier s ≡ ok tt → NulFree s
validate_identifier-NulFree [] h = tt
validate_identifier-NulFree (c ∷ s) h =
    let v : IsIdentifier (c ∷ s) = (validate_identifier_iff (c ∷ s)).0 h in
    (ground arith, tail-NulFree s v.1)
