-- ===== src/Tenant/Models/Permissions.antt =====
-- tenant/models.rs, `mod permissions`: the permission bits of the gateway.
use Prim.Native.Nat.{bit_and, bit_or}
use peat_gateway.Base.{ℕ, not, nat_eq, if◌then◌else◌}

abbrev pub relay : ℕ
relay = 0x01

abbrev pub emergency : ℕ
emergency = 0x02

abbrev pub enroll : ℕ
enroll = 0x04

abbrev pub admin : ℕ
admin = 0x08

-- The bits of the mesh wire format, which the mesh library defines.
pub record MeshBits : Type 0 where
  pub relay_bit : ℕ
  pub emergency_bit : ℕ
  pub enroll_bit : ℕ
  pub admin_bit : ℕ

-- `if perms & flag != 0 { out |= bit }`
abbrev pub narrow : ℕ → ℕ → ℕ → ℕ → ℕ
narrow perms flag bit out = if not (nat_eq (bit_and perms flag) 0) then bit_or out bit else out

unfoldable pub to_mesh : MeshBits → ℕ → ℕ
to_mesh mp perms = narrow perms admin mp.admin_bit (
    narrow perms enroll mp.enroll_bit
      (narrow perms emergency mp.emergency_bit (narrow perms relay mp.relay_bit 0)))
