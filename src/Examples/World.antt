-- ===== src/Examples/World.antt =====
-- A cipher, a hexadecimal coding, a mesh and a key provider to run the development with.
use peat_gateway.Base.{
  true, ◌-◌, ◌+◌, ◌≡◌, refl, Text, Bytes, codes, Option, some, ◌++◌, length, take, arith,
  length-append, take-append, ap, ◌∙◌, subst,
}
use peat_gateway.Crypto.Interfaces.{Aead, Hex, Rng, KeyProvider, KeepsDeks, KeepsContract-KeepsDeks}
use peat_gateway.Crypto.Envelope.{Draws}
use peat_gateway.Crypto.Local.{local_provider, local_provider-KeepsContract}
use peat_gateway.Tenant.Mesh.{Mesh}
use peat_gateway.Tenant.Manager.{TenantManager, Writable}

-- the sixteen bytes that the cipher appends
abbrev tag : Bytes
tag = codes "0123456789abcdef"

abbrev seal_bytes : Bytes → Bytes → Bytes → Option Bytes
seal_bytes key nonce plain = some (plain ++ tag)

abbrev open_bytes : Bytes → Bytes → Bytes → Option Bytes
open_bytes key nonce cipher = some (take (length cipher - 16) cipher)

pub open-seal_bytes :
    (key nonce plain cipher : Bytes)
    → seal_bytes key nonce plain ≡ some cipher
    → open_bytes key nonce cipher ≡ some plain
open-seal_bytes key nonce plain cipher h =
    let same : plain ++ tag ≡ cipher = cc in
    subst (λ c. open_bytes key nonce c ≡ some plain) same
      (ap (λ n. some (take n (plain ++ tag))) {y = length plain}
          (omega (arith, length-append plain tag))
        ∙ ap some (take-append plain tag))

pub length-seal_bytes :
    (key nonce plain cipher : Bytes)
    → seal_bytes key nonce plain ≡ some cipher
    → length cipher ≡ length plain + 16
length-seal_bytes key nonce plain cipher h =
    let same : plain ++ tag ≡ cipher = cc in
    subst (λ c. length c ≡ length plain + 16) same (length-append plain tag)

instance abbrev pub tagging : Aead
tagging = record {
  encrypt = seal_bytes;
  decrypt = open_bytes;
  decrypt-encrypt = open-seal_bytes;
  length-encrypt = length-seal_bytes;
}

instance abbrev pub plain_hex : Hex
plain_hex = record { encode = λ b. b; decode = λ t. some t; decode-encode = λ b. refl }

-- A genesis is the name of its formation.
abbrev pub named_mesh : Mesh Text
named_mesh = record {
  create = λ rng name policy. name;
  mesh_id = λ g. codes "mesh-" ++ g;
  authority_public_key = λ g. g;
  encode = λ g. g;
  decode = λ b. some b;
  decode-encode = λ g. refl;
  root_certificate = λ g node. record {
    subject_public_key = g;
    node_id = node;
    issued_at_ms = 1;
    expires_at_ms = 2;
  };
  issue_certificate = λ g pk node tier perms validity. g ++ node;
  bits = record { relay_bit = 1; emergency_bit = 2; enroll_bit = 4; admin_bit = 8 };
}

abbrev pub counting : Rng
counting n = n

abbrev pub draws : Draws
draws = record { dek = counting; data_nonce = counting; wrapping = counting }

abbrev pub kek : Bytes
kek = codes "0123456789abcdef0123456789abcdef"

abbrev pub provider : KeyProvider
provider = local_provider kek

abbrev pub all_writable : Writable
all_writable = record {
  creates_formation = true;
  stores_genesis = true;
  deletes_formation = true;
  deletes_genesis = true;
  appends_audit = true;
}

abbrev pub mgr : TenantManager
mgr = record { store = all_writable; key_provider = provider; encrypt_enabled = true }

pub provider-KeepsDeks : KeepsDeks provider
provider-KeepsDeks = KeepsContract-KeepsDeks provider (local_provider-KeepsContract kek)
