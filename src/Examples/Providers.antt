-- ===== src/Examples/Providers.antt =====
-- Runs of the theorem on the choice of a key provider.
use peat_gateway.Base.{sym, ◌≡◌, Bool, codes, refl, ok, some, none, true, false, []}
use peat_gateway.Config.{GatewayConfig, redb}
use peat_gateway.Crypto.Interfaces.{KeyProvider}
use peat_gateway.Crypto.External.{
  vault_provider, Base64, KmsOps, Server, replied, kms_provider, new,
}
use peat_gateway.Crypto.Build.{
  build_vault, build_with, Services, build_key_provider, AreFaithful, Fitting,
  build_key_provider-Fitting,
}
use peat_gateway.Examples.World.{tagging, plain_hex}

instance abbrev pub plain_base64 : Base64
plain_base64 = record { encode = λ b. b; decode = λ t. some t; decode-encode = λ b. refl }

-- A server that answers with what it is sent.
abbrev echo : Server
echo = record { post = λ url token body. replied (some body); from_utf8 = λ b. some b }

abbrev identity_kms : KmsOps
identity_kms = record { encrypt = λ key_id b. ok b; decrypt = λ b. ok b }

abbrev pub services : Services
services = record { aws_kms = false; vault = true; kms_ops = identity_kms; server = echo }

pub faithful : AreFaithful services
unfolding kms_provider
faithful = (
  λ key_id. record { unwrap-wrap_dek = λ g dek wrapped n h. sym h },
  λ addr token key_name. record { decrypts = λ p c h. sym h; is_utf8 = λ p c h. refl },
)

abbrev pub config : GatewayConfig
config = record {
  bind_addr = codes "0.0.0.0:8080";
  storage = redb (codes "data");
  cdc = record { nats_url = none; kafka_brokers = none };
  ui_dir = none;
  kek = none;
  kms_key_arn = none;
  admin_token = none;
  vault_addr = some (codes "https://vault/");
  vault_token = some (codes "s.1");
  vault_transit_key = none;
  mesh_brokers = [];
  mesh_poll_interval_ms = 5000;
}

abbrev built : KeyProvider × Bool
built =
    (vault_provider echo (new (codes "https://vault/") (codes "s.1") (codes "peat-gateway")), true)

built_ok : build_key_provider services config ≡ ok built
unfolding build_key_provider build_with build_vault
built_ok = refl

build_key_provider-Fitting_example :
    Fitting services none (some (codes "https://vault/")) none built
build_key_provider-Fitting_example =
    build_key_provider-Fitting services config built faithful built_ok
