-- ===== src/Config.antt =====
-- config.rs: `GatewayConfig`.
pub mod Spaces
pub mod Mappings
pub mod RoundTrip
pub mod Env
use peat_gateway.Base.{ℕ, Text, Option, List}

pub data StorageConfig : Type 0 where
  redb : Text → StorageConfig
  postgres : Text → StorageConfig

pub record CdcConfig : Type 0 where
  pub nats_url : Option Text
  pub kafka_brokers : Option Text

pub record MeshBrokerMapping : Type 0 where
  pub org_id : Text
  pub app_id : Text
  pub base_url : Text
  pub collections : List Text

pub record GatewayConfig : Type 0 where
  pub bind_addr : Text
  pub storage : StorageConfig
  pub cdc : CdcConfig
  pub ui_dir : Option Text
  pub kek : Option Text
  pub kms_key_arn : Option Text
  pub admin_token : Option Text
  pub vault_addr : Option Text
  pub vault_token : Option Text
  pub vault_transit_key : Option Text
  pub mesh_brokers : List MeshBrokerMapping
  pub mesh_poll_interval_ms : ℕ
