-- ===== src/Examples/Stores.antt =====
-- A store held in memory.
use peat_gateway.Base.{[], refl}
use peat_gateway.Base.Entries.{Entries, lookup, put, erase}
use peat_gateway.Storage.Redb.{Redb, Json}
use peat_gateway.Examples.Formats.{codec_of}
use peat_gateway.Examples.Tenants.{
  idp_format, organization_format, formation_format, token_format, sink_format,
}
use peat_gateway.Examples.Identities.{rule_format, audit_format}

instance unfoldable pub entries_redb : Redb Entries
unfolding lookup put erase
entries_redb = record {
  create = [];
  get = λ t k. lookup k t;
  insert = λ t k v. put k v t;
  remove = λ t k. (lookup k t, erase k t);
  iter = λ t. t;
  iter-create = refl;
  get_lem = λ t k. refl;
  iter-insert = λ t k v. refl;
  removed = λ t k. refl;
  iter-remove = λ t k. refl;
}

instance unfoldable pub entries_json : Json
entries_json = record {
  organization = codec_of organization_format;
  formation = codec_of formation_format;
  token = codec_of token_format;
  sink = codec_of sink_format;
  idp = codec_of idp_format;
  policy_rule = codec_of rule_format;
  audit_entry = codec_of audit_format;
}
