-- ===== src/Examples/Brokers.antt =====
-- Runs of the theorem on the mappings of remote brokers.
use peat_gateway.Config.Env.{digits_from, digits, storage_from, Env, from_env, parse_u64}
use peat_gateway.Base.{
  ◌==◌, arith, false, nat_eq, any, Text, ℕ, refl, codes, some, none, ok, err, [], ◌∷◌, List, ◌≡◌,
  missing_part, trim_slashes,
}
use peat_gateway.Config.{redb, MeshBrokerMapping}
use peat_gateway.Config.Spaces.{trim, skip, split}
use peat_gateway.Config.Mappings.{
  parse_mesh_broker_mappings, parse_entries, parse_entry, parse_parts, next_part, collections_of,
  default_mesh_collections,
}
use peat_gateway.Config.RoundTrip.{
  AllWithout, Without, print, IsPrintable, parse_mesh_broker_mappings-print,
}

abbrev broker : MeshBrokerMapping
broker = record {
  org_id = codes "acme";
  app_id = codes "app";
  base_url = codes "http://b:1";
  collections = codes "contacts" ∷ codes "markers" ∷ [];
}

no_such_byte : (c : ℕ) (s : Text) → any (λ x. nat_eq x c) s ≡ false → Without c s
no_such_byte c [] h = tt
no_such_byte c (x ∷ s) h = (ground (arith, h), no_such_byte c s (ground (arith, h)))

no_such_bytes :
    (c : ℕ) (ss : List Text) → any (λ s. any (λ x. nat_eq x c) s) ss ≡ false → AllWithout c ss
no_such_bytes c [] h = tt
no_such_bytes c (s ∷ ss) h =
    (no_such_byte c s (ground (arith, h)), no_such_bytes c ss (ground (arith, h)))

broker-IsPrintable : IsPrintable broker
unfolding trim skip trim_slashes
broker-IsPrintable = record {
  parts = ((refl, refl), ((refl, refl), ((refl, refl), ((refl, refl), tt))));
  collections = ((refl, refl), ((refl, refl), tt));
  entry = (refl, refl);
  some_collection = (codes "contacts", codes "markers" ∷ [], refl);
  no_slash = refl;
  no_semicolon =
      no_such_bytes b';' (broker.org_id ∷ broker.app_id ∷ broker.base_url ∷ broker.collections)
        refl;
  no_bar =
      no_such_bytes b'|' (broker.org_id ∷ broker.app_id ∷ broker.base_url ∷ broker.collections)
        refl;
  no_comma = no_such_bytes b',' broker.collections refl;
}

parse_mesh_broker_mappings-print_example :
    parse_mesh_broker_mappings (some (print (broker ∷ broker ∷ []))) ≡ ok (broker ∷ broker ∷ [])
parse_mesh_broker_mappings-print_example =
    parse_mesh_broker_mappings-print (broker ∷ broker ∷ [])
      (broker-IsPrintable, (broker-IsPrintable, tt))

-- Space and slashes are dropped, and the collections have a default.
with_defaults :
    parse_mesh_broker_mappings (some (codes " acme | app |http://b:1// ; "))
    ≡ ok (record broker { collections = default_mesh_collections } ∷ [])
unfolding parse_mesh_broker_mappings parse_entries parse_entry parse_parts next_part collections_of
    trim skip split trim_slashes
with_defaults = refl

without_url : parse_mesh_broker_mappings (some (codes "acme|app")) ≡ err missing_part
unfolding parse_mesh_broker_mappings parse_entries parse_entry parse_parts next_part trim skip split
without_url = refl

-- Without any variable set.
abbrev no_env : Env
no_env v = none

unset :
    from_env no_env
    ≡ ok (record {
      bind_addr = codes "0.0.0.0:8080";
      storage = redb (codes "./data/gateway.redb");
      cdc = record { nats_url = none; kafka_brokers = none };
      ui_dir = none;
      kek = none;
      kms_key_arn = none;
      admin_token = none;
      vault_addr = none;
      vault_token = none;
      vault_transit_key = none;
      mesh_brokers = [];
      mesh_poll_interval_ms = 5000;
    })
unfolding from_env parse_mesh_broker_mappings storage_from ◌==◌
unset = refl

interval : parse_u64 (codes "+0250") ≡ some 250
unfolding parse_u64 digits digits_from
interval = refl
