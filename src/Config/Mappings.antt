-- ===== src/Config/Mappings.antt =====
-- config.rs: `parse_mesh_broker_mappings`.
use peat_gateway.Base.{
  Text, codes, Option, none, some, List, [], ◌∷◌, map, Result, ok, err, and_then, missing_part,
  trim_slashes, if◌then◌else◌,
}
use peat_gateway.Config.{MeshBrokerMapping}
use peat_gateway.Config.Spaces.{trim, split, nonempty, is_blank}

unfoldable pub default_mesh_collections : List Text
default_mesh_collections =
    codes "cot-broadcast" ∷ codes "contacts" ∷ codes "markers" ∷ codes "missions" ∷ []

-- `parts.next().filter(|s| !s.is_empty()).ok_or_else(…)?`, with the parts that are left
unfoldable pub next_part : List Text → Result (Text × List Text)
next_part [] = err missing_part
next_part (p ∷ ps) = if is_blank p then err missing_part else ok (p, ps)

abbrev pub or_default : List Text → List Text
or_default [] = default_mesh_collections
or_default (c ∷ cs) = c ∷ cs

unfoldable pub collections_of : List Text → List Text
collections_of [] = default_mesh_collections
collections_of (segment ∷ parts) = or_default (nonempty (map trim (split b',' segment)))

-- A mapping of the parts of an entry.
unfoldable pub parse_parts : List Text → Result MeshBrokerMapping
unfolding next_part collections_of
parse_parts parts = and_then (next_part parts) λ (org_id, after_org).
    and_then (next_part after_org) λ (app_id, after_app).
      and_then (next_part after_app) λ (base_url, after_url). ok (record {
        org_id = org_id;
        app_id = app_id;
        base_url = trim_slashes base_url;
        collections = collections_of after_url;
      })

-- The body of the loop.
unfoldable pub parse_entry : Text → Result MeshBrokerMapping
unfolding parse_parts
parse_entry entry = parse_parts (map trim (split b'|' entry))

unfoldable pub parse_entries : List Text → Result (List MeshBrokerMapping)
unfolding parse_entry
parse_entries [] = ok []
parse_entries (entry ∷ entries) =
    let rest = parse_entries entries in
    and_then (parse_entry entry) λ m. and_then rest λ ms. ok (m ∷ ms)

unfoldable pub parse_mesh_broker_mappings : Option Text → Result (List MeshBrokerMapping)
unfolding parse_entries
parse_mesh_broker_mappings none = ok []
parse_mesh_broker_mappings (some raw) = parse_entries (nonempty (map trim (split b';' raw)))
