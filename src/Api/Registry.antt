-- ===== src/Api/Registry.antt =====
-- api/formations.rs: `MeshStateRegistry`, the brokers that are registered for formations.
use peat_gateway.Base.{Text, ◌==◌, ◌&&◌, Bool, Option, none, some, List, [], ◌∷◌, if◌then◌else◌}
use peat_gateway.Ingest.Broker.{MeshBrokerState}

-- `HashMap<(String, String), Arc<dyn MeshBrokerState>>`, as its entries in some order
abbrev pub BrokerMap : Type 0
BrokerMap = List ((Text × Text) × MeshBrokerState)

abbrev pub names : Text → Text → Text × Text → Bool
names org_id app_id k = k.0 == org_id && k.1 == app_id

unfoldable pub register : Text → Text → MeshBrokerState → BrokerMap → BrokerMap
register org_id app_id state [] = ((org_id, app_id), state) ∷ []
register org_id app_id state ((k, old) ∷ m) =
    let rest = register org_id app_id state m in
    if names org_id app_id k then ((org_id, app_id), state) ∷ m else (k, old) ∷ rest

unfoldable pub deregister : Text → Text → BrokerMap → BrokerMap
deregister org_id app_id [] = []
deregister org_id app_id ((k, old) ∷ m) =
    let rest = deregister org_id app_id m in if names org_id app_id k then rest else (k, old) ∷ rest

unfoldable pub get : Text → Text → BrokerMap → Option MeshBrokerState
get org_id app_id [] = none
get org_id app_id ((k, state) ∷ m) =
    let rest = get org_id app_id m in if names org_id app_id k then some state else rest
