-- ===== src/ServiceRouter/Node.antt =====
-- node.go: the keys of a service in the Consul store.
use Prim.Native.String.{◌++◌ as ◌⧺◌}
use laser_db.Base.{
  ℕ, zero, suc, ◌/◌, ◌%◌, String, none, some, List, [], ◌∷◌, get_elem?, ltb, if◌then◌else◌, nat_eq,
  string_eq,
}
use laser_db.ServiceRouter.Server.{Server}

abbrev kv_prefix : String
kv_prefix = "ads-core/services/"

abbrev kv_nodes : String
kv_nodes = "/nodes/"

abbrev kv_config : String
kv_config = "/config/"

-- `%d` of a uint16: it has five digits at most.
abbrev digits : List String
digits = "0" ∷ "1" ∷ "2" ∷ "3" ∷ "4" ∷ "5" ∷ "6" ∷ "7" ∷ "8" ∷ "9" ∷ []

abbrev digit : ℕ → String
digit n = elim (get_elem? digits n) [ none ↦ "" | some text ↦ text ]

abbrev decimal_fuel : ℕ → ℕ → String
decimal_fuel zero n = ""
decimal_fuel (suc fuel) n =
    let higher = decimal_fuel fuel (n / 10) in if ltb n 10 then digit n else higher ⧺ digit (n % 10)

unfoldable pub decimal : ℕ → String
decimal n = decimal_fuel 5 n

unfoldable pub get_node_name : Server → String
unfolding decimal
get_node_name server = server.protocol ⧺ ":" ⧺ server.host ⧺ ":" ⧺ decimal server.port

unfoldable pub get_nodes_path : String → String
get_nodes_path service_name = kv_prefix ⧺ service_name ⧺ kv_nodes

unfoldable pub get_node_path : Server → String
unfolding get_nodes_path get_node_name
get_node_path server = get_nodes_path server.service_name ⧺ get_node_name server

unfoldable pub get_config_path : String → String
get_config_path service_name = kv_prefix ⧺ service_name ⧺ kv_config

unfoldable pub get_config_version_path : String → String
unfolding get_config_path
get_config_version_path service_name = get_config_path service_name ⧺ "version"

unfoldable pub get_configs_path : String → String
unfolding get_config_path
get_configs_path service_name = get_config_path service_name ⧺ "configs/"

unfoldable pub get_router_config_path : String → String
unfolding get_config_path
get_router_config_path service_name = get_config_path service_name ⧺ "router"
