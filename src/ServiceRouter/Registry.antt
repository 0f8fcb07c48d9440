-- ===== src/ServiceRouter/Registry.antt =====
-- registry.go: what a process knows of the registry, and its calls of the Consul store. The store
-- and the JSON format are parameters. A subscriber is a number; to notify subscribers is to return
-- the notices, one for each, as the code waits for all of them. Locks are left out.
pub mod Registration
pub mod Notices
use text.Mathlib.Text.{find?}
use laser_db.Base.{
  ℕ, zero, ◌+◌, ◌-◌, String, Bool, true, false, not, ◌&&◌, ◌||◌, Option, none, some, List, [], ◌∷◌,
  ◌++◌, map, index, nat_beq, if◌then◌else◌, Eq, ◌==◌, nat_eq, string_eq,
}
use laser_db.Base.Maps.{lookup, lookup_or, insert, delete}
use laser_db.ServiceRouter.Server.{
  Server, ServerList, ServiceConfig, ServiceRouterConfig, available, unavailable,
}
use laser_db.ServiceRouter.Node.{
  get_node_path, get_nodes_path, get_config_path, get_config_version_path, get_configs_path,
  get_router_config_path,
}

-- An `api.KVPair`.
abbrev pub KvPair : Type 0
KvPair = String × String

-- The key-value part of a Consul client. A write returns the new store and whether it succeeded;
-- a read returns none for an error, and `get` an inner none for a key that is not there. `list`
-- returns the pairs under a prefix with the index of the last change.
pub record Consul : Type 1 where
  pub Store : Type 0
  pub put : Store → String → String → Store × Bool
  pub delete : Store → String → Store × Bool
  pub delete_tree : Store → String → Store × Bool
  pub get : Store → String → Option (Option String)
  pub list : Store → String → Option (List KvPair × ℕ)

-- The JSON format: an unmarshal that fails leaves the zero value, in whole or in part.
pub record Format : Type 0 where
  pub marshal_server : Server → String
  pub unmarshal_server : String → Server
  pub marshal_config : ServiceRouterConfig → String
  pub unmarshal_config : String → ServiceRouterConfig
  pub marshal_text : String → String
  pub decimal_time : ℕ → String

pub record ConsulRegistry : Type 0 where
  pub last_indexes : List (String × ℕ)
  pub config_versions : List (String × String)
  pub service_subscribers : List (String × List ℕ)
  pub config_subscribers : List (String × List ℕ)
  pub static_server_nodes : List (String × ServerList)
  pub static_switches : List (String × Bool)

abbrev pub ServiceNotice : Type 0
ServiceNotice = ℕ × ServerList

abbrev pub ConfigNotice : Type 0
ConfigNotice = ℕ × ServiceConfig

unfoldable pub new_consul_registry : ConsulRegistry
new_consul_registry = record {
  last_indexes = [];
  config_versions = [];
  service_subscribers = [];
  config_subscribers = [];
  static_server_nodes = [];
  static_switches = [];
}

unfoldable pub get_all_subscribed : ConsulRegistry → List String
get_all_subscribed cr = map (λ e. e.0) cr.service_subscribers

unfoldable pub push_static_nodes : ConsulRegistry → String → ServerList → ConsulRegistry
unfolding insert
push_static_nodes cr name servers = record cr {
  static_server_nodes = insert name servers cr.static_server_nodes;
}

unfoldable pub enable_static : ConsulRegistry → String → ConsulRegistry
unfolding insert
enable_static cr name = record cr { static_switches = insert name true cr.static_switches }

unfoldable pub disable_static : ConsulRegistry → String → ConsulRegistry
unfolding insert
disable_static cr name = record cr { static_switches = insert name false cr.static_switches }

-- `append` to the list under a name, or a new list.
unfoldable pub subscribe : String → ℕ → List (String × List ℕ) → List (String × List ℕ)
unfolding insert lookup
subscribe name subscriber m = elim (lookup name m) [
  | none ↦ insert name (subscriber ∷ []) m
  | some arr ↦ insert name (arr ++ subscriber ∷ []) m
]

unfoldable pub subscribe_service : ConsulRegistry → String → ℕ → ConsulRegistry
unfolding subscribe
subscribe_service cr name subscriber = record cr {
  service_subscribers = subscribe name subscriber cr.service_subscribers;
}

unfoldable pub unsubscribe_service : ConsulRegistry → String → ConsulRegistry
unfolding delete
unsubscribe_service cr name = record cr { service_subscribers = delete name cr.service_subscribers }

unfoldable pub subscribe_config : ConsulRegistry → String → ℕ → ConsulRegistry
unfolding subscribe
subscribe_config cr name subscriber = record cr {
  config_subscribers = subscribe name subscriber cr.config_subscribers;
}

-- The map is the one of the service subscribers, as in the code.
unfoldable pub unsubscribe_config : ConsulRegistry → String → ConsulRegistry
unfolding delete
unsubscribe_config cr name = record cr { service_subscribers = delete name cr.service_subscribers }

unfoldable pub check_update : ConsulRegistry → String → ℕ → ConsulRegistry × Bool
unfolding insert lookup
check_update cr key index =
    if nat_beq index (lookup_or 0 key cr.last_indexes)
    then (cr, false)
    else (record cr { last_indexes = insert key index cr.last_indexes }, true)

unfoldable pub notify_discover : ConsulRegistry → String → ServerList → List ServiceNotice
unfolding lookup
notify_discover cr name servers =
    map (λ subscriber. (subscriber, servers)) (lookup_or [] name cr.service_subscribers)

abbrev pub is_empty {ℓ} : {A : Type ℓ} → List A → Bool
is_empty [] = true
is_empty (a ∷ rest) = false

-- `if ok && len(serverList) > 0`
unfoldable pub notify_static : ConsulRegistry → String → ServerList → List ServiceNotice
unfolding notify_discover
notify_static cr name [] = []
notify_static cr name (s ∷ ss) = notify_discover cr name (s ∷ ss)

module _ (format : Format) where
  unfoldable pub process_discover :
      ConsulRegistry → String → List KvPair → ℕ → ConsulRegistry × List ServiceNotice
  unfolding check_update notify_discover
  process_discover cr name pairs index =
      let (checked, is_update) = check_update cr (get_nodes_path name) index in
      if is_empty pairs || not is_update
      then (checked, [])
      else (checked, notify_discover checked name (map (λ p. format.unmarshal_server p.1) pairs))

  -- The servers of a service are taken from the static list if that is switched on.
  unfoldable pub discover :
      (consul : Consul)
      → ConsulRegistry
      → consul.Store
      → String
      → ConsulRegistry × List ServiceNotice
  unfolding process_discover notify_static lookup
  discover consul cr store name =
      if lookup_or false name cr.static_switches
      then (cr, notify_static cr name (lookup_or [] name cr.static_server_nodes))
      else elim (consul.list store (get_nodes_path name)) [
        | none ↦ (cr, [])
        | some (pairs, index) ↦ process_discover cr name pairs index
      ]

abbrev pub contains : String → String → Bool
contains text part = elim (find? text part) [ none ↦ false | some i ↦ true ]

-- The zero value of a configuration, with the map that `processConfig` makes.
abbrev pub zero_config : ServiceConfig
zero_config = record {
  router = record { ttl_in_ms = 0; load_balance_method = ""; total_shards = 0; pull_interval = 0 };
  configs = some [];
}

-- `checkConfigUpdate`, with what the store answers: a version that cannot be read counts as new.
unfoldable pub check_config_update :
    ConsulRegistry → String → Option (Option String) → ConsulRegistry × Bool
unfolding insert lookup
check_config_update cr name none = (cr, true)
check_config_update cr name (some none) = (cr, true)
check_config_update cr name (some (some current)) = elim (lookup name cr.config_versions) [
  | none ↦ (record cr { config_versions = insert name current cr.config_versions }, true)
  | some version ↦
      if version == current
      then (cr, false)
      else (record cr { config_versions = insert name current cr.config_versions }, true)
]

module _ (format : Format) where
  -- One round of the loop over the pairs of a service's configuration.
  unfoldable pub read_pair : String → ServiceConfig → KvPair → ServiceConfig
  unfolding insert get_router_config_path get_configs_path
  read_pair name config (key, value) =
      if key == get_router_config_path name && not (value == "")
      then record config { router = format.unmarshal_config value }
      else if contains key (get_configs_path name) && not (value == "")
      then record config {
        configs = some (insert key value (elim config.configs [ none ↦ [] | some m ↦ m ]));
      }
      else config

  unfoldable pub read_pairs : String → ServiceConfig → List KvPair → ServiceConfig
  unfolding read_pair
  read_pairs name config [] = config
  read_pairs name config (p ∷ pairs) = read_pairs name (read_pair name config p) pairs

  unfoldable pub process_config :
      ConsulRegistry → String → List KvPair → ℕ → ConsulRegistry × List ConfigNotice
  unfolding check_update read_pairs get_config_path lookup
  process_config cr name pairs index =
      let (checked, is_update) = check_update cr (get_config_path name) index in
      if is_empty pairs || not is_update then (checked, []) else (
        checked,
        map (λ subscriber. (subscriber, read_pairs name zero_config pairs))
            (lookup_or [] name checked.config_subscribers),
      )

  unfoldable pub get_config :
      (consul : Consul)
      → ConsulRegistry
      → consul.Store
      → String
      → ConsulRegistry × List ConfigNotice
  unfolding process_config check_config_update get_config_path get_config_version_path
  get_config consul cr store name =
      let (checked, is_update) =
        check_config_update cr name (consul.get store (get_config_version_path name)) in
      if not is_update then (checked, []) else elim (consul.list store (get_config_path name)) [
        | none ↦ (checked, [])
        | some (pairs, index) ↦ process_config checked name pairs index
      ]
