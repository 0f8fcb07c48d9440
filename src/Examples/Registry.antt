-- ===== src/Examples/Registry.antt =====
-- registry.go at concrete inputs, with a small store.
use text.Mathlib.Text.{starts_with}
use laser_db.Base.{
  ◌≡◌, refl, ap, subst, ◌∙◌, true, false, none, some, List, [], ◌∷◌, map, Memᴰ, arith, index,
  length, keep_if, nat_eq, string_eq,
}
use text.Mathlib.TextEquality.{eq_iff}
use laser_db.Base.Maps.{lookup, lookup_or, insert}
use laser_db.ServiceRouter.Server.{Server, ServerList, default_service_router_config}
use laser_db.ServiceRouter.Node.{
  get_node_path, get_nodes_path, get_node_name, decimal, get_config_path, get_config_version_path,
  get_router_config_path,
}
use laser_db.ServiceRouter.Registry.{
  Consul, Format, KvPair, ConsulRegistry, new_consul_registry, subscribe_service, subscribe_config,
  subscribe, discover, notify_discover, unsubscribe_config, process_config, enable_static,
  push_static_nodes, get_config,
}
use laser_db.ServiceRouter.Registry.Notices.{
  discover_again, discover_static, unsubscribe_config_lem,
}
use laser_db.ServiceRouter.Registry.Registration.{
  set_available, register_server, check_server_valid, put_router_config,
}
use laser_db.ServiceRouter.Registry.Registration.RoundTrip.{
  IsListing, stored, discover-set_available,
}
use laser_db.ServiceRouter.Registry.Registration.Versions.{IsKeyed, get_config-put_router_config}

-- A log of the puts, the latest first; a listing also shows pairs that were overwritten.
abbrev log_store : Consul
log_store = record {
  Store = List KvPair;
  put = λ log k v. ((k, v) ∷ log, true);
  delete = λ log k. (log, true);
  delete_tree = λ log k. (log, true);
  get = λ log k. some (lookup k log);
  list = λ log prefix. some (keep_if (λ p. starts_with p.0 prefix) log, length log);
}

log_store-IsListing : IsListing log_store
log_store-IsListing store written k v prefix pairs index put_done inside listed =
    subst (λ ps. Memᴰ (k, v) ps)
      (ap (λ r. elim r [ none ↦ [] | some x ↦ x.0 ])
        (ap (λ w. log_store.list w prefix) (ap (λ x. x.0) put_done) ∙ listed))
      (rw inside (Memᴰ.head refl))

log_store-IsKeyed : IsKeyed log_store
unfolding lookup
log_store-IsKeyed store k v j other = ground (arith, eq_iff k j)

abbrev node : Server
node = record {
  host = "10.0.0.1";
  port = 9090;
  service_name = "laser";
  protocol = "thrift";
  status = "unknown";
  update_time = 0;
  weight = 10;
  shard_list = [];
  available_shard_list = [];
  follower_shard_list = [];
  follower_available_shard_list = [];
  other_settings = [];
  partition_list = [];
  is_edge_node = false;
  idc = "";
  dc = "";
}

-- A format that knows one server and one configuration.
abbrev one_format : Format
one_format = record {
  marshal_server = λ s. "server";
  unmarshal_server = λ text. stored 2000 node;
  marshal_config = λ c. "config";
  unmarshal_config = λ text. default_service_router_config;
  marshal_text = λ text. text;
  decimal_time = λ now. "2000";
}

abbrev two_subscribers : ConsulRegistry
two_subscribers =
    subscribe_config (subscribe_service (subscribe_service new_consul_registry "laser" 1) "laser" 2)
      "laser" 3

discover-set_available_example :
    (servers : ServerList) × ((discover one_format log_store two_subscribers
        (("ads-core/services/laser/nodes/thrift:10.0.0.1:9090", "server") ∷ [])
        "laser").1
      ≡ map (λ u. (u, servers)) (lookup_or [] "laser" two_subscribers.service_subscribers))
    × Memᴰ (stored 2000 node) servers
unfolding set_available register_server check_server_valid get_node_path get_nodes_path
    get_node_name decimal new_consul_registry subscribe_service subscribe_config subscribe lookup
    insert
discover-set_available_example =
    discover-set_available log_store one_format two_subscribers []
      (("ads-core/services/laser/nodes/thrift:10.0.0.1:9090", "server") ∷ []) 2000 node
      (("ads-core/services/laser/nodes/thrift:10.0.0.1:9090", "server") ∷ []) 1 log_store-IsListing
      refl refl refl refl (omega arith)

discover_again_example :
    (discover one_format log_store
      (discover one_format log_store two_subscribers
        (("ads-core/services/laser/nodes/x", "server") ∷ [])
        "laser").0
      (("ads-core/services/laser/nodes/x", "server") ∷ [])
      "laser").1
    ≡ []
unfolding new_consul_registry subscribe_service subscribe_config subscribe lookup
discover_again_example =
    discover_again one_format log_store two_subscribers
      (("ads-core/services/laser/nodes/x", "server") ∷ []) "laser" refl

discover_static_example :
    discover one_format log_store
      (enable_static (push_static_nodes two_subscribers "laser" (node ∷ [])) "laser")
      []
      "laser"
    ≡ (
      enable_static (push_static_nodes two_subscribers "laser" (node ∷ [])) "laser",
      map (λ u. (u, node ∷ [])) (lookup_or [] "laser" two_subscribers.service_subscribers),
    )
discover_static_example = discover_static one_format log_store two_subscribers [] "laser" node []

unsubscribe_config_lem_example :
    ((process_config one_format
        (unsubscribe_config two_subscribers "laser")
        "laser"
        (("ads-core/services/laser/config/router", "config") ∷ [])
        4).1
      ≡ (process_config one_format two_subscribers "laser"
          (("ads-core/services/laser/config/router", "config") ∷ [])
          4).1)
    × (notify_discover (unsubscribe_config two_subscribers "laser") "laser" (node ∷ []) ≡ [])
unsubscribe_config_lem_example =
    unsubscribe_config_lem one_format two_subscribers "laser"
      (("ads-core/services/laser/config/router", "config") ∷ []) 4 (node ∷ [])

abbrev up_to_date : ConsulRegistry
up_to_date = record new_consul_registry { config_versions = ("laser", "1000") ∷ [] }

get_config-put_router_config_example :
    get_config one_format log_store up_to_date
      (("ads-core/services/laser/config/router", "config")
        ∷ ("ads-core/services/laser/config/version", "1000")
        ∷ [])
      "laser"
    ≡ (up_to_date, [])
unfolding new_consul_registry put_router_config get_router_config_path get_config_version_path
    get_config_path lookup
get_config-put_router_config_example =
    get_config-put_router_config log_store one_format up_to_date
      (("ads-core/services/laser/config/version", "1000") ∷ [])
      (("ads-core/services/laser/config/router", "config")
        ∷ ("ads-core/services/laser/config/version", "1000")
        ∷ [])
      2000 node default_service_router_config "1000" log_store-IsKeyed refl refl refl
