-- ===== src/ServiceRouter/Router.antt =====
-- router.go: how a call is routed, and how a change of a service's configuration reaches the
-- timers. The pullers that a call creates on its way are left out of it: `Discover` is modelled
-- from the state of the database that they leave. Counters are left out.
pub mod Choices
pub mod Found
pub mod Timers
use Prim.Native.String.{◌++◌ as ◌⧺◌}
use laser_db.Base.{
  ℕ, ◌+◌, ◌-◌, String, Bool, false, not, Option, none, some, List, [], ◌∷◌, ◌++◌, if◌then◌else◌, Eq,
  ◌==◌, nat_eq, string_eq,
}
use laser_db.Base.Maps.{lookup, insert}
use laser_db.ServiceRouter.Server.{
  Server, ServerList, BalanceLocalFirstConfig, ServiceConfig, default_dc, uint32_max,
  shard_type_leader,
}
use laser_db.ServiceRouter.Node.{decimal}
use laser_db.ServiceRouter.Ticking.{Timer, new_timer, reload, calculate_interval, calculate_ttl}
use laser_db.ServiceRouter.RouterDb.{CityHash, RouterDb, select_servers, batch_select_servers}

-- The method texts.
abbrev method_random : String
method_random = "random"

abbrev method_roundrobin : String
method_roundrobin = "roundrobin"

abbrev method_localfirst : String
method_localfirst = "localfirst"

abbrev method_configurable_weight : String
method_configurable_weight = "configurable_weight"

abbrev method_user_defined : String
method_user_defined = "user_defined"

abbrev method_iprangefirst : String
method_iprangefirst = "iprangefirst"

abbrev method_static_weight : String
method_static_weight = "static_weight"

-- The options of a client; a balancer of the user's is known by the name of its type. Keys of
-- shards and partitions are int64 bit patterns.
pub record ClientOption : Type 0 where
  pub service_name : String
  pub shard_id : ℕ
  pub shard_type : String
  pub protocol : String
  pub load_balance : String
  pub user_balance : Option String
  pub local_first_config : BalanceLocalFirstConfig
  pub partition_hash : ℕ
  pub route_to_edge_node : Bool
  pub dc : String

unfoldable pub default_client_option : BalanceLocalFirstConfig → ClientOption
default_client_option config = record {
  service_name = "";
  shard_id = uint32_max;
  shard_type = shard_type_leader;
  protocol = "";
  load_balance = method_localfirst;
  user_balance = none;
  local_first_config = config;
  partition_hash = 0;
  route_to_edge_node = false;
  dc = default_dc;
}

unfoldable pub client_option_factory : BalanceLocalFirstConfig → String → String → ClientOption
unfolding default_client_option
client_option_factory config service_name protocol = record (default_client_option config) {
  service_name = service_name;
  protocol = protocol;
}

-- Which balancer `GetOrCreateBalancer` makes.
pub data Balancer : Type 0 where
  random_balancer : Balancer
  roundrobin_balancer : Balancer
  local_first_balancer : BalanceLocalFirstConfig → Balancer
  ip_range_first_balancer : BalanceLocalFirstConfig → Balancer
  static_weight_balancer : Balancer
  configurable_weight_balancer : Balancer
  user_balancer : String → Balancer

-- The method that counts: a user's without a balancer is the random one.
unfoldable pub chosen_method : ClientOption → String
chosen_method o =
    if o.load_balance == method_user_defined
    then elim o.user_balance [ none ↦ method_random | some name ↦ method_user_defined ]
    else o.load_balance

unfoldable pub make_balancer : ClientOption → String → Balancer
make_balancer o method =
    if method == method_random
    then random_balancer
    else if method == method_roundrobin
    then roundrobin_balancer
    else if method == method_localfirst
    then local_first_balancer o.local_first_config
    else if method == method_iprangefirst
    then ip_range_first_balancer o.local_first_config
    else if method == method_static_weight
    then static_weight_balancer
    else if method == method_configurable_weight
    then configurable_weight_balancer
    else if method == method_user_defined
    then elim o.user_balance [ none ↦ random_balancer | some name ↦ user_balancer name ]
    else random_balancer

unfoldable pub balance_id : CityHash → ClientOption → ℕ
balance_id city o =
    let id = city o.protocol (city o.service_name (city o.load_balance 0)) in
    if o.load_balance == method_user_defined
    then elim o.user_balance [ none ↦ id | some name ↦ city name id ]
    else id

unfoldable pub get_or_create_balancer :
    CityHash → List (ℕ × Balancer) → ClientOption → List (ℕ × Balancer) × Balancer
unfolding balance_id chosen_method make_balancer lookup insert
get_or_create_balancer city balancers o = elim (lookup (balance_id city o) balancers) [
  | some balancer ↦ (balancers, balancer)
  | none ↦
      let balancer = make_balancer o (chosen_method o) in
      (insert (balance_id city o) balancer balancers, balancer)
]

unfoldable pub route_id : ClientOption → ℕ
route_id o = if o.route_to_edge_node then o.partition_hash else o.shard_id

unfoldable pub option_dc : ClientOption → String
option_dc o = if o.dc == "" then default_dc else o.dc

-- The servers that `Discover` balances over: an edge node's, or the shard's if there is none.
unfoldable pub discover_servers : CityHash → RouterDb → ClientOption → Option ServerList
unfolding route_id option_dc select_servers
discover_servers city rd o =
    elim (select_servers city rd o.service_name o.protocol (route_id o) o.shard_type
      (option_dc o)) [
        | some servers ↦ some servers
        | none ↦
            if o.route_to_edge_node
            then select_servers city rd o.service_name o.protocol o.shard_id o.shard_type
                (option_dc o)
            else none
      ]

-- `Select` of the balancer is a parameter, with its state.
pub record Selecting : Type 1 where
  pub State : Type 0
  pub select : Balancer → State → ServerList → State × Option Server

unfoldable pub discover_server :
    CityHash
    → RouterDb
    → (s : Selecting) → List (ℕ × Balancer)
    → s.State
    → ClientOption
    → List (ℕ × Balancer) × s.State × Option Server
unfolding discover_servers get_or_create_balancer
discover_server city rd s balancers state o = elim (discover_servers city rd o) [
  | none ↦ (balancers, state, none)
  | some servers ↦
      let (balancers', balancer) = get_or_create_balancer city balancers o in
      let (state', server) = s.select balancer state servers in (balancers', state', server)
]

unfoldable pub get_server_list_hash : CityHash → ℕ → ServerList → ℕ
unfolding decimal
get_server_list_hash city result [] = result
get_server_list_hash city result (server ∷ servers) =
    get_server_list_hash city (city (server.host ⧺ decimal server.port) result) servers

-- `GetServerList` does not put the default in for an empty data centre.
unfoldable pub get_server_list : CityHash → RouterDb → ClientOption → Option ServerList
unfolding route_id select_servers
get_server_list city rd o =
    select_servers city rd o.service_name o.protocol (route_id o) o.shard_type o.dc

-- The state of the loop of `BatchDiscover`: lists of the same hash get the same choice.
pub record Batch (S : Type 0) : Type 0 where
  pub state : S
  pub selected : List (ℕ × Option Server)
  pub result : List (ℕ × Option Server)

module _ (city : CityHash) (s : Selecting) (balancer : Balancer) where
  -- With the choice for the hash of the servers, if there is one already.
  unfoldable pub choose : Batch s.State → ℕ → ServerList → Option (Option Server) → Batch s.State
  unfolding insert get_server_list_hash
  choose b id servers (some choice) = record b { result = insert id choice b.result }
  choose b id servers none =
      let (state', choice) = s.select balancer b.state servers in
      record {
        state = state';
        selected = insert (get_server_list_hash city 0 servers) choice b.selected;
        result = insert id choice b.result;
      }

  unfoldable pub batch_for : Batch s.State → ℕ → Option ServerList → Batch s.State
  unfolding choose insert lookup get_server_list_hash
  batch_for b id none = record b { result = insert id none b.result }
  batch_for b id (some servers) =
      choose b id servers (lookup (get_server_list_hash city 0 servers) b.selected)

  unfoldable pub batch_one : List (ℕ × ServerList) → Batch s.State → ℕ → Batch s.State
  unfolding batch_for lookup
  batch_one lists b id = batch_for b id (lookup id lists)

  unfoldable pub batch_all : List (ℕ × ServerList) → Batch s.State → List ℕ → Batch s.State
  unfolding batch_one
  batch_all lists b [] = b
  batch_all lists b (id ∷ ids) = batch_all lists (batch_one lists b id) ids

unfoldable pub batch_discover :
    CityHash
    → RouterDb
    → (s : Selecting) → List (ℕ × Balancer)
    → s.State
    → ClientOption
    → List ℕ
    → List (ℕ × Balancer) × Batch s.State
unfolding batch_all batch_select_servers option_dc get_or_create_balancer
batch_discover city rd s balancers state o ids =
    let (balancers', balancer) = get_or_create_balancer city balancers o in
    (
      balancers',
      batch_all city s balancer
          (batch_select_servers city rd o.service_name o.protocol ids o.shard_type (option_dc o) [])
          (record { state = state; selected = []; result = [] }) ids,
    )
