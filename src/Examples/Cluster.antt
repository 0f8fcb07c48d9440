-- ===== src/Examples/Cluster.antt =====
-- A cluster of one server, which has one of the two shards of four keys, as the tests of the client
-- call it.
use laser_db.Base.{
  ℕ, zero, suc, ◌+◌, ◌*◌, ◌%◌, ◌^◌, String, true, false, none, some, List, [], ◌∷◌, length, nat_eq,
  string_eq,
}
use laser_db.Base.Int.{pos}
use laser_db.ServiceRouter.LoadBalance.Ip.{codes}
use laser_db.ServiceRouter.Server.{Server}
use laser_db.ServiceRouter.RouterDb.{CityHash, RouterDb}
use laser_db.ServiceRouter.Router.{Selecting}
use laser_db.LaserClient.ConfigManager.{ConfigManager, TableSchema}
use laser_db.LaserClient.Thrift.{
  status_ok, LaserKey, EntryValue, empty_response, Request, mget_detail,
}
use laser_db.LaserClient.Options.{ClientOption, new_client_option_factory}
use laser_db.LaserClient.Calls.{LaserClient, Reply, timed_out, answered, Network, Session}
use laser_db.LaserClient.Multi.Reads.{stored_values}

abbrev pub toy_hash : CityHash
toy_hash text seed = (7 + length (codes text) + 5 * seed) % 2 ^ 64

abbrev pub node : String → List ℕ → Server
node host shards = record {
  host = host;
  port = 9090;
  service_name = "laser";
  protocol = "thrift";
  status = "available";
  update_time = 1000;
  weight = 10;
  shard_list = shards;
  available_shard_list = shards;
  follower_shard_list = shards;
  follower_available_shard_list = shards;
  other_settings = [];
  partition_list = [];
  is_edge_node = false;
  idc = "";
  dc = "";
}

-- The first two keys below have shard 2, the others shard 0, which has no server.
abbrev pub servers : RouterDb
servers = record {
  services = (3373, node "10.0.0.1" (2 ∷ []) ∷ []) ∷ [];
  last_partition_keys = [];
  configs = [];
}

abbrev pub table : TableSchema
table = record {
  database_name = "db";
  table_name = "table";
  partition_number = pos 7;
  ttl = 0;
  bind_edge_nodes = some ("10.0.1.1" ∷ []);
  edge_flow_ratio = pos 30;
  dc = "default";
  dist_dc = "default";
}

abbrev pub tables : ConfigManager
tables = record {
  table_schemas = (toy_hash "table" (toy_hash "db" 0), table) ∷ [];
  cluster_info = record { cluster_name = "laser"; shard_number = 3; dcs = []; groups = [] };
  dcs = [];
}

abbrev pub client : LaserClient
client = record { laser_service_name = "laser"; local_ip = "10.0.0.9"; config_manager = tables }

abbrev pub key : String → LaserKey
key text = record {
  database_name = "db";
  table_name = "table";
  primary_keys = text ∷ [];
  column_keys = [];
}

abbrev pub store : LaserKey → EntryValue
store k = record {
  status = status_ok;
  string_value = elim k.primary_keys [ [] ↦ "" | text ∷ rest ↦ text ];
}

-- The first call times out, the others are answered from the store.
abbrev pub reply : Request → ℕ → Reply
reply (mget_detail keys) zero = timed_out
reply (mget_detail keys) (suc w) =
    answered (record empty_response { list_value_data = stored_values store keys })
reply _ w = answered empty_response

abbrev pub network : Network
network = record {
  World = ℕ;
  router_db = λ w. servers;
  later = λ w. w;
  get_connection = λ address o w. (w, true);
  await = λ address req ms w. (suc w, reply req w);
  intn = λ w. (w, 50);
}

-- The first of the servers.
abbrev pub first_server : Selecting
first_server = record {
  State = Unit;
  select = λ balancer st list. elim list [ [] ↦ (st, none) | server ∷ rest ↦ (st, some server) ];
}

abbrev pub start : Session Unit ℕ
start = record { world = 0; balancers = []; selecting = tt; marks = [] }

abbrev pub option : ClientOption
option = record (new_client_option_factory 4 "localfirst" (pos 100)) { timeout_retry = pos 1 }

abbrev pub keys : List LaserKey
keys = key "a" ∷ key "bc" ∷ key "def" ∷ key "ghij" ∷ []
