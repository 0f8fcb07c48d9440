-- ===== src/ServiceRouter/Server.antt =====
-- The data types of registry.go and router.go that the other files share.
use laser_db.Base.{ℕ, String, Bool, List, Option}
use laser_db.Base.Int.{ℤ}

pub record Server : Type 0 where
  pub host : String
  pub port : ℕ
  pub service_name : String
  pub protocol : String
  pub status : String
  pub update_time : ℕ
  pub weight : ℕ
  pub shard_list : List ℕ
  pub available_shard_list : List ℕ
  pub follower_shard_list : List ℕ
  pub follower_available_shard_list : List ℕ
  pub other_settings : List (String × String)
  pub partition_list : List ℕ
  pub is_edge_node : Bool
  pub idc : String
  pub dc : String

abbrev pub ServerList : Type 0
ServerList = List Server

abbrev pub available : String
available = "available"

abbrev pub unavailable : String
unavailable = "unavailable"

abbrev pub default_dc : String
default_dc = "default"

-- `UINT32MAX`, the shard of a service that has no shards.
abbrev pub uint32_max : ℕ
uint32_max = 4294967295

abbrev pub shard_type_all : String
shard_type_all = "0"

abbrev pub shard_type_leader : String
shard_type_leader = "1"

abbrev pub shard_type_follower : String
shard_type_follower = "2"

pub record BalanceLocalFirstConfig : Type 0 where
  pub local_ip : String
  pub diff_range : ℤ

pub record ServiceRouterConfig : Type 0 where
  pub ttl_in_ms : ℕ
  pub load_balance_method : String
  pub total_shards : ℕ
  pub pull_interval : ℕ

pub record ServiceConfig : Type 0 where
  pub router : ServiceRouterConfig
  -- `none` is the nil map.
  pub configs : Option (List (String × String))

unfoldable pub default_service_router_config : ServiceRouterConfig
default_service_router_config = record {
  ttl_in_ms = 300000;
  load_balance_method = "random";
  total_shards = 0;
  pull_interval = 3;
}
