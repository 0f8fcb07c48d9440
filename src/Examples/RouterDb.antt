-- ===== src/Examples/RouterDb.antt =====
-- router_db.go at concrete inputs.
use laser_db.Base.{ℕ, ◌+◌, ◌*◌, ◌%◌, ◌^◌, ◌≡◌, refl, false, some, List, [], ◌∷◌, nat_eq, string_eq}
use laser_db.Base.Maps.{lookup, has_key}
use laser_db.ServiceRouter.Server.{Server, default_service_router_config}
use laser_db.ServiceRouter.LoadBalance.Ip.{codes}
use laser_db.ServiceRouter.RouterDb.{
  CityHash, RouterDb, with_dc, leader_shards, get_service_key, update_servers, select_servers,
}
use laser_db.ServiceRouter.RouterDb.Update.{services-update_servers, select_servers-stale}

-- A hash that adds the bytes and a multiple of the seed.
abbrev sum : List ℕ → ℕ
sum [] = 0
sum (c ∷ cs) = c + sum cs

abbrev toy_hash : CityHash
toy_hash text seed = (sum (codes text) + 1000 * seed) % 2 ^ 64

abbrev no_services : RouterDb
no_services = record { services = []; last_partition_keys = []; configs = [] }

abbrev shard_server : ℕ → Server
shard_server shard = record {
  host = "10.0.0.1";
  port = 9090;
  service_name = "laser";
  protocol = "thrift";
  status = "available";
  update_time = 1000;
  weight = 10;
  shard_list = shard ∷ [];
  available_shard_list = shard ∷ [];
  follower_shard_list = [];
  follower_available_shard_list = [];
  other_settings = [];
  partition_list = [];
  is_edge_node = false;
  idc = "";
  dc = "";
}

-- Of two servers of shard 1, the one whose last update is too old is left out.
services-update_servers_example :
    lookup
      (get_service_key toy_hash "laser" "thrift" 1 "1" "default")
      (update_servers toy_hash no_services 400000 "laser"
        (shard_server 1 ∷ record (shard_server 1) { update_time = 350000 } ∷ [])).services
    ≡ some (record (shard_server 1) { update_time = 350000; dc = "default" } ∷ [])
unfolding get_service_key default_service_router_config lookup with_dc leader_shards
services-update_servers_example =
    services-update_servers toy_hash no_services 400000 "laser" (shard_server 1)
      (record (shard_server 1) { update_time = 350000 } ∷ [])
      (get_service_key toy_hash "laser" "thrift" 1 "1" "default")

-- The shard of the only server is found under its role and data centre.
finds_shard :
    select_servers toy_hash
      (update_servers toy_hash no_services 2000 "laser" (shard_server 1 ∷ []))
      "laser"
      "thrift"
      1
      "1"
      "default"
    ≡ some (record (shard_server 1) { dc = "default" } ∷ [])
unfolding select_servers update_servers default_service_router_config
finds_shard = refl

abbrev one_shard : RouterDb
one_shard = update_servers toy_hash no_services 2000 "laser" (shard_server 1 ∷ [])

select_servers-stale_example :
    select_servers toy_hash
      (update_servers toy_hash one_shard 2000 "laser" (shard_server 2 ∷ []))
      "laser"
      "thrift"
      1
      "1"
      "default"
    ≡ select_servers toy_hash one_shard "laser" "thrift" 1 "1" "default"
unfolding update_servers get_service_key has_key default_service_router_config
select_servers-stale_example =
    select_servers-stale toy_hash one_shard 2000 "laser" "thrift" (shard_server 2) [] 1 "1"
      "default" refl refl refl
