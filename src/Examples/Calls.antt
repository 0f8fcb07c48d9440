-- ===== src/Examples/Calls.antt =====
-- laser_client.go, the commands of one key, at the cluster of Cluster.
use laser_db.Base.{ℕ, zero, suc, ◌≡◌, refl, false, some, [], ◌∷◌, arith, nat_eq, string_eq}
use laser_db.Base.Int.{ℤ, pos, to_u32, rem_ℤ}
use laser_db.Base.Maps.{lookup, insert}
use laser_db.ServiceRouter.RouterDb.{RouterDb, get_service_key}
use laser_db.ServiceRouter.Router.{
  get_or_create_balancer, balance_id, make_balancer, chosen_method, option_dc, local_first_balancer,
}
use laser_db.LaserClient.ConfigManager.{get_table_schema, get_shard_number}
use laser_db.LaserClient.Thrift.{empty_response, Request, get, get_string_data}
use laser_db.LaserClient.Options.{
  ServerAddress, new_client_option_factory, check_target_server_address, shard_type_of,
}
use laser_db.LaserClient.Calls.{
  Reply, timed_out, answered, Network, Session, common_call_with_route_id, retry, attempt,
  after_attempt, call_found, call_server, handle_reply, choose_server, with_timeout,
  call_server_times, call_timeout, get_client_option, get_conn, discover_once,
}
use laser_db.LaserClient.Routing.{
  locate, get_route_info, route_for, route_of, draw_edge, is_leader_read,
}
use laser_db.LaserClient.Partition.{
  get_partition_id, get_partition_hash, get_shard_id, table_hash, get_key_hash, key_hash, abs,
  rem_int,
}
use laser_db.Examples.Cluster.{toy_hash, client, key, network, first_server, start, option}
use laser_db.LaserClient.Calls.Returns.{Returns, IsUnwrapped, common_call_with_route_id-Returns}
use laser_db.LaserClient.Routing.{RouteInfo, read_from, common_call}
use laser_db.LaserClient.Routing.Errors.{read_from-failed}
use laser_db.ServiceRouter.RouterDb.{select_servers}
use laser_db.ServiceRouter.Router.{discover_servers, discover_server, route_id}

-- A network on which the first two calls time out.
abbrev slow : ℕ → Reply
slow zero = timed_out
slow (suc zero) = timed_out
slow (suc (suc w)) = answered (record empty_response { string_data = some "value" })

abbrev slow_network : Network
slow_network = record network { await = λ address req ms w. (suc w, slow w) }

slow-IsUnwrapped :
    (address : ServerAddress) (req : Request) (ms : ℤ) (w : ℕ)
    → IsUnwrapped toy_hash first_server slow_network (slow_network.await address req ms w).1
slow-IsUnwrapped address req ms zero = tt
slow-IsUnwrapped address req ms (suc zero) = tt
slow-IsUnwrapped address req ms (suc (suc w)) = tt

common_call_with_route_id-Returns_example :
    Returns toy_hash first_server slow_network
      (common_call_with_route_id toy_hash first_server slow_network client 2 182 false "default"
        option
        (get (key "a"))
        start)
      2
      start
common_call_with_route_id-Returns_example =
    common_call_with_route_id-Returns toy_hash first_server slow_network slow-IsUnwrapped client 2
      182 false "default" option (get (key "a")) start

-- With one retry, both calls time out.
abbrev timed_out_twice : Session Unit ℕ
timed_out_twice = record {
  world = 2;
  balancers =
      (498, local_first_balancer (record { local_ip = "10.0.0.9"; diff_range = pos 65536 })) ∷ [];
  selecting = tt;
  marks = call_timeout ∷ call_server_times ∷ call_timeout ∷ call_server_times ∷ [];
}

read_from-failed_example : "" ≡ get_string_data empty_response
unfolding read_from common_call get_route_info route_for route_of draw_edge locate is_leader_read
    common_call_with_route_id retry attempt after_attempt call_found call_server handle_reply
    choose_server check_target_server_address with_timeout get_client_option shard_type_of get_conn
    discover_once new_client_option_factory get_table_schema get_shard_number get_partition_id
    get_partition_hash get_shard_id table_hash get_key_hash key_hash abs rem_int discover_server
    discover_servers select_servers get_or_create_balancer balance_id make_balancer chosen_method
    option_dc get_service_key route_id lookup insert to_u32 rem_ℤ
read_from-failed_example =
    read_from-failed toy_hash first_server slow_network client get_string_data (key "a") option
      (get (key "a")) start timed_out_twice 203 "" refl (λ bad. omega (arith, bad))

abbrev route : RouteInfo
route = record { shard_id = 2; partition_hash = 182; route_to_edge_node = false; dc = "default" }

abbrev no_services : RouterDb
no_services = record { services = []; last_partition_keys = []; configs = [] }
