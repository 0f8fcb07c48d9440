-- ===== src/Examples/Router.antt =====
-- router.go, service_puller.go and service_pusher.go at concrete inputs.
use laser_db.Base.{
  Outcome, returned, ◌>>=◌, Bool, List, ℕ, ◌+◌, ◌*◌, ◌%◌, ◌^◌, ◌<◌, ◌≡◌, refl, Bool, true, false,
  not, none, some, List, [], ◌∷◌, Memᴰ, arith, length, if◌then◌else◌, nat_eq, string_eq,
}
use laser_db.Base.Int.{pos}
use laser_db.Base.Maps.{lookup, insert}
use laser_db.ServiceRouter.LoadBalance.Ip.{codes}
use laser_db.ServiceRouter.Server.{
  Server, ServerList, ServiceRouterConfig, default_service_router_config,
}
use laser_db.ServiceRouter.Node.{decimal}
use laser_db.ServiceRouter.RouterDb.{
  CityHash, RouterDb, pick_servers, get_service_router_config, picked_or_all, leader_shards,
  update_servers, with_dc,
}
use laser_db.Base.Words.{add64}
use laser_db.ServiceRouter.Router.Found.{asks_leader, discover_servers-update_servers}
use laser_db.Base.Maps.{has_key}
use laser_db.ServiceRouter.Ticking.{
  Timer, Caller, cancelling, new_timer, reload, blank, section, reloading, entering, finished,
  calculate_ttl, calculate_interval,
}
use laser_db.ServiceRouter.Ticking.Life.{
  here, next, calls, runs, Reach, IsSingle, reach-IsSingle, period_bounds,
}
use laser_db.ServiceRouter.Router.{
  ClientOption, client_option_factory, random_balancer, Selecting, Batch, discover_servers,
  batch_all,
}
use laser_db.ServiceRouter.Router.Choices.{batch_all_same}
use laser_db.ServiceRouter.Router.Timers.{
  RouterTimers, pushers_for, config_notify, notify_pullers, notify_pushers, reload_pullers,
  reload_pushers, reload_at, config_notify-pushers, get_pusher_key,
}

abbrev toy_hash : CityHash
toy_hash text seed = (length (codes text) + 3 * seed) % 2 ^ 64

abbrev option : ClientOption
option =
    client_option_factory (record { local_ip = "10.0.0.1"; diff_range = pos 256 }) "laser" "thrift"

abbrev node : Server
node = record {
  host = "10.0.0.1";
  port = 9090;
  service_name = "laser";
  protocol = "thrift";
  status = "available";
  update_time = 0;
  weight = 10;
  shard_list = [];
  available_shard_list = [];
  follower_shard_list = [];
  follower_available_shard_list = [];
  other_settings = [];
  partition_list = [];
  is_edge_node = false;
  idc = "";
  dc = "";
}

-- A choice that alternates between a server and none.
abbrev alternating : Selecting
alternating = record {
  State = Bool;
  select = λ balancer on servers. (not on, if on then some node else none);
}

abbrev shard_lists : List (ℕ × ServerList)
shard_lists = (1, node ∷ []) ∷ (2, node ∷ []) ∷ []

abbrev empty_batch : Batch Bool
empty_batch = record { state = true; selected = []; result = [] }

batch_all_same_example :
    lookup 1
      (batch_all toy_hash alternating random_balancer shard_lists empty_batch
        (1 ∷ 5 ∷ 2 ∷ [])).result
    ≡ lookup 2
        (batch_all toy_hash alternating random_balancer shard_lists empty_batch
          (1 ∷ 5 ∷ 2 ∷ [])).result
unfolding lookup
batch_all_same_example =
    batch_all_same toy_hash alternating random_balancer shard_lists empty_batch (1 ∷ 5 ∷ 2 ∷ []) 1 2
      (node ∷ []) (node ∷ []) (Memᴰ.head refl) (Memᴰ.tail (Memᴰ.tail (Memᴰ.head refl))) refl refl
      refl

abbrev ticking : Timer
ticking = record {
  period = 2000;
  cancel = 0;
  started = true;
  tickers = (0, 2000) ∷ [];
  cancelled = [];
  contexts = 1;
  runs = 1;
}

abbrev reloaded : Timer
reloaded = record {
  period = 5000;
  cancel = 1;
  started = true;
  tickers = (1, 5000) ∷ [];
  cancelled = 0 ∷ [];
  contexts = 2;
  runs = 2;
}

makes_ticking : new_timer 2000 ≡ returned ticking
unfolding new_timer
makes_ticking = refl

reloads_ticking : reload ticking 5000 ≡ returned reloaded
unfolding reload has_key
reloads_ticking = refl

-- A new timer, and then all sections of a `Reload`.
reached_reloaded : Reach (blank 2000) (entering 0) reloaded finished
unfolding section has_key
reached_reloaded =
    next
      (next
        (next
          (next
            (next
              (next (next (next (next here (runs refl)) (runs refl)) (calls (reloading 5000) refl))
                (runs refl))
              (runs refl))
            (runs refl))
          (runs refl))
        (runs refl))
      (runs refl)

reach-IsSingle_example : IsSingle reloaded
reach-IsSingle_example = reach-IsSingle 2000 reloaded reached_reloaded

-- Two calls, with the turns of the first one marked as true.
abbrev both : List Bool → Timer → Caller → Caller → Outcome (Timer × Caller × Caller)
both [] t c d = returned (t, c, d)
both (true ∷ turns) t c d = section t c >>= λ r. both turns r.0 r.1 d
both (false ∷ turns) t c d = section t d >>= λ r. both turns r.0 c r.1

-- Two calls of `Reload` at once can leave a ticker that the stored `cancel` does not reach.
lost_ticker :
    both
      (true ∷ false ∷ true ∷ false ∷ true ∷ false ∷ true ∷ false ∷ true ∷ true ∷ false ∷ [])
      ticking
      (cancelling (reloading 3000))
      (cancelling (reloading 4000))
    ≡ returned (
      record {
        period = 4000;
        cancel = 2;
        started = true;
        tickers = (1, 4000) ∷ [];
        cancelled = 0 ∷ 0 ∷ [];
        contexts = 3;
        runs = 2;
      },
      finished,
      finished,
    )
unfolding section has_key
lost_ticker = refl

period_bounds_example :
    ((0 < calculate_ttl 300000) × (calculate_ttl 300000 < 300000))
    × ((0 < calculate_interval 3) × (calculate_interval 3 < 3 * 1000))
period_bounds_example =
    period_bounds 300000 3 (omega arith) (omega arith) (omega arith) (omega arith)

abbrev one_pusher : RouterTimers
one_pusher = record {
  config_pullers = [];
  discover_pullers = ("laser", ticking) ∷ [];
  service_pushers = pushers_for ((node, ticking) ∷ []);
}

abbrev slower : ServiceRouterConfig
slower = record default_service_router_config { ttl_in_ms = 7500; pull_interval = 6 }

abbrev puller_reloaded : RouterTimers
puller_reloaded = record one_pusher {
  discover_pullers = ("laser", record reloaded { period = 4000; tickers = (1, 4000) ∷ [] }) ∷ [];
}

config_notify-pushers_example : puller_reloaded.service_pushers ≡ one_pusher.service_pushers
unfolding config_notify notify_pullers notify_pushers reload_pullers reload_pushers reload_at reload
    lookup insert get_pusher_key decimal default_service_router_config calculate_ttl
    calculate_interval
config_notify-pushers_example =
    config_notify-pushers one_pusher puller_reloaded "laser" ((node, ticking) ∷ []) slower refl
      (refl, tt) refl

abbrev shard_node : Server
shard_node = record node { shard_list = 4 ∷ []; available_shard_list = 4 ∷ []; update_time = 1000 }

abbrev no_services : RouterDb
no_services = record { services = []; last_partition_keys = []; configs = [] }

discover_servers-update_servers_example :
    (servers : ServerList) × (discover_servers toy_hash
        (update_servers toy_hash no_services 2000 "laser" (shard_node ∷ []))
        (asks_leader "laser" shard_node 4 option)
      ≡ some servers)
    × Memᴰ (with_dc shard_node) servers
unfolding pick_servers get_service_router_config default_service_router_config picked_or_all
    leader_shards lookup add64
discover_servers-update_servers_example =
    discover_servers-update_servers toy_hash no_services 2000 "laser" shard_node [] shard_node 4
      option (Memᴰ.head refl) refl (Memᴰ.head refl)
