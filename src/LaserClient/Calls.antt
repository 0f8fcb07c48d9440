-- ===== src/LaserClient/Calls.antt =====
-- laser_client.go, the call of one server: the choice of a server, its connection, the thrift call
-- with its timeout, and the two retry loops. What is not under this client's control (the
-- connections, the answers, the router database that the pullers bring in) is a `Network`.
pub mod Returns
pub mod Outcomes
use laser_db.Base.{
  ℕ, zero, suc, String, Bool, true, false, not, Option, none, some, List, ◌∷◌, Outcome, returned,
  panicked, running, ◌>>=◌, if◌then◌else◌, nat_beq, string_eq,
}
use laser_db.Base.Int.{ℤ, pos, pos_part, ltb_ℤ, leb_ℤ}
use laser_db.Base.Maps.{lookup}
use laser_db.ServiceRouter.Server.{shard_type_all, shard_type_leader, shard_type_follower}
use laser_db.ServiceRouter.RouterDb.{CityHash, RouterDb}
use laser_db.ServiceRouter.Router.{
  ClientOption as RouterOption, Balancer, Selecting, discover_server,
}
use laser_db.LaserClient.ConfigManager.{ConfigManager}
use laser_db.LaserClient.Options.{
  ServerAddress, ClientOption, check_target_server_address, shard_type_of,
}
use laser_db.LaserClient.Thrift.{
  Status, status_ok, rs_not_found, rs_key_expire, client_thrift_call_error,
  client_thrift_call_timeout, LaserResponse, empty_response, Request, CallError, laser_exception,
  wrapped_exception, other_error,
}

-- `router`, `cg` and the metrics are state, below.
pub record LaserClient : Type 0 where
  pub laser_service_name : String
  pub local_ip : String
  pub config_manager : ConfigManager

pub record CallResp : Type 0 where
  pub status : Status
  pub resp : LaserResponse

abbrev pub failed : Status → CallResp
failed status = record { status = status; resp = empty_response }

-- The meters of the client.
pub data Meter : Type 0 where
  call_server_times rs_not_found_meter rs_key_expire_meter call_timeout call_error : Meter
  get_status_error get_connection_error : Meter

-- What the `select` of a call gets: the timeout, or what the goroutine of the call sends.
pub data Reply : Type 0 where
  timed_out : Reply
  raised : CallError → Reply
  answered : LaserResponse → Reply

pub record Network : Type 1 where
  pub World : Type 0
  pub router_db : World → RouterDb
  -- what happens before a discovery is tried again
  pub later : World → World
  -- false for an error of `GetConnection`
  pub get_connection : ServerAddress → ClientOption → World → World × Bool
  pub await : ServerAddress → Request → ℤ → World → World × Reply
  -- `rand.Intn(100)`
  pub intn : World → World × ℕ

-- The state that calls change: the world, the balancers of the router, and the marks of the
-- meters, the last one first.
pub record Session (S W : Type 0) : Type 0 where
  pub world : W
  pub balancers : List (ℕ × Balancer)
  pub selecting : S
  pub marks : List Meter

module _ {S W : Type 0} where
  abbrev pub mark : Meter → Session S W → Session S W
  mark m c = record c { marks = m ∷ c.marks }

  -- The marks of the second half of `parseException`.
  unfoldable pub mark_status : Status → Session S W → Session S W
  mark_status status c =
      if nat_beq status rs_key_expire
      then mark rs_key_expire_meter c
      else if nat_beq status rs_not_found
      then mark rs_not_found_meter c
      else mark call_error c

  -- The type assertion panics where the LaserException is wrapped in another error.
  unfoldable pub parse_exception : CallError → Session S W → Outcome (Session S W × Status × Bool)
  unfolding mark_status
  parse_exception (laser_exception status) c = returned (mark_status status c, status, true)
  parse_exception (wrapped_exception status) c = panicked
  parse_exception other_error c = returned (
    mark_status client_thrift_call_error (mark get_status_error c),
    client_thrift_call_error,
    false,
  )

unfoldable pub get_client_option : LaserClient → ClientOption → ℕ → ℕ → Bool → String → RouterOption
unfolding shard_type_of
get_client_option client o shard_id partition_hash route_to_edge_node dc = record {
  service_name = client.laser_service_name;
  protocol = "thrift";
  shard_id = shard_id;
  partition_hash = partition_hash;
  route_to_edge_node = route_to_edge_node;
  load_balance = o.load_balance;
  user_balance = none;
  dc = dc;
  local_first_config = record { diff_range = o.ip_diff_range; local_ip = client.local_ip };
  shard_type = shard_type_of o.read_mode;
}

-- The first part of `commonCallWithRouteId`: no timeout means the default one.
unfoldable pub with_timeout : ClientOption → ClientOption
with_timeout o =
    if leb_ℤ o.receive_timeout_ms (pos 0) then record o { receive_timeout_ms = pos 20 } else o

-- What one run through `RETRY` comes to: a time out, or the result.
pub data Attempt : Type 0 where
  lost : Attempt
  done : CallResp → Attempt

module _ (city : CityHash) (s : Selecting) (n : Network) where
  -- `client.router.Discover`
  unfoldable pub discover_once :
      RouterOption → Session s.State n.World → Session s.State n.World × Option ServerAddress
  unfolding discover_server
  discover_once ro c =
      let (balancers', state', server) =
        discover_server city (n.router_db c.world) s c.balancers c.selecting ro in
      (
        record c { balancers = balancers'; selecting = state' },
        elim server [ none ↦ none | some x ↦ some (record { host = x.host; port = x.port }) ],
      )

  -- The loop `GETCONN`.
  unfoldable pub get_conn :
      ℕ
      → ClientOption
      → RouterOption
      → ℕ
      → Session s.State n.World
      → Outcome (Session s.State n.World × Option ServerAddress)
  get_conn zero o ro connect_times c = running
  get_conn (suc fuel) o ro connect_times c =
      let (c', server) = discover_once ro c in
      let again = get_conn fuel o ro (suc connect_times) (record c' { world = n.later c'.world }) in
      elim server [
        | some address ↦ returned (c', some address)
        | none ↦
            if leb_ℤ (pos (suc connect_times)) o.connection_retry
            then again
            else returned (c', none)
      ]

  -- The target of the options, or a server that the router finds.
  unfoldable pub choose_server :
      ClientOption
      → RouterOption
      → Session s.State n.World
      → Outcome (Session s.State n.World × Option ServerAddress)
  choose_server o ro c =
      if check_target_server_address o.target_server_address
      then returned (c, some o.target_server_address)
      else get_conn (suc (pos_part o.connection_retry)) o ro 0 c

  -- The goroutine's answer or the time out.
  unfoldable pub handle_reply :
      Reply → Session s.State n.World → Outcome (Session s.State n.World × Attempt)
  unfolding parse_exception
  handle_reply timed_out c = returned (mark call_timeout c, lost)
  handle_reply (raised e) c = parse_exception e c >>= λ r. returned (r.0, done (failed r.1))
  handle_reply (answered resp) c = returned (c, done (record { status = status_ok; resp = resp }))

  -- The connection and the call.
  unfoldable pub call_server :
      ClientOption
      → Request
      → ServerAddress
      → Session s.State n.World
      → Outcome (Session s.State n.World × Attempt)
  call_server o req address c =
      let (world', connected) = n.get_connection address o c.world in
      if connected
      then (let (world'', reply) = n.await address req o.receive_timeout_ms world' in
          handle_reply reply (mark call_server_times (record c { world = world'' })))
      else returned (
        mark get_connection_error (record c { world = world' }),
        done (failed client_thrift_call_error),
      )

  -- No server is an error.
  unfoldable pub call_found :
      ClientOption
      → Request
      → Session s.State n.World × Option ServerAddress
      → Outcome (Session s.State n.World × Attempt)
  call_found o req (c, none) = returned (c, done (failed client_thrift_call_error))
  call_found o req (c, some address) = call_server o req address c

  -- One run from `RETRY`.
  unfoldable pub attempt :
      ClientOption
      → RouterOption
      → Request
      → Session s.State n.World
      → Outcome (Session s.State n.World × Attempt)
  attempt o ro req c = choose_server o ro c >>= call_found o req

  -- The result of a run, or another try, or the timeout.
  unfoldable pub after_attempt :
      ClientOption
      → ℕ
      → Outcome (Session s.State n.World × CallResp)
      → Session s.State n.World × Attempt
      → Outcome (Session s.State n.World × CallResp)
  after_attempt o call_times again (c, done resp) = returned (c, resp)
  after_attempt o call_times again (c, lost) =
      if leb_ℤ (pos call_times) o.timeout_retry
      then again
      else returned (c, failed client_thrift_call_timeout)

  -- The loop `RETRY`, with the calls made so far.
  unfoldable pub retry :
      ℕ
      → ClientOption
      → RouterOption
      → Request
      → ℕ
      → Session s.State n.World
      → Outcome (Session s.State n.World × CallResp)
  retry zero o ro req call_times c = running
  retry (suc fuel) o ro req call_times c = attempt o ro req c >>= λ r.
      after_attempt o (suc call_times) (retry fuel o ro req (suc call_times) r.0) r

  unfoldable pub common_call_with_route_id :
      LaserClient
      → ℕ
      → ℕ
      → Bool
      → String
      → ClientOption
      → Request
      → Session s.State n.World
      → Outcome (Session s.State n.World × CallResp)
  common_call_with_route_id client shard_id partition_hash route_to_edge_node dc o req c =
      retry (suc (pos_part o.timeout_retry)) (with_timeout o)
        (get_client_option client o shard_id partition_hash route_to_edge_node dc) req 0 c
