-- ===== src/LaserClient/Options.antt =====
-- laser_client.go, the options of a call.
use laser_db.Base.{
  ℕ, String, Bool, not, ◌&&◌, Option, none, some, List, if◌then◌else◌, ltb, ◌==◌, string_eq,
}
use laser_db.Base.Int.{ℤ, pos, ltb_ℤ}
use laser_db.Base.Maps.{lookup}
use laser_db.ServiceRouter.Server.{shard_type_all, shard_type_leader, shard_type_follower}

pub data ReadMode : Type 0 where
  leader_read follower_read mixed_read : ReadMode

pub record ServerAddress : Type 0 where
  pub host : String
  pub port : ℕ

-- The options that a call reads itself; those of the transport are read by the `Network`.
pub record ClientOption : Type 0 where
  pub max_conn_per_server : ℤ
  pub conn_idle_timeout_ms : ℤ
  pub receive_timeout_ms : ℤ
  pub connection_retry : ℤ
  pub timeout_retry : ℤ
  pub load_balance : String
  pub ip_diff_range : ℤ
  pub read_mode : ReadMode
  pub target_server_address : ServerAddress

pub data OptionError : Type 0 where
  negative_max_conn negative_idle_timeout negative_receive_timeout : OptionError
  negative_timeout_retry unsupported_load_balance : OptionError

-- `Validate`, with `SupportedLoadBalanceMethod` as an argument: none for no error.
unfoldable pub validate : List (String × Bool) → ClientOption → Option OptionError
unfolding lookup
validate supported co =
    if ltb_ℤ co.max_conn_per_server (pos 0)
    then some negative_max_conn
    else if ltb_ℤ co.conn_idle_timeout_ms (pos 0)
    then some negative_idle_timeout
    else if ltb_ℤ co.receive_timeout_ms (pos 0)
    then some negative_receive_timeout
    else if ltb_ℤ co.timeout_retry (pos 0)
    then some negative_timeout_retry
    else elim (lookup co.load_balance supported) [
      | none ↦ some unsupported_load_balance
      | some supports ↦ if supports then none else some unsupported_load_balance
    ]

-- `NewClientOptionFactory`, the number of CPUs as an argument.
unfoldable pub new_client_option_factory : ℕ → String → ℤ → ClientOption
new_client_option_factory cpus load_balance timeout_ms = record {
  max_conn_per_server = pos cpus;
  conn_idle_timeout_ms = pos 0;
  receive_timeout_ms = timeout_ms;
  connection_retry = pos 0;
  timeout_retry = pos 0;
  load_balance = load_balance;
  ip_diff_range = pos 65536;
  read_mode = follower_read;
  target_server_address = record { host = ""; port = 0 };
}

unfoldable pub check_target_server_address : ServerAddress → Bool
check_target_server_address address = not (address.host == "") && ltb 0 address.port

-- The shard type of a read mode.
unfoldable pub shard_type_of : ReadMode → String
shard_type_of leader_read = shard_type_leader
shard_type_of follower_read = shard_type_follower
shard_type_of mixed_read = shard_type_all
