-- ===== src/LaserClient/Routing.antt =====
-- laser_client.go, the calls of one key: how a key is routed, and what a command makes of the
-- response.
pub mod Errors
use laser_db.Base.{
  ℕ, ◌-◌, String, Bool, true, false, none, some, Outcome, returned, ◌>>=◌, if◌then◌else◌, Option,
}
use laser_db.Base.Int.{ℤ, pos, negsuc, ltb_ℤ}
use laser_db.ServiceRouter.Server.{default_dc}
use laser_db.ServiceRouter.RouterDb.{CityHash}
use laser_db.ServiceRouter.Router.{Selecting}
use laser_db.LaserClient.Partition.{get_partition_id, get_partition_hash, get_shard_id}
use laser_db.LaserClient.ConfigManager.{TableSchema, get_table_schema, get_shard_number}
use laser_db.Base.Words.{u64_mod}
use laser_db.LaserClient.Thrift.{Status, LaserKey, LaserResponse, Request}
use laser_db.LaserClient.Options.{ReadMode, leader_read, follower_read, mixed_read, ClientOption}
use laser_db.LaserClient.Calls.{LaserClient, CallResp, Network, Session, common_call_with_route_id}

-- The int64 bit pattern of an integer in range.
abbrev from_i64 : ℤ → ℕ
from_i64 (pos a) = a
from_i64 (negsuc a) = u64_mod - 1 - a

-- What `getRouteInfo` returns.
pub record RouteInfo : Type 0 where
  pub shard_id : ℕ
  pub partition_hash : ℕ
  pub route_to_edge_node : Bool
  pub dc : String

unfoldable pub is_leader_read : ReadMode → Bool
is_leader_read leader_read = true
is_leader_read follower_read = false
is_leader_read mixed_read = false

-- The shard and the partition of a key of a known table: a panic where the number of partitions is
-- 0.
unfoldable pub locate : CityHash → LaserClient → LaserKey → TableSchema → Outcome (ℕ × ℕ × ℕ)
unfolding get_partition_id get_partition_hash get_shard_id get_shard_number
locate city client key schema =
    get_partition_id city key.database_name key.table_name key.primary_keys schema.partition_number
    >>= λ partition_id.
        let partition_hash = get_partition_hash city (record {
          database_name = key.database_name;
          table_name = key.table_name;
          partition_id = partition_id;
        }) in
        returned (
          from_i64 (get_shard_id partition_hash (get_shard_number client.config_manager schema.dc)),
          partition_id,
          partition_hash,
        )

-- `GetShardIdAndParititionId`
unfoldable pub get_shard_id_and_partition_id : CityHash → LaserClient → LaserKey → Outcome (ℕ × ℕ)
unfolding locate get_table_schema
get_shard_id_and_partition_id city client key =
    elim (get_table_schema city client.config_manager key.database_name key.table_name) [
      | none ↦ returned (0, 0)
      | some schema ↦ locate city client key schema >>= λ r. returned (r.0, r.1)
    ]

module _ (city : CityHash) (s : Selecting) (n : Network) (client : LaserClient) where
  -- Whether a read of the table goes to an edge node: a draw of a percentage.
  unfoldable pub draw_edge :
      TableSchema → ReadMode → Session s.State n.World → Session s.State n.World × Bool
  unfolding is_leader_read
  draw_edge schema read_mode c = elim schema.bind_edge_nodes [
    | none ↦ (c, false)
    | some nodes ↦
        if is_leader_read read_mode
        then (c, false)
        else (let (world', random_value) = n.intn c.world in
            (record c { world = world' }, ltb_ℤ (pos random_value) schema.edge_flow_ratio))
  ]

  unfoldable pub route_of :
      TableSchema
      → ReadMode
      → Session s.State n.World
      → ℕ × ℕ × ℕ
      → Session s.State n.World × RouteInfo
  unfolding draw_edge
  route_of schema read_mode c (shard_id, partition_id, partition_hash) =
      let (c', route_to_edge_node) = draw_edge schema read_mode c in
      (
        c',
        record {
          shard_id = shard_id;
          partition_hash = partition_hash;
          route_to_edge_node = route_to_edge_node;
          dc = schema.dc;
        },
      )

  -- With the schema of the table, if it is known.
  unfoldable pub route_for :
      LaserKey
      → ReadMode
      → Session s.State n.World
      → Option TableSchema
      → Outcome (Session s.State n.World × RouteInfo)
  route_for key read_mode c none =
      returned (
        c,
        record { shard_id = 0; partition_hash = 0; route_to_edge_node = false; dc = default_dc },
      )
  route_for key read_mode c (some schema) =
      locate city client key schema >>= λ r. returned (route_of schema read_mode c r)

  unfoldable pub get_route_info :
      LaserKey → ReadMode → Session s.State n.World → Outcome (Session s.State n.World × RouteInfo)
  get_route_info key read_mode c =
      route_for key read_mode c
        (get_table_schema city client.config_manager key.database_name key.table_name)

  unfoldable pub common_call :
      LaserKey
      → ClientOption
      → Request
      → Session s.State n.World
      → Outcome (Session s.State n.World × CallResp)
  common_call key o req c = get_route_info key o.read_mode c >>= λ r.
      common_call_with_route_id city s n client r.1.shard_id r.1.partition_hash
        r.1.route_to_edge_node r.1.dc o req r.0

  -- A command that reads a field of the response, and one that returns its status only.
  abbrev Result : Type 0 → Type 0
  Result A = Session s.State n.World → Outcome (Session s.State n.World × Status × A)

  unfoldable pub read_from :
      {A : Type 0} → (LaserResponse → A) → LaserKey → ClientOption → Request → Result A
  read_from get_data key o req c =
      common_call key o req c >>= λ r. returned (r.0, r.1.status, get_data r.1.resp)

  unfoldable pub status_from :
      LaserKey
      → ClientOption
      → Request
      → Session s.State n.World
      → Outcome (Session s.State n.World × Status)
  status_from key o req c = common_call key o req c >>= λ r. returned (r.0, r.1.status)

-- `clientOption.ReadMode = LEADER_READ`
abbrev pub leader : ClientOption → ClientOption
leader o = record o { read_mode = leader_read }
