-- ===== src/LaserClient/ConfigManager.antt =====
-- config_manager.go: the tables and data centres that the client knows. JSON is parsed by a
-- parameter, the loop over the configurations runs in the order of the list, and the router that
-- delivers them is left out.
pub mod Notices
use laser_db.Base.{
  ℕ, ◌-◌, String, Bool, true, false, ◌&&◌, ◌||◌, Option, none, some, List, [], ◌∷◌, nat_beq,
  if◌then◌else◌, Eq, nat_eq, string_eq,
}
use laser_db.Base.Int.{ℤ}
use laser_db.Base.Maps.{lookup, insert}
use laser_db.ServiceRouter.LoadBalance.Ip.{codes}
use laser_db.ServiceRouter.RouterDb.{CityHash}

pub record TableSchema : Type 0 where
  pub database_name : String
  pub table_name : String
  pub partition_number : ℤ
  pub ttl : ℕ
  -- `none` is nil.
  pub bind_edge_nodes : Option (List String)
  pub edge_flow_ratio : ℤ
  pub dc : String
  pub dist_dc : String

pub record DatabaseSchema : Type 0 where
  pub database_name : String
  pub tables : List TableSchema

pub record DataCenter : Type 0 where
  pub name : String
  pub shard_number : ℕ

pub record NodeShardList : Type 0 where
  pub node_id : ℕ
  pub leader_shard_list : List ℕ
  pub follower_shard_list : List ℕ
  pub is_edge_node : Bool

pub record ClusterGroup : Type 0 where
  pub group_name : String
  pub nodes : List NodeShardList
  pub dc : String

pub record ClusterInfo : Type 0 where
  pub cluster_name : String
  pub shard_number : ℕ
  pub dcs : List DataCenter
  pub groups : List ClusterGroup

pub record ConfigManager : Type 0 where
  pub table_schemas : List (ℕ × TableSchema)
  pub cluster_info : ClusterInfo
  pub dcs : List (String × DataCenter)

-- `json.Unmarshal` into the two types: none for an error.
pub record Parsers : Type 0 where
  pub schemas : String → Option (List DatabaseSchema)
  pub cluster : String → Option ClusterInfo

-- `strings.Contains`, on the bytes of two texts.
unfoldable pub is_prefix : List ℕ → List ℕ → Bool
is_prefix [] text = true
is_prefix (c ∷ cs) [] = false
is_prefix (c ∷ cs) (d ∷ text) = nat_beq c d && is_prefix cs text

unfoldable pub occurs : List ℕ → List ℕ → Bool
unfolding is_prefix
occurs [] part = is_prefix part []
occurs (c ∷ text) part = is_prefix part (c ∷ text) || occurs text part

abbrev pub contains : String → String → Bool
contains text part = occurs (codes text) (codes part)

abbrev pub schema_data : String
schema_data = "database_table_schema_data"

abbrev pub cluster_info_data : String
cluster_info_data = "cluster_info_data"

abbrev pub get_table_schema_hash : CityHash → String → String → ℕ
get_table_schema_hash city database_name table_name = city table_name (city database_name 0)

-- The inner and the outer loop over the schemas.
unfoldable pub add_tables :
    CityHash → String → List TableSchema → List (ℕ × TableSchema) → List (ℕ × TableSchema)
unfolding insert
add_tables city database_name [] m = m
add_tables city database_name (t ∷ ts) m = add_tables city database_name ts (
    insert (get_table_schema_hash city database_name t.table_name)
      (record t { database_name = database_name }) m)

unfoldable pub add_databases :
    CityHash → List DatabaseSchema → List (ℕ × TableSchema) → List (ℕ × TableSchema)
unfolding add_tables
add_databases city [] m = m
add_databases city (d ∷ ds) m = add_databases city ds (add_tables city d.database_name d.tables m)

-- The loop over the data centres of a cluster.
unfoldable pub add_dcs : List DataCenter → List (String × DataCenter) → List (String × DataCenter)
unfolding insert
add_dcs [] m = m
add_dcs (dc ∷ dcs) m = add_dcs dcs (insert dc.name dc m)

unfoldable pub set_schemas : CityHash → ConfigManager → Option (List DatabaseSchema) → ConfigManager
unfolding add_databases
set_schemas city cm none = cm
set_schemas city cm (some ds) = record cm { table_schemas = add_databases city ds [] }

unfoldable pub set_cluster : ConfigManager → Option ClusterInfo → ConfigManager
unfolding add_dcs
set_cluster cm none = cm
set_cluster cm (some info) = record cm { cluster_info = info; dcs = add_dcs info.dcs [] }

-- One round of the loop of `ConfigNotify`, and the loop.
unfoldable pub notify_one : CityHash → Parsers → ConfigManager → String → String → ConfigManager
unfolding set_schemas set_cluster occurs
notify_one city parse cm k v =
    if contains k schema_data
    then set_schemas city cm (parse.schemas v)
    else if contains k cluster_info_data
    then set_cluster cm (parse.cluster v)
    else cm

unfoldable pub config_notify :
    CityHash → Parsers → ConfigManager → List (String × String) → ConfigManager
unfolding notify_one
config_notify city parse cm [] = cm
config_notify city parse cm ((k, v) ∷ configs) =
    config_notify city parse (notify_one city parse cm k v) configs

unfoldable pub get_table_schema : CityHash → ConfigManager → String → String → Option TableSchema
unfolding lookup
get_table_schema city cm database_name table_name =
    lookup (get_table_schema_hash city database_name table_name) cm.table_schemas

unfoldable pub get_shard_number : ConfigManager → String → ℕ
unfolding lookup
get_shard_number cm dc = elim (lookup dc cm.dcs) [
  | none ↦ cm.cluster_info.shard_number
  | some found ↦ found.shard_number
]
