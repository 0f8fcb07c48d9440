-- ===== src/Examples/LaserClient.antt =====
-- partition.go and config_manager.go at concrete inputs.
use laser_db.Base.{
  ℕ, ◌+◌, ◌*◌, ◌%◌, ◌^◌, ◌<◌, String, ◌≡◌, refl, some, List, [], ◌∷◌, arith, returned, length,
  nat_eq, string_eq, none,
}
use laser_db.Base.Int.{pos, negsuc, rem_ℤ}
use laser_db.ServiceRouter.LoadBalance.Ip.{codes}
use laser_db.ServiceRouter.RouterDb.{CityHash}
use laser_db.LaserClient.Partition.{
  abs, get_shard_id, get_partition_id, table_hash, get_key_hash, key_hash,
}
use laser_db.LaserClient.Partition.Ranges.{get_partition_id_bounds}
use laser_db.LaserClient.ConfigManager.{
  ConfigManager, TableSchema, ClusterInfo, Parsers, config_notify, get_table_schema,
  get_shard_number, get_table_schema_hash,
}
use laser_db.LaserClient.ConfigManager.Notices.{
  found_in, shards_in, last_schemas, last_cluster, get_table_schema-config_notify,
  get_shard_number-config_notify,
}

-- A hash that adds the lengths and a multiple of the seed.
abbrev toy_hash : CityHash
toy_hash text seed = (length (codes text) + 3 * seed) % 2 ^ 64

-- The shard of the least int64 is -2 where there are three shards.
least_hash_shard : get_shard_id (2 ^ 63) 3 ≡ negsuc 1
unfolding get_shard_id abs rem_ℤ
least_hash_shard = refl

get_partition_id_bounds_example :
    (r : ℕ) × (get_partition_id toy_hash "db" "table" ("key" ∷ []) (pos 7) ≡ returned r) × (r < 7)
unfolding table_hash get_key_hash key_hash
get_partition_id_bounds_example =
    get_partition_id_bounds toy_hash "db" "table" ("key" ∷ []) 7 (omega arith)
      (λ e. omega (arith, e)) (omega arith) (omega arith)

abbrev table : TableSchema
table = record {
  database_name = "";
  table_name = "table";
  partition_number = pos 7;
  ttl = 0;
  bind_edge_nodes = none;
  edge_flow_ratio = pos 0;
  dc = "default";
  dist_dc = "default";
}

abbrev cluster : ClusterInfo
cluster = record {
  cluster_name = "laser";
  shard_number = 100;
  dcs = record { name = "default"; shard_number = 30 } ∷ [];
  groups = [];
}

abbrev parsers : Parsers
parsers = record {
  schemas = λ text. some (record { database_name = "db"; tables = table ∷ [] } ∷ []);
  cluster = λ text. some cluster;
}

abbrev no_tables : ConfigManager
no_tables = record {
  table_schemas = [];
  cluster_info = record { cluster_name = ""; shard_number = 0; dcs = []; groups = [] };
  dcs = [];
}

abbrev notice : List (String × String)
notice =
    ("configs/database_table_schema_data", "tables") ∷ ("configs/cluster_info_data", "cluster") ∷ []

get_table_schema-config_notify_example :
    get_table_schema toy_hash (config_notify toy_hash parsers no_tables notice) "db" "table"
    ≡ found_in toy_hash
        (get_table_schema_hash toy_hash "db" "table")
        (get_table_schema toy_hash no_tables "db" "table")
        (last_schemas parsers notice)
get_table_schema-config_notify_example =
    get_table_schema-config_notify toy_hash parsers no_tables notice "db" "table"

get_shard_number-config_notify_example :
    get_shard_number (config_notify toy_hash parsers no_tables notice) "default"
    ≡ shards_in "default" (get_shard_number no_tables "default") (last_cluster parsers notice)
get_shard_number-config_notify_example =
    get_shard_number-config_notify toy_hash parsers no_tables notice "default"
