-- ===== src/LaserClient/ConfigManager/Notices.antt =====
-- What a notice of new configurations leaves in the tables of the client.
use laser_db.Base.{
  ℕ, String, ◌≡◌, refl, ap, ◌∙◌, Option, none, some, List, [], ◌∷◌, arith, if◌then◌else◌, ◌==◌,
  nat_eq, string_eq,
}
use laser_db.Base.Maps.{lookup, insert, or_else, lookup-insert}
use laser_db.ServiceRouter.RouterDb.{CityHash}
use laser_db.LaserClient.ConfigManager.{
  TableSchema, DatabaseSchema, DataCenter, ClusterInfo, ConfigManager, Parsers, contains,
  schema_data, cluster_info_data, get_table_schema_hash, add_tables, add_databases, add_dcs,
  set_schemas, set_cluster, notify_one, config_notify, get_table_schema, get_shard_number,
}

-- The last table of a list, of a database or of all, with a given hash.
abbrev pub last_table : CityHash → ℕ → String → List TableSchema → Option TableSchema
last_table city key database_name [] = none
last_table city key database_name (t ∷ ts) = or_else (last_table city key database_name ts) (
    if get_table_schema_hash city database_name t.table_name == key
    then some (record t { database_name = database_name })
    else none)

abbrev pub last_of_all : CityHash → ℕ → List DatabaseSchema → Option TableSchema
last_of_all city key [] = none
last_of_all city key (d ∷ ds) =
    or_else (last_of_all city key ds) (last_table city key d.database_name d.tables)

-- The last data centre with a given name.
abbrev pub last_dc : String → List DataCenter → Option DataCenter
last_dc name [] = none
last_dc name (dc ∷ dcs) = or_else (last_dc name dcs) (if dc.name == name then some dc else none)

-- The last schemas, and the last cluster, that a notice has and that can be parsed.
abbrev pub last_schemas : Parsers → List (String × String) → Option (List DatabaseSchema)
last_schemas parse [] = none
last_schemas parse ((k, v) ∷ configs) =
    or_else (last_schemas parse configs) (if contains k schema_data then parse.schemas v else none)

abbrev pub last_cluster : Parsers → List (String × String) → Option ClusterInfo
last_cluster parse [] = none
last_cluster parse ((k, v) ∷ configs) = or_else (last_cluster parse configs) (
    if contains k schema_data
    then none
    else if contains k cluster_info_data
    then parse.cluster v
    else none)

lookup-add_tables :
    (city : CityHash) (key : ℕ) (name : String) (ts : List TableSchema) (m : List (ℕ × TableSchema))
    → lookup key (add_tables city name ts m) ≡ or_else (last_table city key name ts) (lookup key m)
unfolding add_tables
lookup-add_tables city key name [] m = refl
lookup-add_tables city key name (t ∷ ts) m = ground (
  arith,
  lookup-add_tables city key name ts
      (insert (get_table_schema_hash city name t.table_name) (record t { database_name = name }) m),
  lookup-insert (get_table_schema_hash city name t.table_name) key
      (record t { database_name = name }) m,
)

lookup-add_databases :
    (city : CityHash) (key : ℕ) (ds : List DatabaseSchema) (m : List (ℕ × TableSchema))
    → lookup key (add_databases city ds m) ≡ or_else (last_of_all city key ds) (lookup key m)
unfolding add_databases
lookup-add_databases city key [] m = refl
lookup-add_databases city key (d ∷ ds) m = ground (
  arith,
  lookup-add_databases city key ds (add_tables city d.database_name d.tables m),
  lookup-add_tables city key d.database_name d.tables m,
)

lookup-add_dcs :
    (name : String) (dcs : List DataCenter) (m : List (String × DataCenter))
    → lookup name (add_dcs dcs m) ≡ or_else (last_dc name dcs) (lookup name m)
unfolding add_dcs
lookup-add_dcs name [] m = refl
lookup-add_dcs name (dc ∷ dcs) m =
    ground (arith, lookup-add_dcs name dcs (insert dc.name dc m), lookup-insert dc.name name dc m)

-- What is found under a hash: in new schemas if there are some, else in the old table.
abbrev pub found_in :
    CityHash → ℕ → Option TableSchema → Option (List DatabaseSchema) → Option TableSchema
found_in city key old none = old
found_in city key old (some ds) = last_of_all city key ds

abbrev shards_of : ClusterInfo → Option DataCenter → ℕ
shards_of info o = elim o [ none ↦ info.shard_number | some found ↦ found.shard_number ]

-- The shard number of a data centre, in a new cluster if there is one.
abbrev pub shards_in : String → ℕ → Option ClusterInfo → ℕ
shards_in dc old none = old
shards_in dc old (some info) = shards_of info (last_dc dc info.dcs)

or_else-none : {A : Type 0} (o : Option A) → or_else o none ≡ o
or_else-none none = refl
or_else-none (some a) = refl

get_table_schema-set_schemas :
    (city : CityHash) (cm : ConfigManager) (database_name table_name : String)
    (new : Option (List DatabaseSchema))
    → get_table_schema city (set_schemas city cm new) database_name table_name
      ≡ found_in city
          (get_table_schema_hash city database_name table_name)
          (get_table_schema city cm database_name table_name)
          new
unfolding get_table_schema set_schemas lookup
get_table_schema-set_schemas city cm database_name table_name none = refl
get_table_schema-set_schemas city cm database_name table_name (some ds) =
    lookup-add_databases city (get_table_schema_hash city database_name table_name) ds []
    ∙ or_else-none _

get_table_schema-set_cluster :
    (city : CityHash) (cm : ConfigManager) (database_name table_name : String)
    (new : Option ClusterInfo)
    → get_table_schema city (set_cluster cm new) database_name table_name
      ≡ get_table_schema city cm database_name table_name
unfolding get_table_schema set_cluster
get_table_schema-set_cluster city cm database_name table_name none = refl
get_table_schema-set_cluster city cm database_name table_name (some info) = refl

get_shard_number-set_schemas :
    (city : CityHash) (cm : ConfigManager) (dc : String) (new : Option (List DatabaseSchema))
    → get_shard_number (set_schemas city cm new) dc ≡ get_shard_number cm dc
unfolding get_shard_number set_schemas
get_shard_number-set_schemas city cm dc none = refl
get_shard_number-set_schemas city cm dc (some ds) = refl

get_shard_number-set_cluster :
    (cm : ConfigManager) (dc : String) (new : Option ClusterInfo)
    → get_shard_number (set_cluster cm new) dc ≡ shards_in dc (get_shard_number cm dc) new
unfolding get_shard_number set_cluster lookup
get_shard_number-set_cluster cm dc none = refl
get_shard_number-set_cluster cm dc (some info) =
    ap (shards_of info) (lookup-add_dcs dc info.dcs [] ∙ or_else-none (last_dc dc info.dcs))

get_table_schema-notify_one :
    (city : CityHash) (parse : Parsers) (cm : ConfigManager) (k v database_name table_name : String)
    → get_table_schema city (notify_one city parse cm k v) database_name table_name
      ≡ found_in city
          (get_table_schema_hash city database_name table_name)
          (get_table_schema city cm database_name table_name)
          (if contains k schema_data then parse.schemas v else none)
unfolding notify_one
get_table_schema-notify_one city parse cm k v database_name table_name = ground (
  arith,
  get_table_schema-set_schemas city cm database_name table_name (parse.schemas v),
  get_table_schema-set_cluster city cm database_name table_name (parse.cluster v),
)

get_shard_number-notify_one :
    (city : CityHash) (parse : Parsers) (cm : ConfigManager) (k v dc : String)
    → get_shard_number (notify_one city parse cm k v) dc
      ≡ shards_in dc (get_shard_number cm dc) (
          if contains k schema_data
          then none
          else if contains k cluster_info_data
          then parse.cluster v
          else none)
unfolding notify_one
get_shard_number-notify_one city parse cm k v dc = ground (
  arith,
  get_shard_number-set_schemas city cm dc (parse.schemas v),
  get_shard_number-set_cluster cm dc (parse.cluster v),
)

-- The table that the client finds after a notice: from the last schemas of the notice that can be
-- parsed the last table of the name's hash, and if there are no such schemas, the one from before.
pub get_table_schema-config_notify :
    (city : CityHash) (parse : Parsers) (cm : ConfigManager) (configs : List (String × String))
    (database_name table_name : String)
    → get_table_schema city (config_notify city parse cm configs) database_name table_name
      ≡ found_in city
          (get_table_schema_hash city database_name table_name)
          (get_table_schema city cm database_name table_name)
          (last_schemas parse configs)
unfolding config_notify
get_table_schema-config_notify city parse cm [] database_name table_name = refl
get_table_schema-config_notify city parse cm ((k, v) ∷ configs) database_name table_name = ground (
  arith,
  get_table_schema-config_notify city parse (notify_one city parse cm k v) configs database_name
      table_name,
  get_table_schema-notify_one city parse cm k v database_name table_name,
)

-- The number of shards that the client finds for a data centre after a notice: from the last
-- cluster of the notice that can be parsed the number of the last data centre of that name, or the
-- cluster's if it has none of that name, and if there is no such cluster, the one from before.
pub get_shard_number-config_notify :
    (city : CityHash) (parse : Parsers) (cm : ConfigManager) (configs : List (String × String))
    (dc : String)
    → get_shard_number (config_notify city parse cm configs) dc
      ≡ shards_in dc (get_shard_number cm dc) (last_cluster parse configs)
unfolding config_notify
get_shard_number-config_notify city parse cm [] dc = refl
get_shard_number-config_notify city parse cm ((k, v) ∷ configs) dc = ground (
  arith,
  get_shard_number-config_notify city parse (notify_one city parse cm k v) configs dc,
  get_shard_number-notify_one city parse cm k v dc,
)
