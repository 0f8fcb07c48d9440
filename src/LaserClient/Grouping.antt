-- ===== src/LaserClient/Grouping.antt =====
-- laser_client.go, `group`: the keys of a batch are grouped by the servers that they go to. The loops
-- over maps run in the order of their entries.
pub mod Discovered
pub mod Moved
pub mod Collected
pub mod Grouped
pub mod Once
pub mod Carried
use Prim.Native.String.{◌++◌ as ◌⧺◌}
use laser_db.Base.{
  ℕ, suc, String, Bool, Option, none, some, List, [], ◌∷◌, ◌++◌, Outcome, returned, ◌>>=◌,
  if◌then◌else◌, nat_eq, string_eq,
}
use laser_db.Base.Maps.{lookup, lookup_or, insert, delete, insert_all}
use laser_db.ServiceRouter.Server.{Server}
use laser_db.ServiceRouter.Node.{decimal}
use laser_db.ServiceRouter.RouterDb.{CityHash}
use laser_db.ServiceRouter.Router.{ClientOption as RouterOption, Selecting, batch_discover}
use laser_db.LaserClient.Thrift.{LaserKv}
use laser_db.LaserClient.Options.{ServerAddress, ClientOption}
use laser_db.LaserClient.Calls.{LaserClient, Network, Session, get_client_option}
use laser_db.LaserClient.Routing.{RouteInfo, get_route_info}

pub record KeyToIndex : Type 0 where
  pub kv : LaserKv
  pub idx : ℕ

-- `none` is the nil address.
pub record AddressKeyMap : Type 0 where
  pub address : Option ServerAddress
  pub key_to_index_list : List KeyToIndex

pub record DcGroupInfo : Type 0 where
  pub route_id_to_indexs : List (ℕ × List KeyToIndex)
  pub unique_shard_ids : List ℕ
  pub unique_partition_hashes : List ℕ
  pub partition_hash_to_shard_ids : List (ℕ × ℕ)
  pub shard_id : ℕ
  pub partition_hash : ℕ
  pub route_to_edge_node : Bool

abbrev pub DcGroupInfos : Type 0
DcGroupInfos = List (String × DcGroupInfo)

-- What a batch discovery returns.
abbrev pub Discovered : Type 0
Discovered = List (ℕ × Option Server)

-- `newDcGroupInfo`, with the fields that `group` sets from the first key.
unfoldable pub new_dc_group_info : RouteInfo → DcGroupInfo
new_dc_group_info r = record {
  route_id_to_indexs = [];
  unique_shard_ids = [];
  unique_partition_hashes = [];
  partition_hash_to_shard_ids = [];
  shard_id = r.shard_id;
  partition_hash = r.partition_hash;
  route_to_edge_node = r.route_to_edge_node;
}

abbrev pub router_id : RouteInfo → ℕ
router_id r = if r.route_to_edge_node then r.partition_hash else r.shard_id

-- The id of a key that is the first one of its id.
unfoldable pub add_unique : RouteInfo → DcGroupInfo → DcGroupInfo
unfolding insert
add_unique r g =
    if r.route_to_edge_node
    then record g {
      unique_partition_hashes = g.unique_partition_hashes ++ (router_id r ∷ []);
      partition_hash_to_shard_ids =
          insert r.partition_hash r.shard_id g.partition_hash_to_shard_ids;
    }
    else record g { unique_shard_ids = g.unique_shard_ids ++ (router_id r ∷ []) }

-- With the list of the id, if there is one.
unfoldable pub add_to_list :
    RouteInfo → KeyToIndex → DcGroupInfo → Option (List KeyToIndex) → DcGroupInfo
unfolding insert add_unique
add_to_list r k g (some list) = record g {
  route_id_to_indexs = insert (router_id r) (list ++ (k ∷ [])) g.route_id_to_indexs;
}
add_to_list r k g none =
    add_unique r
      (record g { route_id_to_indexs = insert (router_id r) (k ∷ []) g.route_id_to_indexs })

unfoldable pub add_key : RouteInfo → KeyToIndex → DcGroupInfo → DcGroupInfo
unfolding add_to_list lookup
add_key r k g = add_to_list r k g (lookup (router_id r) g.route_id_to_indexs)

unfoldable pub add_to_dc : RouteInfo → KeyToIndex → DcGroupInfos → DcGroupInfos
unfolding add_key lookup insert new_dc_group_info
add_to_dc r k infos = insert r.dc (add_key r k (lookup_or (new_dc_group_info r) r.dc infos)) infos

-- A key without an edge node goes to its shard: with the list of the shard, if there is one.
unfoldable pub move_list : DcGroupInfo → ℕ → ℕ → Option (List KeyToIndex) → DcGroupInfo
unfolding insert delete lookup
move_list g hash shard none = record g {
  unique_shard_ids = g.unique_shard_ids ++ (shard ∷ []);
  route_id_to_indexs =
      delete hash (insert shard (lookup_or [] hash g.route_id_to_indexs) g.route_id_to_indexs);
}
move_list g hash shard (some list) = record g {
  route_id_to_indexs =
      delete hash
        (insert shard (list ++ lookup_or [] hash g.route_id_to_indexs) g.route_id_to_indexs);
}

-- One failed discovery at the edge, with the shard of the hash.
unfoldable pub move_to_shard : DcGroupInfo × Discovered → ℕ → Option ℕ → DcGroupInfo × Discovered
unfolding move_list lookup delete
move_to_shard (g, edges) hash none = (g, edges)
move_to_shard (g, edges) hash (some shard) =
    (move_list g hash shard (lookup shard g.route_id_to_indexs), delete hash edges)

-- The loop over what was discovered at the edge.
unfoldable pub reassign : Discovered → DcGroupInfo × Discovered → DcGroupInfo × Discovered
unfolding move_to_shard lookup
reassign [] p = p
reassign ((hash, some server) ∷ entries) p = reassign entries p
reassign ((hash, none) ∷ entries) p =
    reassign entries (move_to_shard p hash (lookup hash p.0.partition_hash_to_shard_ids))

abbrev pub nil_address : String
nil_address = "nil_address"

unfoldable pub map_key : Option Server → String
unfolding decimal
map_key none = nil_address
map_key (some server) = server.host ⧺ ":" ⧺ decimal server.port

abbrev pub address_of : Option Server → Option ServerAddress
address_of none = none
address_of (some server) = some (record { host = server.host; port = server.port })

-- One round of the last loop, and the loop: the lists of one address are put together.
unfoldable pub add_to_address :
    Option Server → List KeyToIndex → List (String × AddressKeyMap) → List (String × AddressKeyMap)
unfolding map_key lookup insert
add_to_address server list result =
    let entry =
      lookup_or (record { address = address_of server; key_to_index_list = [] }) (map_key server)
        result in
    insert (map_key server) (record entry { key_to_index_list = entry.key_to_index_list ++ list })
      result

unfoldable pub collect :
    Discovered → DcGroupInfo → List (String × AddressKeyMap) → List (String × AddressKeyMap)
unfolding add_to_address lookup
collect [] g result = result
collect ((id, server) ∷ entries) g result =
    collect entries g (add_to_address server (lookup_or [] id g.route_id_to_indexs) result)

module _ (city : CityHash) (s : Selecting) (n : Network) (client : LaserClient) where
  -- The loop over the keys.
  unfoldable pub group_kvs :
      ClientOption
      → List LaserKv
      → ℕ
      → DcGroupInfos
      → Session s.State n.World
      → Outcome (Session s.State n.World × DcGroupInfos)
  group_kvs o [] idx infos c = returned (c, infos)
  group_kvs o (kv ∷ kvs) idx infos c = get_route_info city s n client kv.key o.read_mode c >>= λ r.
      group_kvs o kvs (suc idx) (add_to_dc r.1 (record { kv = kv; idx = idx }) infos) r.0

  -- `client.router.BatchDiscover`
  unfoldable pub discover_batch :
      RouterOption → List ℕ → Session s.State n.World → Session s.State n.World × Discovered
  unfolding batch_discover
  discover_batch ro ids c =
      let (balancers', batch) =
        batch_discover city (n.router_db c.world) s c.balancers c.selecting ro ids in
      (record c { balancers = balancers'; selecting = batch.state }, batch.result)

  -- One round of the loop over the data centres: at the edge first, then in the main cluster.
  unfoldable pub group_dc :
      ClientOption
      → String
      → DcGroupInfo
      → List (String × AddressKeyMap)
      → Session s.State n.World
      → Session s.State n.World × List (String × AddressKeyMap)
  group_dc o dc g result c =
      let ro = get_client_option client o g.shard_id g.partition_hash g.route_to_edge_node dc in
      let (c', edges) = discover_batch ro g.unique_partition_hashes c in
      let (g', edges') = reassign edges (g, edges) in
      let (c'', servers) = discover_batch ro g'.unique_shard_ids c' in
      (c'', collect (insert_all edges' servers) g' result)

  unfoldable pub group_dcs :
      ClientOption
      → DcGroupInfos
      → List (String × AddressKeyMap)
      → Session s.State n.World
      → Session s.State n.World × List (String × AddressKeyMap)
  group_dcs o [] result c = (c, result)
  group_dcs o ((dc, g) ∷ infos) result c =
      let (c', result') = group_dc o dc g result c in group_dcs o infos result' c'

  unfoldable pub group :
      ClientOption
      → List LaserKv
      → Session s.State n.World
      → Outcome (Session s.State n.World × List (String × AddressKeyMap))
  group o kvs c = group_kvs o kvs 0 [] c >>= λ r. returned (group_dcs o r.1 [] r.0)
