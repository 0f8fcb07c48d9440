-- ===== src/Control/ShardManager/Version.antt =====
-- shard_manager.go: the versions of the shards that are stored, and reading them back.
pub mod Cluster
pub mod Stored
pub mod Restored
pub mod RoundTrip
use laser_db.Base.{
  ℕ, String, ◌⊎◌, inl, inr, Bool, true, false, not, ◌||◌, none, some, List, [], ◌∷◌, ◌++◌, map,
  if◌then◌else◌, nat_beq, ◌==◌, nat_eq, string_eq,
}
use laser_db.Base.Maps.{lookup, lookup_or, insert}
use laser_db.Base.Maps.Keys.{keys, change_at}
use laser_db.Control.ShardManager.{ShardRole, leader, follower, Shard, NodeInfo, NodeMap}

-- `Active` and `Default`
pub data ShardVersionStatus : Type 0 where
  active default : ShardVersionStatus

-- A stored version; its row number is the database's. The time is the clock's.
pub record ShardStore : Type 0 where
  pub service_name : String
  pub version : String
  pub data_text : String
  pub status : ShardVersionStatus
  pub created_at : ℕ

pub record NodeVersionData : Type 0 where
  pub leader_shard_list : List ℕ
  pub follower_shard_list : List ℕ
  pub node_id : ℕ
  pub is_edge_node : Bool

pub record GroupVersionData : Type 0 where
  pub group_name : String
  pub dc : String
  pub nodes : List NodeVersionData

pub record DataCenterData : Type 0 where
  pub name : String
  pub shard_number : ℕ

pub record ShardVersionData : Type 0 where
  pub cluster_name : String
  pub shard_number : ℕ
  pub dcs : List DataCenterData
  pub groups : List GroupVersionData

-- The fields of a data centre that a version has.
pub record Dc : Type 0 where
  pub name : String
  pub shard_number : ℕ

-- The fields of the manager that the conversions read and write.
pub record ShardManager : Type 0 where
  pub service_name : String
  pub cluster_name : String
  pub shard_total : ℕ
  pub groups : List (String × NodeMap)
  pub dcs : List Dc
  pub group_to_dc : List (String × String)

-- What the code relies on: the sorts, the JSON format (an error is its message), and the clock
-- with its version name.
pub record Outside : Type 0 where
  pub sort_strings : List String → List String
  pub sort_ints : List ℕ → List ℕ
  pub marshal : ShardVersionData → String ⊎ String
  pub unmarshal : String → String ⊎ ShardVersionData
  pub now : ℕ
  pub version_now : String

-- A status, without the line that it comes from.
pub record Status : Type 0 where
  pub code : ℕ
  pub message : String

abbrev pub no_error : Status
no_error = record { code = 0; message = "" }

abbrev pub is_leader : Shard → Bool
is_leader s = elim s.role [ leader ↦ true | follower ↦ false ]

-- The ids of the shards of one role, in their order.
unfoldable pub ids_of : Bool → List Shard → List ℕ
ids_of leads [] = []
ids_of leads (s ∷ shards) =
    let rest = ids_of leads shards in
    if (if leads then is_leader s else not (is_leader s)) then s.shard_id ∷ rest else rest

unfoldable pub node_version : NodeInfo → NodeVersionData
unfolding ids_of
node_version n = record {
  leader_shard_list = ids_of true n.shards;
  follower_shard_list = ids_of false n.shards;
  node_id = n.node_id;
  is_edge_node = n.is_edge_node;
}

-- A node of another group and an inactive node are left out.
unfoldable pub is_stored : String → NodeInfo → Bool
is_stored name n = not (not (n.group_name == name) || nat_beq n.active 0)

-- The loop over the ids of a group; they are its keys, so there is a node at each.
unfoldable pub node_versions : String → NodeMap → List ℕ → List NodeVersionData
unfolding is_stored node_version lookup
node_versions name group [] = []
node_versions name group (id ∷ ids) =
    let rest = node_versions name group ids in
    elim (lookup id group) [
      | none ↦ rest
      | some n ↦ if is_stored name n then node_version n ∷ rest else rest
    ]

-- The shards of one role, from their ids; their state is the zero value.
abbrev pub new_shards : String → ℕ → ShardRole → List ℕ → List Shard
new_shards name node_id role ids =
    map
      (λ id. record { group_name = name; node_id = node_id; shard_id = id; role = role; state = 0 })
      ids

-- The shards of a stored node.
unfoldable pub read_shards : String → NodeVersionData → List Shard
read_shards name v =
    new_shards name v.node_id leader v.leader_shard_list
    ++ new_shards name v.node_id follower v.follower_shard_list

-- A version's nodes and groups change those that the manager has; others are passed over.
unfoldable pub load_node : String → NodeMap → NodeVersionData → NodeMap
unfolding read_shards lookup insert
load_node name group v =
    change_at v.node_id (λ n. record n { shards = n.shards ++ read_shards name v }) group

unfoldable pub load_nodes : String → NodeMap → List NodeVersionData → NodeMap
unfolding load_node
load_nodes name group [] = group
load_nodes name group (v ∷ vs) = load_nodes name (load_node name group v) vs

unfoldable pub load_group : List (String × NodeMap) → GroupVersionData → List (String × NodeMap)
unfolding load_nodes lookup insert
load_group groups v = change_at v.group_name (λ group. load_nodes v.group_name group v.nodes) groups

unfoldable pub load_groups :
    List (String × NodeMap) → List GroupVersionData → List (String × NodeMap)
unfolding load_group
load_groups groups [] = groups
load_groups groups (v ∷ vs) = load_groups (load_group groups v) vs

-- The shards that are there are removed.
unfoldable pub clear_group : NodeMap → NodeMap
clear_group [] = []
clear_group ((id, n) ∷ group) = (id, record n { shards = [] }) ∷ clear_group group

unfoldable pub clear_groups : List (String × NodeMap) → List (String × NodeMap)
unfolding clear_group
clear_groups [] = []
clear_groups ((name, group) ∷ groups) = (name, clear_group group) ∷ clear_groups groups

module _ (outside : Outside) where
  unfoldable pub group_version : ShardManager → String → GroupVersionData
  unfolding node_versions lookup
  group_version m name =
      let group = lookup_or [] name m.groups in
      record {
        group_name = name;
        dc = lookup_or "default" name m.group_to_dc;
        nodes = node_versions name group (outside.sort_ints (keys group));
      }

  unfoldable pub convert_node_shards_to_version_data : ShardManager → ShardVersionData
  unfolding group_version
  convert_node_shards_to_version_data m = record {
    cluster_name = m.cluster_name;
    shard_number = m.shard_total;
    dcs = map (λ dc. record { name = dc.name; shard_number = dc.shard_number }) m.dcs;
    groups = map (group_version m) (outside.sort_strings (keys m.groups));
  }

  abbrev pub new_store : ShardManager → String → ShardStore
  new_store m text = record {
    service_name = m.service_name;
    version = outside.version_now;
    data_text = text;
    status = active;
    created_at = outside.now;
  }

  unfoldable pub convert_node_shards_to_shard_store : ShardManager → ShardStore × Status
  unfolding convert_node_shards_to_version_data
  convert_node_shards_to_shard_store m =
      elim (outside.marshal (convert_node_shards_to_version_data m)) [
        | inl message ↦ (new_store m "", record { code = 1; message = message })
        | inr text ↦ (new_store m text, no_error)
      ]

  unfoldable pub convert_version_to_node_shards : ShardManager → ShardStore → Status × ShardManager
  unfolding clear_groups load_groups
  convert_version_to_node_shards m version = elim (outside.unmarshal version.data_text) [
    | inl message ↦ (record { code = 1; message = message }, m)
    | inr d ↦
        if not (d.cluster_name == m.cluster_name)
        then (record { code = 1; message = "目前分片信息不是当前集群的配置" }, m)
        else (if not (nat_beq d.shard_number m.shard_total)
            then (record { code = 1; message = "分片总数不一致，需要重新分配" }, m)
            else (no_error, record m { groups = load_groups (clear_groups m.groups) d.groups }))
  ]
