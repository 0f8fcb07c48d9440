-- ===== src/Examples/Shards.antt =====
-- shard_manager.go at a concrete group, with numbers rounded down.
use mathlib.Core.List.Permᴰ
use laser_db.Base.{
  ℕ, ◌*◌, ◌/◌, ◌≡◌, refl, inr, Bool, true, false, some, [], ◌∷◌, arith, nat_eq, string_eq,
}
use laser_db.Base.Maps.{lookup, insert}
use laser_db.Control.ShardManager.Version.{
  ShardManager, ShardVersionData, Outside, no_error, is_stored, convert_node_shards_to_version_data,
  node_version, group_version, node_versions, ids_of, clear_groups, clear_group,
  convert_node_shards_to_shard_store, convert_version_to_node_shards,
}
use laser_db.Control.ShardManager.Version.Cluster.{
  ClusterInfo, update_cluster_info, add_groups, add_nodes, update_cluster_info-IsManager,
}
use laser_db.Control.ShardManager.Version.RoundTrip.{IsSorting, IsManager, node_at, read-store}
use laser_db.Control.ShardManager.{Shard, ShardRole, leader, follower}
use laser_db.Control.ShardManager.{
  NodeInfo, NodeMap, Share, shard_number, nodes_of, assign_shard_by_role, assign_group,
}
use laser_db.Control.ShardManager.Fresh.{CanAssign, all_ids}
use laser_db.Control.ShardManager.Groups.{assign_group-all}

abbrev floors : Share
floors weight weights shard_total = weight * shard_total / weights

abbrev node : ℕ → ℕ → Bool → NodeInfo
node id weight master = record {
  group_name = "main";
  node_id = id;
  host = "";
  port = 0;
  weight = weight;
  master = master;
  active = 1;
  shards = [];
  is_edge_node = false;
}

abbrev main : NodeMap
main = (1, node 1 1 true) ∷ (2, node 2 1 false) ∷ (3, node 3 2 true) ∷ []

main-CanAssign : (b : Bool) → CanAssign floors 5 (nodes_of b main)
unfolding nodes_of lookup
main-CanAssign true = record {
  distinct = (refl, (refl, tt));
  ids = (omega arith, (omega arith, tt));
  empty = (refl, (refl, tt));
  small = omega arith;
}
main-CanAssign false = record {
  distinct = (refl, tt);
  ids = (omega arith, tt);
  empty = (refl, tt);
  small = omega arith;
}

assign_group-all_example :
    all_ids (nodes_of true (assign_group floors 5 main)) ≡ 0 ∷ 1 ∷ 2 ∷ 3 ∷ 4 ∷ []
unfolding nodes_of
assign_group-all_example =
    assign_group-all floors 5 true main (main-CanAssign true) (main-CanAssign false)

leader_numbers : shard_number floors 5 (nodes_of true main) ≡ (1, 1) ∷ (3, 4) ∷ []
unfolding shard_number nodes_of
leader_numbers = refl

abbrev held : ℕ → ShardRole → Shard
held id role = record { group_name = "main"; node_id = 1; shard_id = id; role = role; state = 2 }

abbrev with_shards : NodeInfo
with_shards = record (node 1 1 true) {
  shards = held 4 follower ∷ held 0 leader ∷ held 3 leader ∷ [];
}

abbrev cluster : ShardManager
cluster = record {
  service_name = "laser";
  cluster_name = "demo";
  shard_total = 5;
  groups = ("main", (1, with_shards) ∷ (2, node 2 1 false) ∷ []) ∷ [];
  dcs = record { name = "bj"; shard_number = 5 } ∷ [];
  group_to_dc = ("main", "bj") ∷ [];
}

-- A manager that has just started: its nodes have no shards.
abbrev started : ShardManager
started = record cluster { groups = ("main", (1, node 1 1 true) ∷ (2, node 2 1 false) ∷ []) ∷ [] }

abbrev stored_data : ShardVersionData
stored_data = record {
  cluster_name = "demo";
  shard_number = 5;
  dcs = record { name = "bj"; shard_number = 5 } ∷ [];
  groups =
      record {
        group_name = "main";
        dc = "bj";
        nodes =
            record {
              leader_shard_list = 0 ∷ 3 ∷ [];
              follower_shard_list = 4 ∷ [];
              node_id = 1;
              is_edge_node = false;
            }
            ∷ record {
              leader_shard_list = [];
              follower_shard_list = [];
              node_id = 2;
              is_edge_node = false;
            }
            ∷ [];
      }
      ∷ [];
}

abbrev outside : Outside
outside = record {
  sort_strings = λ l. l;
  sort_ints = λ l. l;
  marshal = λ d. inr "{}";
  unmarshal = λ text. inr stored_data;
  now = 1600000000;
  version_now = "2020_9_13_12_26_40";
}

outside-IsSorting : IsSorting outside
outside-IsSorting = record { strings_same = Permᴰ.refl; ints_same = Permᴰ.refl }

abbrev demo : ClusterInfo
demo = record {
  name = "demo";
  shard_total = 5;
  dcs = record { name = "bj"; shard_number = 5 } ∷ [];
  groups =
      record {
        name = "main";
        dc_name = "bj";
        nodes =
            record with_shards { host = "10.0.0.1" } ∷ record (node 2 1 false) { port = 2020 } ∷ [];
      }
      ∷ [];
}

cluster-IsManager : IsManager cluster.groups
unfolding update_cluster_info add_groups add_nodes insert
cluster-IsManager = update_cluster_info-IsManager cluster demo

read-store_example :
    ((convert_node_shards_to_shard_store outside cluster).1 ≡ no_error)
    × ((convert_version_to_node_shards outside started
          (convert_node_shards_to_shard_store outside cluster).0).0
        ≡ no_error)
    × (node_at "main" 1
          (convert_version_to_node_shards outside started
            (convert_node_shards_to_shard_store outside cluster).0).1.groups
        ≡ some (record with_shards {
          shards =
              record (held 0 leader) { state = 0 }
              ∷ record (held 3 leader) { state = 0 }
              ∷ record (held 4 follower) { state = 0 }
              ∷ [];
        }))
unfolding is_stored convert_node_shards_to_version_data node_version group_version node_versions
    ids_of lookup clear_groups clear_group
read-store_example =
    read-store outside outside-IsSorting cluster started "{}" "main"
      ((1, with_shards) ∷ (2, node 2 1 false) ∷ []) 1 with_shards cluster-IsManager refl refl refl
      refl refl refl refl

-- A node joins one that has all four shards: it gets two that the first one keeps.
abbrev full : NodeInfo
full = record (node 1 1 true) {
  shards = held 0 leader ∷ held 1 leader ∷ held 2 leader ∷ held 3 leader ∷ [];
}

joined_twice :
    all_ids (assign_shard_by_role floors 4 (full ∷ node 2 1 true ∷ [])) ≡ 0 ∷ 1 ∷ 0 ∷ 1 ∷ []
unfolding assign_shard_by_role
joined_twice = refl
