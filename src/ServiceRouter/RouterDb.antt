-- ===== src/ServiceRouter/RouterDb.antt =====
-- router_db.go: the services and configurations that a process knows. Locks are left out: each
-- operation is one step. A map is an association list, and a loop over a map runs in its order;
-- Go's order is open, and only the order of `last_partition_keys` depends on it.
pub mod Grouping
pub mod Update
use laser_db.Base.{
  ℕ, ◌+◌, ◌-◌, String, Bool, not, ◌&&◌, Option, none, some, List, ◌∷◌, ◌++◌, map, length, keep_if,
  ltb, nat_beq, ◌==◌, [], false, if◌then◌else◌, Eq, string_eq, nat_eq,
}
use laser_db.Base.Maps.{lookup, lookup_or, insert, delete_all, insert_all}
use laser_db.Base.Words.{add64}
use laser_db.ServiceRouter.Server.{
  Server, ServerList, ServiceConfig, ServiceRouterConfig, default_service_router_config, available,
  default_dc, uint32_max, shard_type_all, shard_type_leader, shard_type_follower,
}

-- `cityhash.CityHash64WithSeed` on a text and a seed: a third-party package.
abbrev pub CityHash : Type 0
CityHash = String → ℕ → ℕ

-- Keys are int64 in Go; here they are bit patterns.
pub record RouterDb : Type 0 where
  pub services : List (ℕ × ServerList)
  pub last_partition_keys : List (String × List ℕ)
  pub configs : List (String × ServiceConfig)

unfoldable pub get_service_key : CityHash → String → String → ℕ → String → String → ℕ
get_service_key city service_name protocol router_id shard_type dc =
    city shard_type (city protocol (city service_name (city dc router_id)))

unfoldable pub get_service_config : RouterDb → String → Option (List (String × String))
unfolding lookup
get_service_config rd service_name = elim (lookup service_name rd.configs) [
  | none ↦ none
  | some config ↦ config.configs
]

unfoldable pub get_service_router_config : RouterDb → String → ServiceRouterConfig
unfolding lookup
get_service_router_config rd service_name = elim (lookup service_name rd.configs) [
  | none ↦ default_service_router_config
  | some config ↦ config.router
]

-- `PickServers`, with the clock in milliseconds: not expired, and available.
abbrev pub is_live : ℕ → ℕ → Server → Bool
is_live now ttl s = not (ltb (add64 s.update_time ttl) now) && s.status == available

unfoldable pub pick_servers : RouterDb → ℕ → String → ServerList → ServerList
unfolding get_service_router_config add64
pick_servers rd now service_name servers =
    keep_if (is_live now (get_service_router_config rd service_name).ttl_in_ms) servers

-- `m[key] = append(m[key], sv)`
unfoldable pub append_server : ℕ → Server → List (ℕ × ServerList) → List (ℕ × ServerList)
unfolding insert lookup
append_server key sv m = insert key (lookup_or [] key m ++ sv ∷ []) m

unfoldable pub with_dc : Server → Server
with_dc sv = if sv.dc == "" then record sv { dc = default_dc } else sv

-- `availableShardList`, with the one shard of a service that has none.
unfoldable pub leader_shards : Server → List ℕ
leader_shards sv =
    if nat_beq (length sv.shard_list) 0 && nat_beq (length sv.follower_shard_list) 0
    then sv.available_shard_list ++ uint32_max ∷ []
    else sv.available_shard_list

module _ (city : CityHash) (service_name : String) where
  abbrev key_of : Server → ℕ → String → ℕ
  key_of sv id shard_type = get_service_key city service_name sv.protocol id shard_type sv.dc

  -- The loop over `PartitionList`.
  unfoldable pub add_partitions : Server → List ℕ → List (ℕ × ServerList) → List (ℕ × ServerList)
  unfolding get_service_key append_server
  add_partitions sv [] m = m
  add_partitions sv (p ∷ ps) m =
      add_partitions sv ps (append_server (key_of sv p shard_type_follower) sv m)

  -- The loop over the shards of a server in one role, each under the role and under `ALL`.
  unfoldable pub add_shards :
      String → Server → List ℕ → List (ℕ × ServerList) → List (ℕ × ServerList)
  unfolding get_service_key append_server
  add_shards role sv [] m = m
  add_shards role sv (shard ∷ shards) m = add_shards role sv shards (
      append_server (key_of sv shard shard_type_all) sv (append_server (key_of sv shard role) sv m))

  unfoldable pub add_to_partitions : Server → List (ℕ × ServerList) → List (ℕ × ServerList)
  unfolding add_partitions
  add_to_partitions sv m = if sv.is_edge_node then add_partitions sv sv.partition_list m else m

  unfoldable pub add_to_shards : Server → List (ℕ × ServerList) → List (ℕ × ServerList)
  unfolding add_shards leader_shards
  add_to_shards sv m =
      if sv.is_edge_node
      then m
      else add_shards shard_type_follower sv sv.follower_available_shard_list
          (add_shards shard_type_leader sv (leader_shards sv) m)

  -- The loop over the picked servers, for each of the two maps that it fills.
  unfoldable pub partition_servers : ServerList → List (ℕ × ServerList) → List (ℕ × ServerList)
  unfolding add_to_partitions with_dc
  partition_servers [] m = m
  partition_servers (sv ∷ svs) m = partition_servers svs (add_to_partitions (with_dc sv) m)

  unfoldable pub shard_servers : ServerList → List (ℕ × ServerList) → List (ℕ × ServerList)
  unfolding add_to_shards with_dc
  shard_servers [] m = m
  shard_servers (sv ∷ svs) m = shard_servers svs (add_to_shards (with_dc sv) m)

abbrev keys : List (ℕ × ServerList) → List ℕ
keys = map λ e. e.0

-- If nothing is left, all are tried.
unfoldable pub picked_or_all : ServerList → ServerList → ServerList
picked_or_all [] servers = servers
picked_or_all (s ∷ ss) servers = s ∷ ss

unfoldable pub update_servers : CityHash → RouterDb → ℕ → String → ServerList → RouterDb
unfolding pick_servers picked_or_all partition_servers shard_servers delete_all insert_all insert
    lookup
update_servers city rd now service_name [] = rd
update_servers city rd now service_name (s ∷ ss) =
    let picked = picked_or_all (pick_servers rd now service_name (s ∷ ss)) (s ∷ ss) in
    let partitions = partition_servers city service_name picked [] in
    let shards = shard_servers city service_name picked [] in
    let cleaned = delete_all (lookup_or [] service_name rd.last_partition_keys) rd.services in
    record rd {
      services = insert_all shards (insert_all partitions cleaned);
      last_partition_keys = insert service_name (keys partitions) rd.last_partition_keys;
    }

unfoldable pub update_config : RouterDb → String → ServiceConfig → RouterDb
unfolding insert
update_config rd service_name config = record rd { configs = insert service_name config rd.configs }

unfoldable pub select_servers :
    CityHash → RouterDb → String → String → ℕ → String → String → Option ServerList
unfolding get_service_key lookup
select_servers city rd service_name protocol router_id shard_type dc =
    lookup (get_service_key city service_name protocol router_id shard_type dc) rd.services

-- A router id with no servers is left out of the result.
unfoldable pub batch_select_servers :
    CityHash
    → RouterDb
    → String
    → String
    → List ℕ
    → String
    → String
    → List (ℕ × ServerList)
    → List (ℕ × ServerList)
unfolding select_servers insert
batch_select_servers city rd service_name protocol [] shard_type dc result = result
batch_select_servers city rd service_name protocol (id ∷ ids) shard_type dc result =
    batch_select_servers city rd service_name protocol ids shard_type dc
      (elim (select_servers city rd service_name protocol id shard_type dc) [
        | none ↦ result
        | some servers ↦ insert id servers result
      ])
