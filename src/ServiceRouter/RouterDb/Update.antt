-- ===== src/ServiceRouter/RouterDb/Update.antt =====
-- What `SelectServers` returns after `UpdateServers`.
use mathlib.Core.Path.{ap₂}
use laser_db.Base.{
  ℕ, ◌+◌, ◌%◌, ◌^◌, String, ◌≡◌, refl, ap, ◌∙◌, false, ◌&&◌, Option, none, some, keep_if, length,
  ltb, leb, lt→ltb, arith, ◌==◌, List, [], ◌∷◌, if◌then◌else◌, nat_eq, string_eq,
}
use laser_db.Base.Maps.{
  lookup, lookup_or, insert_all, delete_all, has_key, or_else, lookup-insert_all, lookup-delete_all,
}
use laser_db.Base.Words.{add64}
use laser_db.ServiceRouter.Server.{
  Server, ServerList, ServiceConfig, ServiceRouterConfig, default_service_router_config,
}
use laser_db.ServiceRouter.RouterDb.{
  CityHash, RouterDb, get_service_key, is_live, get_service_router_config, pick_servers,
  picked_or_all, partition_servers, shard_servers, update_servers, select_servers,
}
use laser_db.ServiceRouter.RouterDb.Grouping.{
  servers_at, pairs_of, edge_pairs, shard_pairs, extended, lookup-partition_servers,
  lookup-shard_servers, partition_servers-Distinct, shard_servers-Distinct,
}

-- The time to live of the servers of a service, in milliseconds.
abbrev pub ttl_of : Option ServiceConfig → ℕ
ttl_of none = default_service_router_config.ttl_in_ms
ttl_of (some config) = config.router.ttl_in_ms

-- The servers that say that they are available and whose last update is not older than the time to
-- live; all of them, if there is none.
abbrev pub live_or_all : RouterDb → ℕ → String → ServerList → ServerList
live_or_all rd now name servers =
    let ttl = ttl_of (lookup name rd.configs) in
    let live =
      keep_if (λ s. leb now ((s.update_time + ttl) % 2 ^ 64) && s.status == "available") servers in
    if ltb 0 (length live) then live else servers

router-ttl_of :
    (o : Option ServiceConfig)
    → (elim o as (λ x. ServiceRouterConfig) [
      | none ↦ default_service_router_config
      | some config ↦ config.router
    ]).ttl_in_ms
      ≡ ttl_of o
router-ttl_of none = refl
router-ttl_of (some config) = refl

keep_if-live :
    (now ttl : ℕ) (servers : ServerList)
    → keep_if (is_live now ttl) servers
      ≡ keep_if (λ s. leb now ((s.update_time + ttl) % 2 ^ 64) && s.status == "available") servers
unfolding add64
keep_if-live now ttl [] = refl
keep_if-live now ttl (s ∷ ss) = ground (arith, keep_if-live now ttl ss)

picked_or_all-length :
    (picked servers : ServerList)
    → picked_or_all picked servers ≡ (if ltb 0 (length picked) then picked else servers)
unfolding picked_or_all
picked_or_all-length [] servers = refl
picked_or_all-length (s ∷ ss) servers = rw (lt→ltb 0 (length (s ∷ ss)) (omega arith)) refl

-- `PickServers`, with what takes its place where it leaves nothing.
pub picked_or_all-live :
    (rd : RouterDb) (now : ℕ) (name : String) (servers : ServerList)
    → picked_or_all (pick_servers rd now name servers) servers ≡ live_or_all rd now name servers
unfolding pick_servers get_service_router_config
picked_or_all-live rd now name servers =
    picked_or_all-length (pick_servers rd now name servers) servers
    ∙ ap (λ (l : ServerList). if ltb 0 (length l) then l else servers)
        (ap (λ t. keep_if (is_live now t) servers) (router-ttl_of (lookup name rd.configs))
          ∙ keep_if-live now (ttl_of (lookup name rd.configs)) servers)

pub services-picked :
    (city : CityHash) (rd : RouterDb) (now : ℕ) (service_name : String) (s : Server)
    (ss : ServerList) (key : ℕ)
    → let picked = picked_or_all (pick_servers rd now service_name (s ∷ ss)) (s ∷ ss) in
      lookup key (update_servers city rd now service_name (s ∷ ss)).services
      ≡ or_else (extended none (servers_at key (pairs_of (shard_pairs city service_name) picked))) (
          or_else
            (extended none (servers_at key (pairs_of (edge_pairs city service_name) picked)))
            (if has_key key (lookup_or [] service_name rd.last_partition_keys)
              then none
              else lookup key rd.services))
unfolding update_servers
services-picked city rd now service_name s ss key =
    lookup-insert_all shards key (insert_all partitions cleaned)
      (shard_servers-Distinct city service_name picked)
    ∙ ap₂ or_else (lookup-shard_servers city service_name picked key) (
        lookup-insert_all partitions key cleaned
          (partition_servers-Distinct city service_name picked)
        ∙ ap₂ or_else (lookup-partition_servers city service_name picked key)
            (lookup-delete_all (lookup_or [] service_name rd.last_partition_keys) key rd.services))
  where
    picked : ServerList
    picked = picked_or_all (pick_servers rd now service_name (s ∷ ss)) (s ∷ ss)

    shards : List (ℕ × ServerList)
    shards = shard_servers city service_name picked []

    partitions : List (ℕ × ServerList)
    partitions = partition_servers city service_name picked []

    cleaned : List (ℕ × ServerList)
    cleaned = delete_all (lookup_or [] service_name rd.last_partition_keys) rd.services

-- What the map of services holds under a key after an update with a list that is not empty: the
-- servers that file a shard there, in the order of the list; if there are none, those that file a
-- partition there; if there are none, what it held before, unless the last update filed a
-- partition there. Only servers that are available and whose last update is not older than the time
-- to live count, or all of them if there is none.
pub services-update_servers :
    (city : CityHash) (rd : RouterDb) (now : ℕ) (service_name : String) (s : Server)
    (ss : ServerList) (key : ℕ)
    → let live = live_or_all rd now service_name (s ∷ ss) in
      lookup key (update_servers city rd now service_name (s ∷ ss)).services
      ≡ or_else (extended none (servers_at key (pairs_of (shard_pairs city service_name) live))) (
          or_else (extended none (servers_at key (pairs_of (edge_pairs city service_name) live))) (
            if has_key key (lookup_or [] service_name rd.last_partition_keys)
            then none
            else lookup key rd.services))
services-update_servers city rd now service_name s ss key =
    services-picked city rd now service_name s ss key
    ∙ ap
        (λ live.
          or_else (extended none (servers_at key (pairs_of (shard_pairs city service_name) live))) (
            or_else (extended none (servers_at key (pairs_of (edge_pairs city service_name) live)))
              (if has_key key (lookup_or [] service_name rd.last_partition_keys)
                then none
                else lookup key rd.services)))
        (picked_or_all-live rd now service_name (s ∷ ss))

-- The servers under the key of a shard, or of a partition, that an update files there.
abbrev pub filed_shard : CityHash → RouterDb → ℕ → String → ServerList → ℕ → ServerList
filed_shard city rd now name servers key =
    servers_at key
      (pairs_of (shard_pairs city name) (picked_or_all (pick_servers rd now name servers) servers))

abbrev pub filed_partition : CityHash → RouterDb → ℕ → String → ServerList → ℕ → ServerList
filed_partition city rd now name servers key =
    servers_at key
      (pairs_of (edge_pairs city name) (picked_or_all (pick_servers rd now name servers) servers))

-- A shard that no server of the new list files stays with the servers of an earlier list, unless
-- its key is a partition's: `UpdateServers` never takes a shard out.
pub select_servers-stale :
    (city : CityHash) (rd : RouterDb) (now : ℕ) (name protocol : String) (s : Server)
    (ss : ServerList) (id : ℕ) (shard_type dc : String)
    → filed_shard city rd now name (s ∷ ss) (get_service_key city name protocol id shard_type dc)
      ≡ []
    → filed_partition city rd now name
        (s ∷ ss)
        (get_service_key city name protocol id shard_type dc)
      ≡ []
    → has_key
        (get_service_key city name protocol id shard_type dc)
        (lookup_or [] name rd.last_partition_keys)
      ≡ false
    → select_servers city (update_servers city rd now name (s ∷ ss)) name protocol id shard_type dc
      ≡ select_servers city rd name protocol id shard_type dc
unfolding select_servers
select_servers-stale city rd now name protocol s ss id shard_type dc no_shard no_edge no_old =
    services-picked city rd now name s ss _ ∙ rw (no_shard, no_edge, no_old)
