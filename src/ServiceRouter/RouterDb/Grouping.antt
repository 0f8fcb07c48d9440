-- ===== src/ServiceRouter/RouterDb/Grouping.antt =====
-- The maps that `UpdateServers` builds, as the grouping of a list of keys with servers.
use mathlib.Core.List.{append_assoc}
use laser_db.Base.{
  ℕ, String, ◌≡◌, refl, sym, ap, subst, ◌∙◌, Option, none, some, List, [], ◌∷◌, ◌++◌, arith,
  nat_beq, if◌then◌else◌, nat_eq, string_eq,
}
use laser_db.Base.Maps.{lookup, lookup_or, lookup-insert, Distinct, insert-Distinct}
use laser_db.ServiceRouter.Server.{
  Server, ServerList, shard_type_all, shard_type_leader, shard_type_follower,
}
use laser_db.ServiceRouter.RouterDb.{
  CityHash, get_service_key, append_server, with_dc, add_partitions, add_shards, leader_shards,
  add_to_partitions, add_to_shards, partition_servers, shard_servers,
}

abbrev pub Pairs : Type 0
Pairs = List (ℕ × Server)

-- The servers that a list of pairs has under a key, in order.
abbrev pub servers_at : ℕ → Pairs → ServerList
servers_at key [] = []
servers_at key ((k, s) ∷ ps) = if nat_beq k key then s ∷ servers_at key ps else servers_at key ps

group : Pairs → List (ℕ × ServerList) → List (ℕ × ServerList)
group [] m = m
group ((k, s) ∷ ps) m = group ps (append_server k s m)

group-append :
    (ps qs : Pairs) (m : List (ℕ × ServerList)) → group (ps ++ qs) m ≡ group qs (group ps m)
unfolding group
group-append [] qs m = refl
group-append ((k, s) ∷ ps) qs m = group-append ps qs (append_server k s m)

append_server-Distinct :
    (k : ℕ) (s : Server) (m : List (ℕ × ServerList)) → Distinct m → Distinct (append_server k s m)
unfolding append_server
append_server-Distinct k s m d = insert-Distinct k _ m d

group-Distinct : (ps : Pairs) (m : List (ℕ × ServerList)) → Distinct m → Distinct (group ps m)
unfolding group
group-Distinct [] m d = d
group-Distinct ((k, s) ∷ ps) m d = group-Distinct ps _ (append_server-Distinct k s m d)

-- What an entry grows to.
abbrev pub extended : Option ServerList → ServerList → Option ServerList
extended o [] = o
extended none (s ∷ ss) = some (s ∷ ss)
extended (some l) (s ∷ ss) = some (l ++ s ∷ ss)

lookup-append_server :
    (k j : ℕ) (s : Server) (m : List (ℕ × ServerList))
    → lookup j (append_server k s m)
      ≡ (if nat_beq k j then extended (lookup j m) (s ∷ []) else lookup j m)
unfolding append_server
lookup-append_server k j s m = ground (arith, lookup-insert k j (lookup_or [] k m ++ s ∷ []) m)

extended-append :
    (o : Option ServerList) (s : Server) (ss : ServerList)
    → extended (extended o (s ∷ [])) ss ≡ extended o (s ∷ ss)
extended-append none s [] = refl
extended-append none s (t ∷ ss) = refl
extended-append (some l) s [] = refl
extended-append (some l) s (t ∷ ss) = ap some (append_assoc l (s ∷ []) (t ∷ ss))

lookup-group :
    (ps : Pairs) (j : ℕ) (m : List (ℕ × ServerList))
    → lookup j (group ps m) ≡ extended (lookup j m) (servers_at j ps)
unfolding group
lookup-group [] j m = refl
lookup-group ((k, s) ∷ ps) j m =
    lookup-group ps j (append_server k s m)
    ∙ ground (arith, lookup-append_server k j s m, extended-append (lookup j m) s (servers_at j ps))

-- The pairs of a list of servers, each with its data centre filled in.
abbrev pub pairs_of : (Server → Pairs) → ServerList → Pairs
pairs_of f [] = []
pairs_of f (sv ∷ svs) = f (with_dc sv) ++ pairs_of f svs

module _ (city : CityHash) (service_name : String) where
  abbrev key_of : Server → ℕ → String → ℕ
  key_of sv id shard_type = get_service_key city service_name sv.protocol id shard_type sv.dc

  -- Where a server is filed for a list of partitions, and for its shards in one role.
  abbrev pub partition_pairs : Server → List ℕ → Pairs
  partition_pairs sv [] = []
  partition_pairs sv (p ∷ ps) = (key_of sv p shard_type_follower, sv) ∷ partition_pairs sv ps

  abbrev pub role_pairs : String → Server → List ℕ → Pairs
  role_pairs role sv [] = []
  role_pairs role sv (shard ∷ shards) =
      (key_of sv shard role, sv) ∷ (key_of sv shard shard_type_all, sv) ∷ role_pairs role sv shards

  abbrev pub edge_pairs : Server → Pairs
  edge_pairs sv = if sv.is_edge_node then partition_pairs sv sv.partition_list else []

  abbrev pub shard_pairs : Server → Pairs
  shard_pairs sv =
      if sv.is_edge_node
      then []
      else role_pairs shard_type_leader sv (leader_shards sv)
        ++ role_pairs shard_type_follower sv sv.follower_available_shard_list

  add_partitions-group :
      (sv : Server) (ps : List ℕ) (m : List (ℕ × ServerList))
      → add_partitions city service_name sv ps m ≡ group (partition_pairs sv ps) m
  unfolding add_partitions group
  add_partitions-group sv [] m = refl
  add_partitions-group sv (p ∷ ps) m = add_partitions-group sv ps _

  add_shards-group :
      (role : String) (sv : Server) (shards : List ℕ) (m : List (ℕ × ServerList))
      → add_shards city service_name role sv shards m ≡ group (role_pairs role sv shards) m
  unfolding add_shards group
  add_shards-group role sv [] m = refl
  add_shards-group role sv (shard ∷ shards) m = add_shards-group role sv shards _

  add_to_partitions-group :
      (sv : Server) (m : List (ℕ × ServerList))
      → add_to_partitions city service_name sv m ≡ group (edge_pairs sv) m
  unfolding add_to_partitions group
  add_to_partitions-group sv m = ground (arith, add_partitions-group sv sv.partition_list m)

  add_to_shards-group :
      (sv : Server) (m : List (ℕ × ServerList))
      → add_to_shards city service_name sv m ≡ group (shard_pairs sv) m
  unfolding add_to_shards group
  add_to_shards-group sv m = ground (arith, both)
    where
      followers : Pairs
      followers = role_pairs shard_type_follower sv sv.follower_available_shard_list

      both :
          add_shards city service_name shard_type_follower sv sv.follower_available_shard_list
            (add_shards city service_name shard_type_leader sv (leader_shards sv) m)
          ≡ group (role_pairs shard_type_leader sv (leader_shards sv) ++ followers) m
      both =
          add_shards-group shard_type_follower sv sv.follower_available_shard_list _
          ∙ ap (group followers) (add_shards-group shard_type_leader sv (leader_shards sv) m)
          ∙ sym (group-append (role_pairs shard_type_leader sv (leader_shards sv)) followers m)

  partition_servers-group :
      (svs : ServerList) (m : List (ℕ × ServerList))
      → partition_servers city service_name svs m ≡ group (pairs_of edge_pairs svs) m
  unfolding partition_servers group
  partition_servers-group [] m = refl
  partition_servers-group (sv ∷ svs) m =
      partition_servers-group svs _
      ∙ ap (group (pairs_of edge_pairs svs)) (add_to_partitions-group (with_dc sv) m)
      ∙ sym (group-append (edge_pairs (with_dc sv)) (pairs_of edge_pairs svs) m)

  shard_servers-group :
      (svs : ServerList) (m : List (ℕ × ServerList))
      → shard_servers city service_name svs m ≡ group (pairs_of shard_pairs svs) m
  unfolding shard_servers group
  shard_servers-group [] m = refl
  shard_servers-group (sv ∷ svs) m =
      shard_servers-group svs _
      ∙ ap (group (pairs_of shard_pairs svs)) (add_to_shards-group (with_dc sv) m)
      ∙ sym (group-append (shard_pairs (with_dc sv)) (pairs_of shard_pairs svs) m)

  -- What the two maps hold under a key.
  pub lookup-partition_servers :
      (svs : ServerList) (key : ℕ)
      → lookup key (partition_servers city service_name svs [])
        ≡ extended none (servers_at key (pairs_of edge_pairs svs))
  unfolding lookup
  lookup-partition_servers svs key =
      ap (lookup key) (partition_servers-group svs [])
      ∙ lookup-group (pairs_of edge_pairs svs) key []

  pub lookup-shard_servers :
      (svs : ServerList) (key : ℕ)
      → lookup key (shard_servers city service_name svs [])
        ≡ extended none (servers_at key (pairs_of shard_pairs svs))
  unfolding lookup
  lookup-shard_servers svs key =
      ap (lookup key) (shard_servers-group svs []) ∙ lookup-group (pairs_of shard_pairs svs) key []

  pub partition_servers-Distinct :
      (svs : ServerList) → Distinct (partition_servers city service_name svs [])
  partition_servers-Distinct svs =
      subst Distinct (sym (partition_servers-group svs []))
        (group-Distinct (pairs_of edge_pairs svs) [] tt)

  pub shard_servers-Distinct :
      (svs : ServerList) → Distinct (shard_servers city service_name svs [])
  shard_servers-Distinct svs =
      subst Distinct (sym (shard_servers-group svs []))
        (group-Distinct (pairs_of shard_pairs svs) [] tt)
