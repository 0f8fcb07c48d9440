-- ===== src/LaserClient/Grouping/Carried.antt =====
-- What holds of every key of a batch with its index holds of those in the groups of its result.
use laser_db.Base.{
  ℕ, suc, ◌+◌, ◌≡◌, refl, subst, String, Option, none, some, List, [], ◌∷◌, ◌++◌, All, get_elem?,
  returned, Holds, >>=-Holds, >>=-Holds_any, returned-Holds, arith, if-both, nat_eq, string_eq,
}
use laser_db.Base.Maps.{lookup, lookup_or}
use laser_db.Base.Maps.Each.{Each, insert-Each, delete-Each, lookup_or-Each}
use laser_db.ServiceRouter.RouterDb.{CityHash}
use laser_db.ServiceRouter.Router.{Selecting}
use laser_db.LaserClient.Thrift.{LaserKv}
use laser_db.LaserClient.Options.{ClientOption}
use laser_db.LaserClient.Calls.{LaserClient, Network, Session}
use laser_db.LaserClient.Routing.{RouteInfo, get_route_info}
use laser_db.LaserClient.Grouping.{
  KeyToIndex, AddressKeyMap, DcGroupInfo, DcGroupInfos, Discovered, router_id, new_dc_group_info,
  add_unique, add_to_list, add_key, add_to_dc, move_list, move_to_shard, reassign, map_key,
  address_of, add_to_address, collect, group_kvs, group_dc, group_dcs, group,
}

module _ (P : KeyToIndex → Type 0) where
  abbrev pub Holding : DcGroupInfo → Type 0
  Holding g = Each (All P) g.route_id_to_indexs

  abbrev pub Carrying : AddressKeyMap → Type 0
  Carrying a = All P a.key_to_index_list

  All-append : (xs ys : List KeyToIndex) → All P xs → All P ys → All P (xs ++ ys)
  All-append [] ys hx hy = hy
  All-append (x ∷ xs) ys hx hy = (hx.0, All-append xs ys hx.1 hy)

  lookup-All :
      (id : ℕ) (m : List (ℕ × List KeyToIndex)) → Each (All P) m → All P (lookup_or [] id m)
  lookup-All id m h = lookup_or-Each (All P) id [] m tt h

  found-All :
      (id : ℕ) (m : List (ℕ × List KeyToIndex)) (list : List KeyToIndex)
      → lookup id m ≡ some list
      → Each (All P) m
      → All P list
  found-All id m list e h =
      subst (λ o. All P (elim o [ none ↦ [] | some l ↦ l ])) e (lookup-All id m h)

  add_to_list-Holding :
      (r : RouteInfo) (k : KeyToIndex) (g : DcGroupInfo) (o : Option (List KeyToIndex))
      → lookup (router_id r) g.route_id_to_indexs ≡ o
      → P k
      → Holding g
      → Holding (add_to_list r k g o)
  unfolding add_to_list add_unique
  add_to_list-Holding r k g none e h hs =
      let m = insert-Each (All P) (router_id r) (k ∷ []) g.route_id_to_indexs (h, tt) hs in
      if-both Holding r.route_to_edge_node m m
  add_to_list-Holding r k g (some list) e h hs =
      insert-Each (All P) (router_id r) (list ++ (k ∷ [])) g.route_id_to_indexs
        (All-append list (k ∷ []) (found-All (router_id r) g.route_id_to_indexs list e hs) (h, tt))
        hs

  add_to_dc-Holding :
      (r : RouteInfo) (k : KeyToIndex) (infos : DcGroupInfos)
      → P k
      → Each Holding infos
      → Each Holding (add_to_dc r k infos)
  unfolding add_to_dc add_key new_dc_group_info
  add_to_dc-Holding r k infos h hs =
      let g = lookup_or (new_dc_group_info r) r.dc infos in
      insert-Each Holding r.dc (add_key r k g) infos
        (add_to_list-Holding r k g (lookup (router_id r) g.route_id_to_indexs) refl h
          (lookup_or-Each Holding r.dc (new_dc_group_info r) infos tt hs))
        hs

  move_list-Holding :
      (g : DcGroupInfo) (hash shard : ℕ) (o : Option (List KeyToIndex))
      → lookup shard g.route_id_to_indexs ≡ o
      → Holding g
      → Holding (move_list g hash shard o)
  unfolding move_list
  move_list-Holding g hash shard none e hs = delete-Each (All P) hash _ (
      insert-Each (All P) shard _ g.route_id_to_indexs (lookup-All hash g.route_id_to_indexs hs) hs)
  move_list-Holding g hash shard (some list) e hs = delete-Each (All P) hash _ (
      insert-Each (All P) shard _ g.route_id_to_indexs
        (All-append list _ (found-All shard g.route_id_to_indexs list e hs)
          (lookup-All hash g.route_id_to_indexs hs))
        hs)

  move_to_shard-Holding :
      (p : DcGroupInfo × Discovered) (hash : ℕ) (o : Option ℕ)
      → Holding p.0
      → Holding (move_to_shard p hash o).0
  unfolding move_to_shard
  move_to_shard-Holding (g, edges) hash none h = h
  move_to_shard-Holding (g, edges) hash (some shard) h =
      move_list-Holding g hash shard (lookup shard g.route_id_to_indexs) refl h

  reassign-Holding :
      (entries : Discovered) (p : DcGroupInfo × Discovered)
      → Holding p.0
      → Holding (reassign entries p).0
  unfolding reassign
  reassign-Holding [] p h = h
  reassign-Holding ((hash, some server) ∷ entries) p h = reassign-Holding entries p h
  reassign-Holding ((hash, none) ∷ entries) p h =
      let o = lookup hash p.0.partition_hash_to_shard_ids in
      reassign-Holding entries (move_to_shard p hash o) (move_to_shard-Holding p hash o h)

  collect-Carrying :
      (entries : Discovered) (g : DcGroupInfo) (result : List (String × AddressKeyMap))
      → Holding g
      → Each Carrying result
      → Each Carrying (collect entries g result)
  unfolding collect add_to_address
  collect-Carrying [] g result h hs = hs
  collect-Carrying ((id, server) ∷ entries) g result h hs =
      let list = lookup_or [] id g.route_id_to_indexs in
      let new : AddressKeyMap = record { address = address_of server; key_to_index_list = [] } in
      let entry = lookup_or new (map_key server) result in
      collect-Carrying entries g (add_to_address server list result) h (
        insert-Each Carrying (map_key server)
          (record entry { key_to_index_list = entry.key_to_index_list ++ list }) result
          (All-append entry.key_to_index_list list
            (lookup_or-Each Carrying (map_key server) new result tt hs)
            (lookup-All id g.route_id_to_indexs h))
          hs)

  module _ (city : CityHash) (s : Selecting) (n : Network) (client : LaserClient) where
    group_dcs-Carrying :
        (o : ClientOption) (infos : DcGroupInfos) (result : List (String × AddressKeyMap))
        (c : Session s.State n.World)
        → Each Holding infos
        → Each Carrying result
        → Each Carrying (group_dcs city s n client o infos result c).1
    unfolding group_dcs group_dc
    group_dcs-Carrying o [] result c h hs = hs
    group_dcs-Carrying o ((dc, g) ∷ infos) result c h hs =
        let (c', result') = group_dc city s n client o dc g result c in
        group_dcs-Carrying o infos result' c' h.1
          (collect-Carrying _ _ result (reassign-Holding _ (g, _) h.0) hs)

    group_kvs-Holding :
        (o : ClientOption) (kvs : List LaserKv) (idx : ℕ) (infos : DcGroupInfos)
        (c : Session s.State n.World)
        → ((p : ℕ) (kv : LaserKv)
            → get_elem? kvs p ≡ some kv
            → P (record { kv = kv; idx = idx + p }))
        → Each Holding infos
        → Holds (λ r. Each Holding r.1) (group_kvs city s n client o kvs idx infos c)
    unfolding group_kvs
    group_kvs-Holding o [] idx infos c h hs = hs
    group_kvs-Holding o (kv ∷ kvs) idx infos c h hs =
        >>=-Holds_any (λ r. Each Holding r.1) (get_route_info city s n client kv.key o.read_mode c)
          _
          (λ r.
            group_kvs-Holding o kvs (suc idx) _ r.0
              (λ p kv' e.
                subst (λ i. P (record { kv = kv'; idx = i })) (omega arith) (h (suc p) kv' e))
              (add_to_dc-Holding r.1 _ infos
                (subst (λ i. P (record { kv = kv; idx = i })) (omega arith) (h 0 kv refl)) hs))

    pub group-Carrying :
        (o : ClientOption) (kvs : List LaserKv) (c : Session s.State n.World)
        (r : Session s.State n.World × List (String × AddressKeyMap))
        → ((p : ℕ) (kv : LaserKv) → get_elem? kvs p ≡ some kv → P (record { kv = kv; idx = p }))
        → group city s n client o kvs c ≡ returned r
        → Each Carrying r.1
    unfolding group
    group-Carrying o kvs c r h e =
        returned-Holds (λ q. Each Carrying q.1) _ r e
          (>>=-Holds (λ q. Each Holding q.1) (λ q. Each Carrying q.1)
            (group_kvs city s n client o kvs 0 [] c) _
            (group_kvs-Holding o kvs 0 [] c
              (λ p kv at_p.
                subst (λ i. P (record { kv = kv; idx = i })) (omega arith) (h p kv at_p))
              tt)
            (λ q hs. group_dcs-Carrying o q.1 [] q.0 hs tt))
