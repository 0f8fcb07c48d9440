-- ===== src/LaserClient/Grouping/Collected.antt =====
-- What the two discoveries of a data centre and the last loop make of its lists.
use laser_db.Base.{
  ℕ, ◌+◌, ◌≡◌, ◌≢◌, String, Option, some, List, [], ◌∷◌, ◌++◌, arith, nat_eq, string_eq,
}
use laser_db.Base.Maps.{has_key, lookup, lookup_or, insert_all, lookup-insert_all, Distinct}
use laser_db.Base.Maps.Totals.{
  flag, counted, insert_all-Distinct, total, total-insert, total_at, total_at-same,
}
use laser_db.Base.Maps.Each.{Each}
use laser_db.ServiceRouter.Server.{Server}
use laser_db.ServiceRouter.RouterDb.{CityHash}
use laser_db.ServiceRouter.Router.{Selecting}
use laser_db.LaserClient.Options.{ClientOption}
use laser_db.LaserClient.Calls.{LaserClient, Network, Session, get_client_option}
use laser_db.LaserClient.Grouping.{
  KeyToIndex, AddressKeyMap, DcGroupInfo, DcGroupInfos, Discovered, map_key, address_of,
  add_to_address, collect, reassign, discover_batch, group_dc, group_dcs,
}
use laser_db.LaserClient.Grouping.Discovered.{discover_batch-keys, discover_batch-Distinct}
use laser_db.LaserClient.Grouping.Moved.{count, count-append, placed, IsSplit, reassign-split}

-- How often an index is in the groups of a result.
abbrev pub found_in : ℕ → List (String × AddressKeyMap) → ℕ
found_in i result = total (λ a. count i a.key_to_index_list) result

add_to_address-found_in :
    (i : ℕ) (server : Option Server) (list : List KeyToIndex)
    (result : List (String × AddressKeyMap))
    → found_in i (add_to_address server list result) ≡ found_in i result + count i list
unfolding add_to_address
add_to_address-found_in i server list result =
    let entry =
      lookup_or (record { address = address_of server; key_to_index_list = [] }) (map_key server)
        result in
    let entry' = record entry { key_to_index_list = entry.key_to_index_list ++ list } in
    ground (
      arith,
      total-insert (λ a. count i a.key_to_index_list) (map_key server) entry' result,
      count-append i entry.key_to_index_list list,
    )

collect-found_in :
    (i : ℕ) (entries : Discovered) (g : DcGroupInfo) (result : List (String × AddressKeyMap))
    → found_in i (collect entries g result)
      ≡ found_in i result + total_at (count i) entries g.route_id_to_indexs
unfolding collect
collect-found_in i [] g result = omega arith
collect-found_in i ((id, server) ∷ entries) g result =
    let list = lookup_or [] id g.route_id_to_indexs in
    ground (
      arith,
      collect-found_in i entries g (add_to_address server list result),
      add_to_address-found_in i server list result,
    )

-- A data centre after the loop over its keys: an id with a list is a hash or a shard to ask for.
pub record IsGrouped (g : DcGroupInfo) : Type 0 where
  pub distinct : Distinct g.route_id_to_indexs
  pub keys :
      (j : ℕ)
      → counted (lookup j g.route_id_to_indexs)
        ≡ flag (has_key j g.unique_partition_hashes) + flag (has_key j g.unique_shard_ids)
  pub apart :
      (hash shard : ℕ) → lookup hash g.partition_hash_to_shard_ids ≡ some shard → shard ≢ hash

abbrev pub AllGrouped : DcGroupInfos → Type 0
AllGrouped infos = Each IsGrouped infos

merged-keys :
    (g : DcGroupInfo) (edges servers : Discovered) (j : ℕ)
    → IsSplit g edges
    → Distinct edges
    → counted (lookup j servers) ≡ flag (has_key j g.unique_shard_ids)
    → counted (lookup j (insert_all edges servers)) ≡ counted (lookup j g.route_id_to_indexs)
merged-keys g edges servers j split d asked =
    ground (arith, split.keys j, asked, lookup-insert_all edges j servers d)

module _ (city : CityHash) (s : Selecting) (n : Network) (client : LaserClient) where
  group_dc-found_in :
      (i : ℕ) (o : ClientOption) (dc : String) (g : DcGroupInfo)
      (result : List (String × AddressKeyMap)) (c : Session s.State n.World)
      → IsGrouped g
      → found_in i (group_dc city s n client o dc g result c).1 ≡ found_in i result + placed i g
  unfolding group_dc
  group_dc-found_in i o dc g result c h =
      let ro = get_client_option client o g.shard_id g.partition_hash g.route_to_edge_node dc in
      let (c', edges) = discover_batch city s n client ro g.unique_partition_hashes c in
      let (g', edges') = reassign edges (g, edges) in
      let servers = (discover_batch city s n client ro g'.unique_shard_ids c').1 in
      let (split, d, same) =
        reassign-split g edges
          (record {
            distinct = h.distinct;
            apart = h.apart;
            keys = λ j. omega (
              arith,
              h.keys j,
              discover_batch-keys city s n client ro g.unique_partition_hashes c j,
            );
          })
          (discover_batch-Distinct city s n client ro g.unique_partition_hashes c) in
      omega (
        arith,
        same i,
        collect-found_in i (insert_all edges' servers) g' result,
        total_at-same (count i) (insert_all edges' servers) g'.route_id_to_indexs
            (insert_all-Distinct edges' servers
              (discover_batch-Distinct city s n client ro g'.unique_shard_ids c'))
            split.distinct
            (λ j.
              merged-keys g' edges' servers j split d
                (discover_batch-keys city s n client ro g'.unique_shard_ids c' j)),
      )

  pub group_dcs-found_in :
      (i : ℕ) (o : ClientOption) (infos : DcGroupInfos) (result : List (String × AddressKeyMap))
      (c : Session s.State n.World)
      → AllGrouped infos
      → found_in i (group_dcs city s n client o infos result c).1
        ≡ found_in i result + total (placed i) infos
  unfolding group_dcs
  group_dcs-found_in i o [] result c h = omega arith
  group_dcs-found_in i o ((dc, g) ∷ infos) result c h =
      let (c', result') = group_dc city s n client o dc g result c in
      omega (
        arith,
        group_dcs-found_in i o infos result' c' h.1,
        group_dc-found_in i o dc g result c h.0,
      )
