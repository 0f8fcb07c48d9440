-- ===== src/LaserClient/Grouping/Grouped.antt =====
-- What one key adds to the groups of its data centre.
use laser_db.Base.{
  inl, inr, Bool-cases, ℕ, ◌+◌, ◌≡◌, ◌≢◌, refl, true, Option, none, some, List, [], ◌∷◌, ◌++◌,
  arith, if◌then◌else◌, nat_beq, nat_beq_iff, nat_eq, string_eq,
}
use laser_db.Base.Maps.{has_key, lookup, lookup_or, lookup-insert, insert-Distinct}
use laser_db.Base.Maps.Totals.{total, total-insert}
use laser_db.Base.Maps.Each.{insert-Each, lookup_or-Each}
use laser_db.LaserClient.Routing.{RouteInfo}
use laser_db.LaserClient.Grouping.{
  KeyToIndex, DcGroupInfo, DcGroupInfos, router_id, new_dc_group_info, add_unique, add_to_list,
  add_key, add_to_dc,
}
use laser_db.LaserClient.Grouping.Moved.{count, count-append, has_key-append, placed}
use laser_db.LaserClient.Grouping.Collected.{IsGrouped, AllGrouped}

-- The shard and the hash of a key that goes to an edge node are not the same number.
abbrev pub IsApart : RouteInfo → Type 0
IsApart r = r.route_to_edge_node ≡ true → r.shard_id ≢ r.partition_hash

abbrev pub one_at : ℕ → KeyToIndex → ℕ
one_at i k = if nat_beq k.idx i then 1 else 0

module _ (r : RouteInfo) (k : KeyToIndex) (g : DcGroupInfo) where
  add_to_list-IsGrouped :
      (o : Option (List KeyToIndex))
      → lookup (router_id r) g.route_id_to_indexs ≡ o
      → IsApart r
      → IsGrouped g
      → IsGrouped (add_to_list r k g o)
  unfolding add_to_list add_unique
  add_to_list-IsGrouped (some list) e apart h = record {
    distinct = insert-Distinct (router_id r) (list ++ (k ∷ [])) g.route_id_to_indexs h.distinct;
    apart = h.apart;
    keys = λ j. ground (
      arith,
      e,
      h.keys j,
      lookup-insert (router_id r) j (list ++ (k ∷ [])) g.route_id_to_indexs,
      nat_beq_iff (router_id r) j,
    );
  }
  add_to_list-IsGrouped none e apart h =
      let m = g.route_id_to_indexs in
      elim (Bool-cases r.route_to_edge_node) [
        | inl edge ↦ rw edge (record {
          distinct = insert-Distinct r.partition_hash (k ∷ []) m h.distinct;
          apart = λ hash shard found. ground (
            arith,
            found,
            h.apart hash shard,
            apart edge,
            lookup-insert r.partition_hash hash r.shard_id g.partition_hash_to_shard_ids,
            nat_beq_iff r.partition_hash hash,
          );
          keys = λ j. ground (
            arith,
            e,
            edge,
            h.keys j,
            lookup-insert r.partition_hash j (k ∷ []) m,
            has_key-append j r.partition_hash g.unique_partition_hashes,
            nat_beq_iff r.partition_hash j,
          );
        })
        | inr main ↦ rw main (record {
          distinct = insert-Distinct r.shard_id (k ∷ []) m h.distinct;
          apart = h.apart;
          keys = λ j. ground (
            arith,
            e,
            main,
            h.keys j,
            lookup-insert r.shard_id j (k ∷ []) m,
            has_key-append j r.shard_id g.unique_shard_ids,
            nat_beq_iff r.shard_id j,
          );
        })
      ]

  add_to_list-placed :
      (i : ℕ) (o : Option (List KeyToIndex))
      → lookup (router_id r) g.route_id_to_indexs ≡ o
      → placed i (add_to_list r k g o) ≡ placed i g + one_at i k
  unfolding add_to_list add_unique
  add_to_list-placed i (some list) e = ground (
    arith,
    e,
    total-insert (count i) (router_id r) (list ++ (k ∷ [])) g.route_id_to_indexs,
    count-append i list (k ∷ []),
  )
  add_to_list-placed i none e =
      ground (arith, e, total-insert (count i) (router_id r) (k ∷ []) g.route_id_to_indexs)

new-IsGrouped : (r : RouteInfo) → IsGrouped (new_dc_group_info r)
unfolding new_dc_group_info lookup has_key
new-IsGrouped r = record {
  distinct = tt;
  keys = λ j. refl;
  apart = λ hash shard found. absurd (none≢some found);
}
  where
    none≢some : {n : ℕ} → none ≢ some n
    none≢some e = cc

pub add_to_dc-AllGrouped :
    (r : RouteInfo) (k : KeyToIndex) (infos : DcGroupInfos)
    → IsApart r
    → AllGrouped infos
    → AllGrouped (add_to_dc r k infos)
unfolding add_to_dc add_key
add_to_dc-AllGrouped r k infos apart hs =
    let g = lookup_or (new_dc_group_info r) r.dc infos in
    insert-Each IsGrouped r.dc (add_key r k g) infos
      (add_to_list-IsGrouped r k g (lookup (router_id r) g.route_id_to_indexs) refl apart
        (lookup_or-Each IsGrouped r.dc (new_dc_group_info r) infos (new-IsGrouped r) hs))
      hs

pub add_to_dc-placed :
    (i : ℕ) (r : RouteInfo) (k : KeyToIndex) (infos : DcGroupInfos)
    → total (placed i) (add_to_dc r k infos) ≡ total (placed i) infos + one_at i k
unfolding add_to_dc add_key new_dc_group_info
add_to_dc-placed i r k infos =
    let g = lookup_or (new_dc_group_info r) r.dc infos in
    ground (
      arith,
      total-insert (placed i) r.dc (add_key r k g) infos,
      add_to_list-placed r k g i (lookup (router_id r) g.route_id_to_indexs) refl,
    )
