-- ===== src/LaserClient/Grouping/Moved.antt =====
-- The keys whose edge nodes were not found are moved to their shards, and none is lost.
use laser_db.Base.{
  ℕ, ◌+◌, ◌≤◌, ◌≡◌, ◌≢◌, refl, ◌∙◌, true, Option, none, some, List, [], ◌∷◌, ◌++◌, arith,
  if◌then◌else◌, nat_eq, nat_beq, nat_beq_iff,
}
use laser_db.Base.Maps.{
  has_key, lookup, lookup_or, insert, delete, lookup-insert, lookup-delete, Distinct,
  insert-Distinct,
}
use laser_db.Base.Maps.Totals.{flag, counted, delete-Distinct, total, total-insert, total-delete}
use laser_db.ServiceRouter.Server.{Server}
use laser_db.LaserClient.Grouping.{
  KeyToIndex, DcGroupInfo, Discovered, move_list, move_to_shard, reassign,
}

-- How often an index is in a list.
abbrev pub count : ℕ → List KeyToIndex → ℕ
count i [] = 0
count i (k ∷ ks) = (if nat_beq k.idx i then 1 else 0) + count i ks

pub count-append : (i : ℕ) (xs ys : List KeyToIndex) → count i (xs ++ ys) ≡ count i xs + count i ys
count-append i [] ys = omega arith
count-append i (x ∷ xs) ys = omega (arith, count-append i xs ys)

pub has_key-append :
    (j k : ℕ) (ks : List ℕ)
    → has_key j (ks ++ (k ∷ [])) ≡ (if has_key j ks then true else nat_beq k j)
unfolding has_key
has_key-append j k [] = ground arith
has_key-append j k (i ∷ ks) = ground (arith, has_key-append j k ks)

-- Between the two discoveries: an id with a list is either among those discovered at the edge or
-- among the shards that are asked for next.
pub record IsSplit (g : DcGroupInfo) (edges : Discovered) : Type 0 where
  pub distinct : Distinct g.route_id_to_indexs
  pub keys :
      (j : ℕ)
      → counted (lookup j g.route_id_to_indexs)
        ≡ counted (lookup j edges) + flag (has_key j g.unique_shard_ids)
  pub apart :
      (hash shard : ℕ) → lookup hash g.partition_hash_to_shard_ids ≡ some shard → shard ≢ hash

-- How often an index is in the lists.
abbrev pub placed : ℕ → DcGroupInfo → ℕ
placed i g = total (count i) g.route_id_to_indexs

module _ (g : DcGroupInfo) (edges : Discovered) (hash shard : ℕ) where
  move_list-IsSplit :
      (o : Option (List KeyToIndex))
      → IsSplit g edges
      → counted (lookup hash edges) ≡ 1
      → lookup shard g.route_id_to_indexs ≡ o
      → shard ≢ hash
      → IsSplit (move_list g hash shard o) (delete hash edges)
  unfolding move_list
  move_list-IsSplit none h there e apart = record {
    apart = h.apart;
    distinct = delete-Distinct hash _ (insert-Distinct shard _ g.route_id_to_indexs h.distinct);
    keys = λ j.
        let m = g.route_id_to_indexs in
        let l = lookup_or [] hash m in
        ground (
          arith,
          lookup-delete hash j (insert shard l m),
          lookup-insert shard j l m,
          lookup-delete hash j edges,
          has_key-append j shard g.unique_shard_ids,
          h.keys j,
          there,
          e,
          nat_beq_iff shard j,
          nat_beq_iff hash j,
        );
  }
  move_list-IsSplit (some list) h there e apart = record {
    apart = h.apart;
    distinct = delete-Distinct hash _ (insert-Distinct shard _ g.route_id_to_indexs h.distinct);
    keys = λ j.
        let m = g.route_id_to_indexs in
        let l = list ++ lookup_or [] hash m in
        ground (
          arith,
          lookup-delete hash j (insert shard l m),
          lookup-insert shard j l m,
          lookup-delete hash j edges,
          has_key-append j shard g.unique_shard_ids,
          h.keys j,
          there,
          e,
          nat_beq_iff shard j,
          nat_beq_iff hash j,
        );
  }

  move_list-placed :
      (i : ℕ) (o : Option (List KeyToIndex))
      → Distinct g.route_id_to_indexs
      → lookup shard g.route_id_to_indexs ≡ o
      → shard ≢ hash
      → placed i (move_list g hash shard o) ≡ placed i g
  unfolding move_list
  move_list-placed i none d e apart =
      let m = g.route_id_to_indexs in
      let l = lookup_or [] hash m in
      ground (
        arith,
        total-delete (count i) hash (insert shard l m) (insert-Distinct shard l m d),
        total-insert (count i) shard l m,
        lookup-insert shard hash l m,
        nat_beq_iff shard hash,
      )
  move_list-placed i (some list) d e apart =
      let m = g.route_id_to_indexs in
      let l = list ++ lookup_or [] hash m in
      ground (
        arith,
        total-delete (count i) hash (insert shard l m) (insert-Distinct shard l m d),
        total-insert (count i) shard l m,
        lookup-insert shard hash l m,
        count-append i list (lookup_or [] hash m),
        nat_beq_iff shard hash,
      )

-- The state of the loop, with the entries that it still goes through.
abbrev Ready : Discovered → DcGroupInfo × Discovered → Type 0
Ready entries p =
    IsSplit p.0 p.1 × Distinct p.1 × ((j : ℕ) → counted (lookup j entries) ≤ counted (lookup j p.1))

-- After it: the same keys are placed.
abbrev pub Kept : DcGroupInfo × Discovered → DcGroupInfo × Discovered → Type 0
Kept p p' = IsSplit p'.0 p'.1 × Distinct p'.1 × ((i : ℕ) → placed i p'.0 ≡ placed i p.0)

counted_at_least : {V : Type 0} (o : Option V) → 1 ≤ counted o → counted o ≡ 1
counted_at_least none h = omega arith
counted_at_least (some v) h = refl

move_to_shard-Ready :
    (p : DcGroupInfo × Discovered) (hash : ℕ) (server : Option Server) (entries : Discovered)
    (o : Option ℕ)
    → lookup hash p.0.partition_hash_to_shard_ids ≡ o
    → lookup hash entries ≡ none
    → Ready ((hash, server) ∷ entries) p
    → Ready entries (move_to_shard p hash o)
      × ((i : ℕ) → placed i (move_to_shard p hash o).0 ≡ placed i p.0)
unfolding move_to_shard lookup
move_to_shard-Ready (g, edges) hash server entries none e fresh (split, d, ready) =
    ((split, d, λ j. ground (arith, ready j, fresh, nat_beq_iff hash j)), λ i. refl)
move_to_shard-Ready (g, edges) hash server entries (some shard) e fresh (split, d, ready) =
    let there =
      counted_at_least (lookup hash edges) (ground (arith, ready hash, nat_beq_iff hash hash)) in
    let o = lookup shard g.route_id_to_indexs in
    (
      (
        move_list-IsSplit g edges hash shard o split there refl (split.apart hash shard e),
        delete-Distinct hash edges d,
        λ j. ground (arith, ready j, fresh, nat_beq_iff hash j, lookup-delete hash j edges),
      ),
      λ i. move_list-placed g edges hash shard i o split.distinct refl (split.apart hash shard e),
    )

reassign-Kept :
    (entries : Discovered) (p : DcGroupInfo × Discovered)
    → Distinct entries
    → Ready entries p
    → Kept p (reassign entries p)
unfolding reassign lookup
reassign-Kept [] p fresh (split, d, ready) = (split, d, λ i. refl)
reassign-Kept ((hash, some server) ∷ entries) p fresh (split, d, ready) =
    reassign-Kept entries p fresh.1
      (split, d, λ j. ground (arith, ready j, fresh.0, nat_beq_iff hash j))
reassign-Kept ((hash, none) ∷ entries) p fresh ready =
    let o = lookup hash p.0.partition_hash_to_shard_ids in
    let (ready', same) = move_to_shard-Ready p hash none entries o refl fresh.0 ready in
    let (split, d, same') = reassign-Kept entries (move_to_shard p hash o) fresh.1 ready' in
    (split, d, λ i. same' i ∙ same i)

pub reassign-split :
    (g : DcGroupInfo) (edges : Discovered)
    → IsSplit g edges
    → Distinct edges
    → Kept (g, edges) (reassign edges (g, edges))
reassign-split g edges split d = reassign-Kept edges (g, edges) d (split, d, λ j. omega arith)
