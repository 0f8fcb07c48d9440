-- ===== src/Control/ShardManager/Version/RoundTrip.antt =====
-- A stored version read back.
use mathlib.Core.List.{Permᴰ}
use laser_db.Base.{
  ℕ, ◌≡◌, refl, sym, ap, ◌∙◌, String, inr, Option, none, some, List, [], nat_beq_iff, nat_eq,
  string_eq,
}
use laser_db.Base.Maps.{lookup, lookup_or, Distinct}
use laser_db.Base.Maps.Totals.{counted}
use laser_db.Base.Maps.Keys.{mapped, keys, times, times-keys, times-Permᴰ}
use laser_db.Control.ShardManager.{NodeInfo, NodeMap}
use laser_db.Control.ShardManager.Version.{
  ShardVersionData, ShardManager, Outside, ShardStore, no_error, new_store, is_stored,
  node_versions, load_nodes, load_groups, clear_group, clear_groups, group_version,
  convert_node_shards_to_version_data, convert_node_shards_to_shard_store,
  convert_version_to_node_shards,
}
use laser_db.Control.ShardManager.Version.Restored.{restored, read_back-restored}
use laser_db.Control.ShardManager.Version.Stored.{
  IsKeyed, clear_node, lookup-clear_group, lookup-clear_groups, read_back, lookup-load_nodes,
  lookup-load_groups,
}

-- The node of a group, if both are there.
abbrev in_group : ℕ → Option NodeMap → Option NodeInfo
in_group id none = none
in_group id (some g) = lookup id g

abbrev pub node_at : String → ℕ → List (String × NodeMap) → Option NodeInfo
node_at name id groups = in_group id (lookup name groups)

-- What the sorts document, as far as it counts here.
pub record IsSorting (outside : Outside) : Type 0 where
  pub strings_same : (l : List String) → Permᴰ (outside.sort_strings l) l
  pub ints_same : (l : List ℕ) → Permᴰ (outside.sort_ints l) l

-- A manager's maps have their keys once, and each node under its id.
pub record IsManager (groups : List (String × NodeMap)) : Type 0 where
  pub names : Distinct groups
  pub ids : (name : String) (g : NodeMap) → lookup name groups ≡ some g → Distinct g
  pub keyed : (name : String) (g : NodeMap) → lookup name groups ≡ some g → IsKeyed g

convert_version_to_node_shards-returned :
    (outside : Outside) (m : ShardManager) (store : ShardStore) (d : ShardVersionData)
    → outside.unmarshal store.data_text ≡ inr d
    → d.cluster_name ≡ m.cluster_name
    → d.shard_number ≡ m.shard_total
    → convert_version_to_node_shards outside m store
      ≡ (no_error, record m { groups = load_groups (clear_groups m.groups) d.groups })
unfolding convert_version_to_node_shards
convert_version_to_node_shards-returned outside m store d text cluster number =
    rw
      (
        text,
        convert_version_to_node_shards,
        (string_eq.same_iff d.cluster_name m.cluster_name).1 cluster,
        (nat_beq_iff d.shard_number m.shard_total).1 number,
      )
      refl

convert_node_shards_to_shard_store-written :
    (outside : Outside) (m : ShardManager) (text : String)
    → outside.marshal (convert_node_shards_to_version_data outside m) ≡ inr text
    → convert_node_shards_to_shard_store outside m ≡ (new_store outside m text, no_error)
unfolding convert_node_shards_to_shard_store
convert_node_shards_to_shard_store-written outside m text written =
    rw (written, convert_node_shards_to_shard_store) refl

module _ (outside : Outside) (documented : IsSorting outside) where
  times-sorted_names :
      (m : ShardManager) (name : String) (g : NodeMap)
      → Distinct m.groups
      → lookup name m.groups ≡ some g
      → times name (outside.sort_strings (keys m.groups)) ≡ 1
  times-sorted_names m name g names at =
      times-Permᴰ name (outside.sort_strings (keys m.groups)) (keys m.groups)
        (documented.strings_same (keys m.groups))
      ∙ times-keys name m.groups names
      ∙ ap counted at

  times-sorted_ids :
      (g : NodeMap) (id : ℕ) (n : NodeInfo)
      → Distinct g
      → lookup id g ≡ some n
      → times id (outside.sort_ints (keys g)) ≡ 1
  times-sorted_ids g id n ids at =
      times-Permᴰ id (outside.sort_ints (keys g)) (keys g) (documented.ints_same (keys g))
      ∙ times-keys id g ids
      ∙ ap counted at

  -- The group of a name after its version is read.
  lookup-loaded :
      (m : ShardManager) (name : String) (g : NodeMap)
      → IsManager m.groups
      → lookup name m.groups ≡ some g
      → lookup name (
          load_groups
            (clear_groups m.groups)
            (convert_node_shards_to_version_data outside m).groups)
        ≡ some (load_nodes name (clear_group g) (node_versions name g (outside.sort_ints (keys g))))
  unfolding convert_node_shards_to_version_data group_version
  lookup-loaded m name g h at =
      let nodes_in = λ (name : String) (o : Option NodeMap).
        let group = elim o as (λ x. NodeMap) [ none ↦ [] | some k ↦ k ] in
        node_versions name group (outside.sort_ints (keys group)) in
      lookup-load_groups (λ k. lookup_or "default" k m.group_to_dc)
        (λ k. nodes_in k (lookup k m.groups)) name (outside.sort_strings (keys m.groups))
        (clear_groups m.groups) (times-sorted_names m name g h.names at)
      ∙ ap (mapped (λ k. load_nodes name k (nodes_in name (lookup name m.groups))))
          (lookup-clear_groups name m.groups ∙ ap (mapped clear_group) at)
      ∙ ap (λ o. some (load_nodes name (clear_group g) (nodes_in name o))) at

  node_at-loaded :
      (m : ShardManager) (name : String) (g : NodeMap) (id : ℕ) (n : NodeInfo)
      → IsManager m.groups
      → lookup name m.groups ≡ some g
      → lookup id g ≡ some n
      → node_at name id (
          load_groups
            (clear_groups m.groups)
            (convert_node_shards_to_version_data outside m).groups)
        ≡ some (restored name n)
  node_at-loaded m name g id n h at_name at_id =
      ap (in_group id) (lookup-loaded m name g h at_name)
      ∙ lookup-load_nodes name g (h.keyed name g at_name) id n (outside.sort_ints (keys g))
          (clear_group g) at_id (times-sorted_ids g id n (h.ids name g at_name) at_id)
      ∙ ap (mapped (read_back (is_stored name n) name n))
          (lookup-clear_group id g ∙ ap (mapped clear_node) at_id)
      ∙ ap some (read_back-restored name n)

  -- A manager that stores a version gets no error if the JSON is written, and a manager of the same
  -- cluster with as many shards and the same nodes, whatever their shards, reads that version without
  -- an error. It then has for each node the shards that the first one had: those of leaders first,
  -- then those of followers, each under the group and the id of the node and with the state 0. A node
  -- that is inactive, or that names another group than the one it is in, has none. The conditions:
  -- the sorts permute, the text written for this version is read as the same data, the maps of the
  -- manager that stores have each key once and each node under its id, and a group and a node are
  -- there at the name and the id.
  pub read-store :
      (m other : ShardManager) (text name : String) (g : NodeMap) (id : ℕ) (n : NodeInfo)
      → IsManager m.groups
      → outside.marshal (convert_node_shards_to_version_data outside m) ≡ inr text
      → outside.unmarshal text ≡ inr (convert_node_shards_to_version_data outside m)
      → other.cluster_name ≡ m.cluster_name
      → other.shard_total ≡ m.shard_total
      → clear_groups other.groups ≡ clear_groups m.groups
      → lookup name m.groups ≡ some g
      → lookup id g ≡ some n
      → ((convert_node_shards_to_shard_store outside m).1 ≡ no_error)
        × ((convert_version_to_node_shards outside other
              (convert_node_shards_to_shard_store outside m).0).0
            ≡ no_error)
        × (node_at name id (
              (convert_version_to_node_shards outside other
                (convert_node_shards_to_shard_store outside m).0).1.groups)
            ≡ some (restored name n))
  unfolding convert_node_shards_to_version_data
  read-store m other text name g id n h written back cluster number same at_name at_id =
      let d = convert_node_shards_to_version_data outside m in
      let stored = convert_node_shards_to_shard_store-written outside m text written in
      let read =
        ap (λ s. convert_version_to_node_shards outside other s.0) stored
        ∙ convert_version_to_node_shards-returned outside other (new_store outside m text) d back
            (sym cluster) (sym number) in
      (
        ap (λ s. s.1) stored,
        ap (λ r. r.0) read,
        ap (λ r. node_at name id r.1.groups) read
            ∙ ap (λ k. node_at name id (load_groups k d.groups)) same
            ∙ node_at-loaded m name g id n h at_name at_id,
      )
