-- ===== src/Control/ShardManager/Version/Stored.antt =====
-- What is read back from a stored version.
use laser_db.Base.{
  ℕ, ◌≡◌, refl, ap, ◌∙◌, String, inl, inr, Bool, true, false, Option, none, some, List, [], ◌∷◌,
  ◌++◌, map, arith, Bool-cases, if◌then◌else◌, ◌==◌, ==_refl, nat_eq, string_eq,
}
use laser_db.Base.Maps.{lookup}
use laser_db.Base.Maps.Keys.{mapped, lookup-change_at, times, steps, steps-once}
use laser_db.Control.ShardManager.{NodeInfo, NodeMap}
use laser_db.Control.ShardManager.Version.{
  NodeVersionData, GroupVersionData, node_version, is_stored, node_versions, read_shards, load_node,
  load_nodes, load_group, load_groups, clear_group, clear_groups,
}

-- A group has each node under its id.
abbrev pub IsKeyed : NodeMap → Type 0
IsKeyed group = (id : ℕ) (n : NodeInfo) → lookup id group ≡ some n → n.node_id ≡ id

abbrev pub clear_node : NodeInfo → NodeInfo
clear_node n = record n { shards = [] }

abbrev add_read : String → NodeVersionData → NodeInfo → NodeInfo
add_read name v n = record n { shards = n.shards ++ read_shards name v }

pub lookup-clear_group :
    (id : ℕ) (group : NodeMap) → lookup id (clear_group group) ≡ mapped clear_node (lookup id group)
unfolding lookup clear_group
lookup-clear_group id [] = refl
lookup-clear_group id ((j, n) ∷ group) = ground (arith, lookup-clear_group id group)

pub lookup-clear_groups :
    (name : String) (groups : List (String × NodeMap))
    → lookup name (clear_groups groups) ≡ mapped clear_group (lookup name groups)
unfolding lookup clear_groups
lookup-clear_groups name [] = refl
lookup-clear_groups name ((j, g) ∷ groups) = ground (arith, lookup-clear_groups name groups)

-- The step of storing a node and reading it back.
abbrev step_found : String → NodeMap → Option NodeInfo → NodeMap
step_found name group none = group
step_found name group (some n) =
    if is_stored name n then load_node name group (node_version n) else group

abbrev node_step : String → NodeMap → NodeMap → ℕ → NodeMap
node_step name source group id = step_found name group (lookup id source)

load_nodes-found :
    (name : String) (group : NodeMap) (rest : List NodeVersionData) (o : Option NodeInfo)
    → load_nodes name group
        (elim o [ none ↦ rest | some n ↦ if is_stored name n then node_version n ∷ rest else rest ])
      ≡ load_nodes name (step_found name group o) rest
unfolding load_nodes
load_nodes-found name group rest none = refl
load_nodes-found name group rest (some n) = elim (Bool-cases (is_stored name n)) [
  | inl q ↦ rw q refl
  | inr q ↦ rw q refl
]

load_nodes-node_versions :
    (name : String) (source : NodeMap) (ids : List ℕ) (group : NodeMap)
    → load_nodes name group (node_versions name source ids)
      ≡ steps (node_step name source) group ids
unfolding load_nodes node_versions
load_nodes-node_versions name source [] group = refl
load_nodes-node_versions name source (id ∷ ids) group =
    load_nodes-found name group (node_versions name source ids) (lookup id source)
    ∙ load_nodes-node_versions name source ids (node_step name source group id)

-- What the node of the manager becomes when a node has been stored, or not.
abbrev pub read_back : Bool → String → NodeInfo → NodeInfo → NodeInfo
read_back true name n k = record k { shards = k.shards ++ read_shards name (node_version n) }
read_back false name n k = k

read_back-none :
    (name : String) (n : NodeInfo) (b : Bool) (o : Option NodeInfo)
    → o ≡ (if b then mapped (read_back false name n) o else o)
read_back-none name n true none = refl
read_back-none name n true (some k) = refl
read_back-none name n false o = refl

lookup-stored_when :
    (b : Bool) (name : String) (group : NodeMap) (n : NodeInfo) (id : ℕ)
    → lookup id (if b then load_node name group (node_version n) else group)
      ≡ (if n.node_id == id then mapped (read_back b name n) (lookup id group) else lookup id group)
unfolding load_node node_version
lookup-stored_when true name group n id =
    lookup-change_at n.node_id (read_back true name n) group id
lookup-stored_when false name group n id = read_back-none name n (n.node_id == id) (lookup id group)

module _ (name : String) (source : NodeMap) (keyed : IsKeyed source) where
  step_found-other :
      (id j : ℕ) (group : NodeMap) (o : Option NodeInfo)
      → lookup j source ≡ o
      → (j == id) ≡ false
      → lookup id (step_found name group o) ≡ lookup id group
  step_found-other id j group none e h = refl
  step_found-other id j group (some n) e h =
      lookup-stored_when (is_stored name n) name group n id
      ∙ ap
          (λ i.
            if i == id
            then mapped (read_back (is_stored name n) name n) (lookup id group)
            else lookup id group)
          (keyed j n e)
      ∙ rw h refl

  node_step-own :
      (id : ℕ) (n : NodeInfo) (group : NodeMap)
      → lookup id source ≡ some n
      → lookup id (node_step name source group id)
        ≡ mapped (read_back (is_stored name n) name n) (lookup id group)
  node_step-own id n group e =
      ap (λ o. lookup id (step_found name group o)) e
      ∙ lookup-stored_when (is_stored name n) name group n id
      ∙ ap
          (λ i.
            if i == id
            then mapped (read_back (is_stored name n) name n) (lookup id group)
            else lookup id group)
          (keyed id n e)
      ∙ rw (==_refl id) refl

  -- All nodes of a group.
  pub lookup-load_nodes :
      (id : ℕ) (n : NodeInfo) (ids : List ℕ) (group : NodeMap)
      → lookup id source ≡ some n
      → times id ids ≡ 1
      → lookup id (load_nodes name group (node_versions name source ids))
        ≡ mapped (read_back (is_stored name n) name n) (lookup id group)
  lookup-load_nodes id n ids group e once =
      ap (lookup id) (load_nodes-node_versions name source ids group)
      ∙ steps-once (node_step name source) (lookup id)
          (mapped (read_back (is_stored name n) name n)) id
          (λ g j h. step_found-other id j g (lookup j source) refl h) (λ g. node_step-own id n g e)
          group ids once

-- All groups, with the data centre and the nodes of each.
module _ (dc : String → String) (nodes : String → List NodeVersionData) where
  abbrev pub version : String → GroupVersionData
  version name = record { group_name = name; dc = dc name; nodes = nodes name }

  abbrev group_step : List (String × NodeMap) → String → List (String × NodeMap)
  group_step groups name = load_group groups (version name)

  load_groups-map :
      (names : List String) (groups : List (String × NodeMap))
      → load_groups groups (map version names) ≡ steps group_step groups names
  unfolding load_groups
  load_groups-map [] groups = refl
  load_groups-map (name ∷ names) groups = load_groups-map names (load_group groups (version name))

  group_step-other :
      (name : String) (groups : List (String × NodeMap)) (j : String)
      → (j == name) ≡ false
      → lookup name (group_step groups j) ≡ lookup name groups
  unfolding load_group
  group_step-other name groups j h =
      lookup-change_at j (λ g. load_nodes j g (nodes j)) groups name
      ∙ ap
          (λ b.
            if b
            then mapped (λ g. load_nodes j g (nodes j)) (lookup name groups)
            else lookup name groups)
          h

  group_step-own :
      (name : String) (groups : List (String × NodeMap))
      → lookup name (group_step groups name)
        ≡ mapped (λ g. load_nodes name g (nodes name)) (lookup name groups)
  unfolding load_group
  group_step-own name groups =
      lookup-change_at name (λ g. load_nodes name g (nodes name)) groups name
      ∙ ap
          (λ b.
            if b
            then mapped (λ g. load_nodes name g (nodes name)) (lookup name groups)
            else lookup name groups)
          (==_refl name)

  -- The nodes of one group after all groups are read.
  pub lookup-load_groups :
      (name : String) (names : List String) (groups : List (String × NodeMap))
      → times name names ≡ 1
      → lookup name (load_groups groups (map version names))
        ≡ mapped (λ g. load_nodes name g (nodes name)) (lookup name groups)
  lookup-load_groups name names groups once =
      ap (lookup name) (load_groups-map names groups)
      ∙ steps-once group_step (lookup name) (mapped (λ g. load_nodes name g (nodes name))) name
          (group_step-other name) (group_step-own name) groups names once
