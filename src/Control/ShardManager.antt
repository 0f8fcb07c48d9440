-- ===== src/Control/ShardManager.antt =====
-- shard_manager.go: how the shards of a group are assigned to its nodes.
pub mod Allowed
pub mod Fresh
pub mod Groups
pub mod Version
use laser_db.Base.{
  ℕ, zero, suc, ◌+◌, ◌-◌, String, Bool, true, false, not, ◌&&◌, none, some, List, [], ◌∷◌, ◌++◌,
  map, length, take, drop, if◌then◌else◌, leb, ltb, nat_eq, string_eq,
}
use laser_db.Base.Maps.{lookup, lookup_or, insert}
use laser_db.Base.Words.{add32, sub32, is_neg32}

pub data ShardRole : Type 0 where
  leader follower : ShardRole

-- A new shard has the zero value as its state.
pub record Shard : Type 0 where
  pub group_name : String
  pub node_id : ℕ
  pub shard_id : ℕ
  pub role : ShardRole
  pub state : ℕ

pub record NodeInfo : Type 0 where
  pub group_name : String
  pub node_id : ℕ
  pub host : String
  pub port : ℕ
  pub weight : ℕ
  pub master : Bool
  pub active : ℕ
  pub shards : List Shard
  pub is_edge_node : Bool

-- A group: its nodes by their ids.
abbrev pub NodeMap : Type 0
NodeMap = List (ℕ × NodeInfo)

-- `uint32(math.Ceil(float64(shardTotal) * (float64(weight) / totalWeight)))`, at the weight, the sum
-- of the weights and the number of shards.
abbrev pub Share : Type 0
Share = ℕ → ℕ → ℕ → ℕ

unfoldable pub total_weight : List NodeInfo → ℕ
total_weight [] = 0
total_weight (n ∷ nodes) = n.weight + total_weight nodes

-- The state of the second loop of `shardNumber`; the int32s are bit patterns.
pub record Numbers : Type 0 where
  pub numbers : List (ℕ × ℕ)
  pub remain_number : ℕ
  pub last_node_id : ℕ

-- What is left goes to the last node.
unfoldable pub give_rest : Numbers → List (ℕ × ℕ)
unfolding insert lookup add32
give_rest st =
    if (not (is_neg32 st.remain_number) && ltb 0 st.remain_number) && not (is_neg32 st.last_node_id)
    then insert st.last_node_id (add32 (lookup_or 0 st.last_node_id st.numbers) st.remain_number)
        st.numbers
    else st.numbers

module _ (share : Share) (shard_total : ℕ) where
  unfoldable pub number_one : ℕ → Numbers → NodeInfo → Numbers
  unfolding insert sub32
  number_one weights st n =
      let number = share n.weight weights shard_total in
      record {
        numbers = insert n.node_id number st.numbers;
        remain_number = sub32 st.remain_number number;
        last_node_id = n.node_id;
      }

  unfoldable pub number_nodes : ℕ → Numbers → List NodeInfo → Numbers
  unfolding number_one
  number_nodes weights st [] = st
  number_nodes weights st (n ∷ nodes) = number_nodes weights (number_one weights st n) nodes

  unfoldable pub shard_number : List NodeInfo → List (ℕ × ℕ)
  unfolding number_nodes give_rest total_weight
  shard_number nodes = give_rest (
      number_nodes (total_weight nodes)
        (record { numbers = []; remain_number = shard_total; last_node_id = 4294967295 }) nodes)

abbrev pub shard_ids : List Shard → List ℕ
shard_ids shards = map (λ s. s.shard_id) shards

-- `assignShards[shard.ShardId]++`
unfoldable pub count_shards : List ℕ → List (ℕ × ℕ) → List (ℕ × ℕ)
unfolding insert lookup add32
count_shards [] m = m
count_shards (id ∷ ids) m = count_shards ids (insert id (add32 (lookup_or 0 id m) 1) m)

-- The state of `assignShardByRole` in its first loop.
pub record Trimmed : Type 0 where
  pub nodes : List NodeInfo
  pub remain_shards : List ℕ
  pub assign_shards : List (ℕ × ℕ)

-- The first loop: a node with too many shards keeps as many as its number says. The shards that it
-- keeps are the ones that are added to the remaining ones.
unfoldable pub trim_one : List (ℕ × ℕ) → Trimmed → NodeInfo → Trimmed
unfolding lookup count_shards
trim_one numbers st n =
    let number = lookup_or 0 n.node_id numbers in
    let kept = take number n.shards in
    if leb (length n.shards) number then record st { nodes = st.nodes ++ (n ∷ []) } else record {
      nodes = st.nodes ++ (record n { shards = kept } ∷ []);
      remain_shards = st.remain_shards ++ shard_ids kept;
      assign_shards = count_shards (shard_ids kept) st.assign_shards;
    }

unfoldable pub trim_nodes : List (ℕ × ℕ) → Trimmed → List NodeInfo → Trimmed
unfolding trim_one
trim_nodes numbers st [] = st
trim_nodes numbers st (n ∷ nodes) = trim_nodes numbers (trim_one numbers st n) nodes

-- The loop over the shard ids from `id` on: those that no node keeps.
unfoldable pub missing_shards : ℕ → ℕ → List (ℕ × ℕ) → List ℕ
unfolding lookup
missing_shards zero id assigned = []
missing_shards (suc left) id assigned =
    let rest = missing_shards left (suc id) assigned in
    elim (lookup id assigned) [ some times ↦ rest | none ↦ id ∷ rest ]

abbrev pub new_shard : NodeInfo → ℕ → Shard
new_shard n id = record {
  group_name = n.group_name;
  node_id = n.node_id;
  shard_id = id;
  role = if n.master then leader else follower;
  state = 0;
}

-- How many of the remaining shards a node with too few of them takes.
unfoldable pub wanted : List (ℕ × ℕ) → NodeInfo → ℕ → ℕ
unfolding lookup
wanted numbers n remaining =
    let lacking = lookup_or 0 n.node_id numbers - length n.shards in
    if ltb remaining lacking then remaining else lacking

-- The last loop.
unfoldable pub hand_out : List (ℕ × ℕ) → List ℕ → List NodeInfo → List NodeInfo
unfolding wanted
hand_out numbers remain [] = []
hand_out numbers remain (n ∷ nodes) =
    let k = wanted numbers n (length remain) in
    record n { shards = n.shards ++ map (new_shard n) (take k remain) }
    ∷ hand_out numbers (drop k remain) nodes

-- Whether a node is on the list of the leaders, or on the list of the followers.
abbrev pub plays : Bool → NodeInfo → Bool
plays true n = n.master
plays false n = not n.master

-- `leaderNodes` and `followerNodes`
unfoldable pub nodes_of : Bool → NodeMap → List NodeInfo
nodes_of leads [] = []
nodes_of leads ((id, n) ∷ group) =
    let rest = nodes_of leads group in if plays leads n then n ∷ rest else rest

-- The nodes of one role are changed where they stand in the group.
unfoldable pub place_nodes : Bool → List NodeInfo → NodeMap → NodeMap
place_nodes leads [] group = group
place_nodes leads (n ∷ nodes) [] = []
place_nodes leads (n ∷ nodes) ((id, old) ∷ group) =
    if plays leads old
    then (id, n) ∷ place_nodes leads nodes group
    else (id, old) ∷ place_nodes leads (n ∷ nodes) group

module _ (share : Share) (shard_total : ℕ) where
  unfoldable pub assign_shard_by_role : List NodeInfo → List NodeInfo
  unfolding shard_number trim_nodes missing_shards hand_out
  assign_shard_by_role nodes =
      let numbers = shard_number share shard_total nodes in
      let trimmed =
        trim_nodes numbers (record { nodes = []; remain_shards = []; assign_shards = [] }) nodes in
      hand_out numbers (trimmed.remain_shards ++ missing_shards shard_total 0 trimmed.assign_shards)
        trimmed.nodes

  -- No nodes of a role make no call.
  unfoldable pub assign_role : Bool → NodeMap → NodeMap
  unfolding assign_shard_by_role place_nodes nodes_of
  assign_role leads group =
      let nodes = nodes_of leads group in
      if ltb 0 (length nodes) then place_nodes leads (assign_shard_by_role nodes) group else group

  unfoldable pub assign_group : NodeMap → NodeMap
  unfolding assign_role
  assign_group group = assign_role false (assign_role true group)

  -- The groups by their names.
  unfoldable pub assign_shards : List (String × NodeMap) → List (String × NodeMap)
  unfolding assign_group
  assign_shards groups = map (λ g. (g.0, assign_group g.1)) groups
