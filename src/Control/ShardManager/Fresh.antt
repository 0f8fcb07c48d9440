-- ===== src/Control/ShardManager/Fresh.antt =====
-- The first assignment of the shards, to nodes that have none.
use mathlib.Core.List.{append-nil, append_assoc}
use laser_db.Base.{
  ℕ, zero, suc, ◌+◌, ◌-◌, ◌^◌, ◌≤◌, ◌<◌, ◌≡◌, refl, sym, ap, ◌∙◌, List, [], ◌∷◌, ◌++◌, map, length,
  take, drop, All, arith, le→leb, nat_eq, string_eq,
}
use laser_db.Base.Maps.{lookup, lookup_or, Distinct}
use laser_db.Control.ShardManager.Allowed.{keyed, allowed, shares, shard_number-covers}
use laser_db.Control.ShardManager.{
  NodeInfo, Share, total_weight, shard_number, shard_ids, Trimmed, trim_one, trim_nodes,
  missing_shards, new_shard, wanted, hand_out, assign_shard_by_role,
}

-- The numbers from one on, as many as the count says.
abbrev pub from : ℕ → ℕ → List ℕ
from zero id = []
from (suc left) id = id ∷ from left (suc id)

-- The ids of the shards of all nodes, node after node.
abbrev pub all_ids : List NodeInfo → List ℕ
all_ids [] = []
all_ids (n ∷ nodes) = shard_ids n.shards ++ all_ids nodes

-- No node has shards.
abbrev pub AreEmpty : List NodeInfo → Type 0
AreEmpty nodes = All (λ n. n.shards ≡ []) nodes

ids-new_shard : (n : NodeInfo) (ids : List ℕ) → shard_ids (map (new_shard n) ids) ≡ ids
ids-new_shard n [] = refl
ids-new_shard n (id ∷ ids) = ap (λ l. id ∷ l) (ids-new_shard n ids)

take-drop : (k : ℕ) (ids : List ℕ) → take k ids ++ drop k ids ≡ ids
take-drop zero ids = refl
take-drop (suc k) [] = refl
take-drop (suc k) (id ∷ ids) = ap (λ l. id ∷ l) (take-drop k ids)

length-drop : (k : ℕ) (ids : List ℕ) → length (drop k ids) ≡ length ids - k
length-drop zero ids = omega arith
length-drop (suc k) [] = omega arith
length-drop (suc k) (id ∷ ids) = omega (arith, length-drop k ids)

wanted-left :
    (numbers : List (ℕ × ℕ)) (n : NodeInfo) (remaining : ℕ)
    → n.shards ≡ []
    → remaining - wanted numbers n remaining ≡ remaining - lookup_or 0 n.node_id numbers
unfolding wanted
wanted-left numbers n remaining e = ground (arith, ap length e)

-- Enough numbers hand out everything, in order.
hand_out-all :
    (numbers : List (ℕ × ℕ)) (remain : List ℕ) (nodes : List NodeInfo)
    → AreEmpty nodes
    → length remain ≤ allowed numbers nodes
    → all_ids (hand_out numbers remain nodes) ≡ remain
unfolding hand_out
hand_out-all numbers [] [] empty enough = refl
hand_out-all numbers (id ∷ remain) [] empty enough = absurd (omega arith)
hand_out-all numbers remain (n ∷ nodes) empty enough =
    let k = wanted numbers n (length remain) in
    let rest = all_ids (hand_out numbers (drop k remain) nodes) in
    ap (λ l. shard_ids (l ++ map (new_shard n) (take k remain)) ++ rest) empty.0
    ∙ ap (λ l. l ++ rest) (ids-new_shard n (take k remain))
    ∙ ap (λ l. take k remain ++ l)
        (hand_out-all numbers (drop k remain) nodes empty.1 (
          omega
            (arith, enough, length-drop k remain, wanted-left numbers n (length remain) empty.0)))
    ∙ take-drop k remain

trim_one-empty :
    (numbers : List (ℕ × ℕ)) (st : Trimmed) (n : NodeInfo)
    → n.shards ≡ []
    → trim_one numbers st n ≡ record st { nodes = st.nodes ++ (n ∷ []) }
unfolding trim_one
trim_one-empty numbers st n e =
    rw (le→leb (length n.shards) (lookup_or 0 n.node_id numbers) (ground (arith, ap length e))) refl

-- Nodes without shards pass the first loop as they are.
trim_nodes-empty :
    (numbers : List (ℕ × ℕ)) (st : Trimmed) (nodes : List NodeInfo)
    → AreEmpty nodes
    → trim_nodes numbers st nodes ≡ record st { nodes = st.nodes ++ nodes }
unfolding trim_nodes
trim_nodes-empty numbers st [] empty = ap (λ l. record st { nodes = l }) (sym (append-nil st.nodes))
trim_nodes-empty numbers st (n ∷ nodes) empty =
    ap (λ t. trim_nodes numbers t nodes) (trim_one-empty numbers st n empty.0)
    ∙ trim_nodes-empty numbers (record st { nodes = st.nodes ++ (n ∷ []) }) nodes empty.1
    ∙ ap (λ l. record st { nodes = l }) (append_assoc st.nodes (n ∷ []) nodes)

missing-all : (left id : ℕ) → missing_shards left id [] ≡ from left id
unfolding missing_shards lookup
missing-all zero id = refl
missing-all (suc left) id = ap (λ l. id ∷ l) (missing-all left (suc id))

length-from : (left id : ℕ) → length (from left id) ≡ left
length-from zero id = refl
length-from (suc left) id = omega (arith, length-from left (suc id))

pub assign_shard_by_role-empty :
    (share : Share) (shard_total : ℕ) (nodes : List NodeInfo)
    → AreEmpty nodes
    → assign_shard_by_role share shard_total nodes
      ≡ hand_out (shard_number share shard_total nodes) (from shard_total 0) nodes
unfolding assign_shard_by_role
assign_shard_by_role-empty share shard_total nodes empty =
    let numbers = shard_number share shard_total nodes in
    let start : Trimmed = record { nodes = []; remain_shards = []; assign_shards = [] } in
    ap
      (λ t.
        hand_out numbers (t.remain_shards ++ missing_shards shard_total 0 t.assign_shards) t.nodes)
      (trim_nodes-empty numbers start nodes empty)
    ∙ ap (λ l. hand_out numbers l nodes) (missing-all shard_total 0)

-- What a first assignment needs: no shards yet, ids that differ and are not negative as an int32, and
-- numbers that do not wrap.
pub record CanAssign (share : Share) (shard_total : ℕ) (nodes : List NodeInfo) : Type 0 where
  pub distinct : Distinct (keyed nodes)
  pub ids : All (λ m. m.node_id < 2 ^ 31) nodes
  pub empty : AreEmpty nodes
  pub small : shard_total + shares share shard_total (total_weight nodes) nodes < 2 ^ 31

-- Nodes that have no shards get every shard of the cluster once, in the order of the nodes.
pub assign_shard_by_role-all :
    (share : Share) (shard_total : ℕ) (n : NodeInfo) (nodes : List NodeInfo)
    → CanAssign share shard_total (n ∷ nodes)
    → all_ids (assign_shard_by_role share shard_total (n ∷ nodes)) ≡ from shard_total 0
assign_shard_by_role-all share shard_total n nodes h =
    ap all_ids (assign_shard_by_role-empty share shard_total (n ∷ nodes) h.empty)
    ∙ hand_out-all (shard_number share shard_total (n ∷ nodes)) (from shard_total 0) (n ∷ nodes)
        h.empty
        (omega (
          arith,
          length-from shard_total 0,
          shard_number-covers share shard_total n nodes h.distinct h.ids h.small,
        ))
