-- ===== src/Control/ShardManager/Allowed.antt =====
-- What `shardNumber` allows the nodes together.
use laser_db.Base.{
  ℕ, ◌+◌, ◌-◌, ◌%◌, ◌^◌, ◌≤◌, ◌<◌, ◌≡◌, refl, Option, none, some, List, [], ◌∷◌, All, arith,
  nat_beq_iff, nat_eq, string_eq,
}
use laser_db.Base.Maps.{lookup, lookup_or, insert, Distinct, insert-Distinct, lookup-insert}
use laser_db.Base.Maps.Totals.{counted, total, total-insert, total-delete, total_at, total_at-same}
use laser_db.Base.Words.{add32, sub32}
use laser_db.Control.ShardManager.{
  NodeInfo, Share, Numbers, total_weight, number_one, number_nodes, give_rest, shard_number,
}

-- The nodes by their ids.
abbrev pub keyed : List NodeInfo → List (ℕ × NodeInfo)
keyed [] = []
keyed (n ∷ nodes) = (n.node_id, n) ∷ keyed nodes

-- What the nodes are allowed together.
abbrev pub allowed : List (ℕ × ℕ) → List NodeInfo → ℕ
allowed numbers [] = 0
allowed numbers (n ∷ nodes) = lookup_or 0 n.node_id numbers + allowed numbers nodes

-- The numbers of the nodes together, and with the bound that keeps the int32s from wrapping.
abbrev pub shares : Share → ℕ → ℕ → List NodeInfo → ℕ
shares share shard_total weights [] = 0
shares share shard_total weights (n ∷ nodes) =
    share n.weight weights shard_total + shares share shard_total weights nodes

counted_at_most : {V : Type 0} (o : Option V) → counted o ≤ 1
counted_at_most none = omega arith
counted_at_most (some v) = omega arith

-- The last node has a number, and an id that is not negative.
abbrev LastCounts : Numbers → Type 0
LastCounts st = (counted (lookup st.last_node_id st.numbers) ≡ 1) × (st.last_node_id < 2 ^ 31)

module _ (share : Share) (shard_total weights : ℕ) (all : List (ℕ × NodeInfo)) where
  record IsCounting (st : Numbers) (nodes : List NodeInfo) : Type 0 where
    distinct : Distinct st.numbers
    distinct_left : Distinct (keyed nodes)
    keys :
        (j : ℕ)
        → counted (lookup j st.numbers) + counted (lookup j (keyed nodes)) ≡ counted (lookup j all)
    remain : st.remain_number ≡ (shard_total + 2 ^ 32 - total (λ v. v) st.numbers) % 2 ^ 32
    small :
        shard_total + total (λ v. v) st.numbers + shares share shard_total weights nodes < 2 ^ 31

  -- The id of the next node has no number yet.
  next-new :
      (st : Numbers) (n : NodeInfo) (nodes : List NodeInfo)
      → IsCounting st (n ∷ nodes)
      → lookup n.node_id st.numbers ≡ none
  unfolding lookup
  next-new st n nodes h = ground (
    arith,
    h.keys n.node_id,
    counted_at_most (lookup n.node_id all),
    nat_beq_iff n.node_id n.node_id,
  )

  total-next :
      (st : Numbers) (n : NodeInfo) (nodes : List NodeInfo) (number : ℕ)
      → IsCounting st (n ∷ nodes)
      → total (λ v. v) (insert n.node_id number st.numbers) ≡ total (λ v. v) st.numbers + number
  total-next st n nodes number h =
      ground (arith, total-insert (λ v. v) n.node_id number st.numbers, next-new st n nodes h)

  number_one-IsCounting :
      (st : Numbers) (n : NodeInfo) (nodes : List NodeInfo)
      → IsCounting st (n ∷ nodes)
      → IsCounting (number_one share shard_total weights st n) nodes
  unfolding number_one sub32 lookup
  number_one-IsCounting st n nodes h =
      let number = share n.weight weights shard_total in
      let added = total-next st n nodes number h in
      let new = next-new st n nodes h in
      record {
        distinct = insert-Distinct n.node_id number st.numbers h.distinct;
        distinct_left = h.distinct_left.1;
        keys = λ j. ground (
          arith,
          h.keys j,
          new,
          h.distinct_left.0,
          lookup-insert n.node_id j number st.numbers,
          nat_beq_iff n.node_id j,
        );
        remain = omega (arith, h.remain, h.small, added);
        small = omega (arith, h.small, added);
      }

  number_nodes-IsCounting :
      (st : Numbers) (nodes : List NodeInfo)
      → IsCounting st nodes
      → IsCounting (number_nodes share shard_total weights st nodes) []
  unfolding number_nodes
  number_nodes-IsCounting st [] h = h
  number_nodes-IsCounting st (n ∷ nodes) h =
      number_nodes-IsCounting (number_one share shard_total weights st n) nodes
        (number_one-IsCounting st n nodes h)

  number_one-LastCounts :
      (st : Numbers) (n : NodeInfo)
      → n.node_id < 2 ^ 31
      → LastCounts (number_one share shard_total weights st n)
  unfolding number_one
  number_one-LastCounts st n small = (
    ground (
      arith,
      lookup-insert n.node_id n.node_id (share n.weight weights shard_total) st.numbers,
      nat_beq_iff n.node_id n.node_id,
    ),
    small,
  )

  number_nodes-LastCounts :
      (st : Numbers) (nodes : List NodeInfo)
      → All (λ n. n.node_id < 2 ^ 31) nodes
      → LastCounts st
      → LastCounts (number_nodes share shard_total weights st nodes)
  unfolding number_nodes
  number_nodes-LastCounts st [] small h = h
  number_nodes-LastCounts st (n ∷ nodes) small h =
      number_nodes-LastCounts (number_one share shard_total weights st n) nodes small.1
        (number_one-LastCounts st n small.0)

  -- The numbers cover all shards.
  record Covers (numbers : List (ℕ × ℕ)) : Type 0 where
    distinct : Distinct numbers
    keys : (j : ℕ) → counted (lookup j all) ≡ counted (lookup j numbers)
    enough : shard_total ≤ total (λ v. v) numbers

  give_rest-Covers : (st : Numbers) → IsCounting st [] → LastCounts st → Covers (give_rest st)
  unfolding give_rest add32 lookup
  give_rest-Covers st h last =
      let value = add32 (lookup_or 0 st.last_node_id st.numbers) st.remain_number in
      record {
        distinct =
            ground (arith, h.distinct, insert-Distinct st.last_node_id value st.numbers h.distinct);
        keys = λ j. ground (
          arith,
          h.keys j,
          last.0,
          lookup-insert st.last_node_id j value st.numbers,
          nat_beq_iff st.last_node_id j,
        );
        enough = ground (
          arith,
          h.remain,
          h.small,
          last.1,
          total-insert (λ v. v) st.last_node_id value st.numbers,
          total-delete (λ v. v) st.last_node_id st.numbers h.distinct,
        );
      }

allowed-total_at :
    (numbers : List (ℕ × ℕ)) (nodes : List NodeInfo)
    → allowed numbers nodes ≡ total_at (λ v. v) (keyed nodes) numbers
allowed-total_at numbers [] = refl
allowed-total_at numbers (n ∷ nodes) = omega (arith, allowed-total_at numbers nodes)

-- The nodes are allowed all the shards together.
pub shard_number-covers :
    (share : Share) (shard_total : ℕ) (n : NodeInfo) (nodes : List NodeInfo)
    → Distinct (keyed (n ∷ nodes))
    → All (λ m. m.node_id < 2 ^ 31) (n ∷ nodes)
    → shard_total + shares share shard_total (total_weight (n ∷ nodes)) (n ∷ nodes) < 2 ^ 31
    → shard_total ≤ allowed (shard_number share shard_total (n ∷ nodes)) (n ∷ nodes)
unfolding shard_number lookup number_nodes
shard_number-covers share shard_total n nodes distinct ids small =
    let weights = total_weight (n ∷ nodes) in
    let all = keyed (n ∷ nodes) in
    let start : Numbers = record {
      numbers = [];
      remain_number = shard_total;
      last_node_id = 4294967295;
    } in
    let covers =
      give_rest-Covers share shard_total weights all
        (number_nodes share shard_total weights start (n ∷ nodes))
        (number_nodes-IsCounting share shard_total weights all start (n ∷ nodes) (record {
          distinct = tt;
          distinct_left = distinct;
          keys = λ j. omega arith;
          remain = omega (arith, small);
          small = omega (arith, small);
        }))
        (number_nodes-LastCounts share shard_total weights all
          (number_one share shard_total weights start n) nodes ids.1
          (number_one-LastCounts share shard_total weights all start n ids.0)) in
    omega (
      arith,
      covers.enough,
      allowed-total_at (shard_number share shard_total (n ∷ nodes)) (n ∷ nodes),
      total_at-same (λ v. v) all (shard_number share shard_total (n ∷ nodes)) distinct
          covers.distinct covers.keys,
    )
