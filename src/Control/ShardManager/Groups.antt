-- ===== src/Control/ShardManager/Groups.antt =====
-- AssignShards of shard_manager.go: the first assignment of the shards to a group.
use laser_db.Base.{
  ℕ, ◌≡◌, refl, ap, ◌∙◌, Bool, true, false, not, List, [], ◌∷◌, length, drop, All, arith,
  if◌then◌else◌, ltb, Bool-cases, inl, inr,
}
use laser_db.Control.ShardManager.Fresh.{
  AreEmpty, CanAssign, all_ids, from, assign_shard_by_role-empty, assign_shard_by_role-all,
}
use laser_db.Control.ShardManager.{
  NodeInfo, NodeMap, Share, shard_number, wanted, hand_out, plays, nodes_of, place_nodes,
  assign_shard_by_role, assign_role, assign_group,
}

abbrev Plays : Bool → List NodeInfo → Type 0
Plays leads nodes = All (λ n. plays leads n ≡ true) nodes

nodes_of-Plays : (leads : Bool) (group : NodeMap) → Plays leads (nodes_of leads group)
unfolding nodes_of
nodes_of-Plays leads [] = tt
nodes_of-Plays leads ((id, n) ∷ group) = elim (Bool-cases (plays leads n)) [
  | inl e ↦ rw e ((e, nodes_of-Plays leads group))
  | inr e ↦ rw e (nodes_of-Plays leads group)
]

hand_out-Plays :
    (leads : Bool) (numbers : List (ℕ × ℕ)) (nodes : List NodeInfo) (remain : List ℕ)
    → Plays leads nodes
    → Plays leads (hand_out numbers remain nodes)
unfolding hand_out
hand_out-Plays leads numbers [] remain h = tt
hand_out-Plays true numbers (n ∷ nodes) remain h =
    (h.0, hand_out-Plays true numbers nodes (drop (wanted numbers n (length remain)) remain) h.1)
hand_out-Plays false numbers (n ∷ nodes) remain h =
    (h.0, hand_out-Plays false numbers nodes (drop (wanted numbers n (length remain)) remain) h.1)

length-hand_out :
    (numbers : List (ℕ × ℕ)) (nodes : List NodeInfo) (remain : List ℕ)
    → length (hand_out numbers remain nodes) ≡ length nodes
unfolding hand_out
length-hand_out numbers [] remain = refl
length-hand_out numbers (n ∷ nodes) remain =
    omega (arith, length-hand_out numbers nodes (drop (wanted numbers n (length remain)) remain))

plays-not : (leads : Bool) (n : NodeInfo) → plays leads n ≡ true → plays (not leads) n ≡ false
plays-not true n e = ap not e
plays-not false n e = ground (arith, e)

nodes_of-place_nodes :
    (leads : Bool) (nodes : List NodeInfo) (group : NodeMap)
    → Plays leads nodes
    → length nodes ≡ length (nodes_of leads group)
    → nodes_of leads (place_nodes leads nodes group) ≡ nodes
unfolding nodes_of place_nodes
nodes_of-place_nodes leads [] [] h same = refl
nodes_of-place_nodes leads [] ((id, old) ∷ group) h same =
    ground (arith, same, nodes_of-place_nodes leads [] group h)
nodes_of-place_nodes leads (n ∷ nodes) [] h same = absurd (omega (arith, same))
nodes_of-place_nodes leads (n ∷ nodes) ((id, old) ∷ group) h same = ground (
  arith,
  same,
  h.0,
  nodes_of-place_nodes leads nodes group h.1,
  nodes_of-place_nodes leads (n ∷ nodes) group h,
)

nodes_of-place_nodes_other :
    (leads : Bool) (nodes : List NodeInfo) (group : NodeMap)
    → Plays leads nodes
    → length nodes ≡ length (nodes_of leads group)
    → nodes_of (not leads) (place_nodes leads nodes group) ≡ nodes_of (not leads) group
unfolding nodes_of place_nodes
nodes_of-place_nodes_other leads [] group h same = refl
nodes_of-place_nodes_other leads (n ∷ nodes) [] h same = absurd (omega (arith, same))
nodes_of-place_nodes_other leads (n ∷ nodes) ((id, old) ∷ group) h same = ground (
  arith,
  same,
  plays-not leads n h.0,
  plays-not leads old,
  nodes_of-place_nodes_other leads nodes group h.1,
  nodes_of-place_nodes_other leads (n ∷ nodes) group h,
)

module _ (share : Share) (shard_total : ℕ) where
  assigned-Plays :
      (leads : Bool) (nodes : List NodeInfo)
      → AreEmpty nodes
      → Plays leads nodes
      → Plays leads (assign_shard_by_role share shard_total nodes)
  assigned-Plays leads nodes empty h =
      rw (assign_shard_by_role-empty share shard_total nodes empty)
        (hand_out-Plays leads (shard_number share shard_total nodes) nodes (from shard_total 0) h)

  length-assigned :
      (nodes : List NodeInfo)
      → AreEmpty nodes
      → length (assign_shard_by_role share shard_total nodes) ≡ length nodes
  length-assigned nodes empty =
      rw (assign_shard_by_role-empty share shard_total nodes empty)
        (length-hand_out (shard_number share shard_total nodes) nodes (from shard_total 0))

  -- A call changes the nodes of its role, and no others.
  nodes_of-assign_role :
      (leads : Bool) (group : NodeMap)
      → AreEmpty (nodes_of leads group)
      → nodes_of leads (assign_role share shard_total leads group) ≡ (
          if ltb 0 (length (nodes_of leads group))
          then assign_shard_by_role share shard_total (nodes_of leads group)
          else nodes_of leads group)
  unfolding assign_role
  nodes_of-assign_role leads group empty =
      let nodes = nodes_of leads group in
      ground (
        arith,
        nodes_of-place_nodes leads (assign_shard_by_role share shard_total nodes) group
            (assigned-Plays leads nodes empty (nodes_of-Plays leads group))
            (length-assigned nodes empty),
      )

  nodes_of-assign_role_other :
      (leads : Bool) (group : NodeMap)
      → AreEmpty (nodes_of leads group)
      → nodes_of (not leads) (assign_role share shard_total leads group)
        ≡ nodes_of (not leads) group
  unfolding assign_role
  nodes_of-assign_role_other leads group empty =
      let nodes = nodes_of leads group in
      ground (
        arith,
        nodes_of-place_nodes_other leads (assign_shard_by_role share shard_total nodes) group
            (assigned-Plays leads nodes empty (nodes_of-Plays leads group))
            (length-assigned nodes empty),
      )

  assigned-all :
      (nodes : List NodeInfo)
      → CanAssign share shard_total nodes
      → all_ids
          (if ltb 0 (length nodes) then assign_shard_by_role share shard_total nodes else nodes)
        ≡ (if ltb 0 (length nodes) then from shard_total 0 else [])
  assigned-all [] h = refl
  assigned-all (n ∷ nodes) h = ground (arith, assign_shard_by_role-all share shard_total n nodes h)

  -- In a group whose nodes have no shards, an assignment gives every shard of the cluster once to the
  -- leader nodes together and once to the follower nodes together, whichever of the two `leads` names;
  -- only a role that no node has gets none. The condition for each role: the ids of its nodes differ
  -- and are not negative as an int32, and the number of shards and the shares of the nodes are
  -- together below 2^31. This holds whatever the shares are: the rounding of the floating-point
  -- numbers does not lose a shard.
  pub assign_group-all :
      (leads : Bool) (group : NodeMap)
      → CanAssign share shard_total (nodes_of true group)
      → CanAssign share shard_total (nodes_of false group)
      → all_ids (nodes_of leads (assign_group share shard_total group))
        ≡ (if ltb 0 (length (nodes_of leads group)) then from shard_total 0 else [])
  unfolding assign_group
  assign_group-all true group leaders followers =
      let first = assign_role share shard_total true group in
      let kept = nodes_of-assign_role_other true group leaders.empty in
      ap all_ids (nodes_of-assign_role_other false first (rw kept followers.empty))
      ∙ ap all_ids (nodes_of-assign_role true group leaders.empty)
      ∙ assigned-all (nodes_of true group) leaders
  assign_group-all false group leaders followers =
      let first = assign_role share shard_total true group in
      let kept = nodes_of-assign_role_other true group leaders.empty in
      ap all_ids (nodes_of-assign_role false first (rw kept followers.empty))
      ∙ rw kept (assigned-all (nodes_of false group) followers)
