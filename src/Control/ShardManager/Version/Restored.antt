-- ===== src/Control/ShardManager/Version/Restored.antt =====
-- What a node is after it is stored and read back.
use laser_db.Base.{
  ℕ, ◌≡◌, refl, ap, ◌∙◌, String, ◌⊎◌, inl, inr, true, false, not, List, [], ◌∷◌, ◌++◌, map, keep_if,
  if◌then◌else◌, ◌||◌, Bool, nat_beq, ◌==◌, nat_eq, string_eq,
}
use laser_db.Control.ShardManager.{ShardRole, leader, follower, Shard, NodeInfo}
use laser_db.Control.ShardManager.Version.{
  is_leader, new_shards, ids_of, node_version, is_stored, read_shards,
}
use laser_db.Control.ShardManager.Version.Stored.{clear_node, read_back}

-- The shards of a node as a version keeps them: the leaders first, without their states.
abbrev pub reset : String → ℕ → Shard → Shard
reset name id s = record s { group_name = name; node_id = id; state = 0 }

abbrev pub in_order : String → ℕ → List Shard → List Shard
in_order name id shards =
    map (reset name id) (keep_if is_leader shards)
    ++ map (reset name id) (keep_if (λ s. not (is_leader s)) shards)

role-cases : (r : ShardRole) → (r ≡ leader) ⊎ (r ≡ follower)
role-cases leader = inl refl
role-cases follower = inr refl

as_role : String → ℕ → Shard → ShardRole → Shard
as_role name id s r = record {
  group_name = name;
  node_id = id;
  shard_id = s.shard_id;
  role = r;
  state = 0;
}

new_shards-leaders :
    (name : String) (id : ℕ) (shards : List Shard)
    → new_shards name id leader (ids_of true shards)
      ≡ map (reset name id) (keep_if is_leader shards)
unfolding ids_of as_role
new_shards-leaders name id [] = refl
new_shards-leaders name id (s ∷ shards) = elim (role-cases s.role) [
  | inl e ↦ rw e (ap (λ l. as_role name id s leader ∷ l) (new_shards-leaders name id shards))
  | inr e ↦ rw e (new_shards-leaders name id shards)
]

new_shards-followers :
    (name : String) (id : ℕ) (shards : List Shard)
    → new_shards name id follower (ids_of false shards)
      ≡ map (reset name id) (keep_if (λ s. not (is_leader s)) shards)
unfolding ids_of as_role
new_shards-followers name id [] = refl
new_shards-followers name id (s ∷ shards) = elim (role-cases s.role) [
  | inl e ↦ rw e (new_shards-followers name id shards)
  | inr e ↦ rw e (ap (λ l. as_role name id s follower ∷ l) (new_shards-followers name id shards))
]

read_shards-in_order :
    (name : String) (n : NodeInfo)
    → read_shards name (node_version n) ≡ in_order name n.node_id n.shards
unfolding read_shards node_version
read_shards-in_order name n =
    ap (λ l. l ++ new_shards name n.node_id follower (ids_of false n.shards))
      (new_shards-leaders name n.node_id n.shards)
    ∙ ap (λ l. map (reset name n.node_id) (keep_if is_leader n.shards) ++ l)
        (new_shards-followers name n.node_id n.shards)

-- What a node is after its version is read back: it has no shards if it is inactive or names another
-- group.
abbrev pub restored : String → NodeInfo → NodeInfo
restored name n = record n {
  shards =
      if n.group_name == name
      then if nat_beq n.active 0 then [] else in_order name n.node_id n.shards
      else [];
}

restored_when :
    (b named inactive : Bool) (name : String) (n : NodeInfo)
    → b ≡ not (not named || inactive)
    → read_back b name n (clear_node n) ≡ record n {
      shards = if named then if inactive then [] else in_order name n.node_id n.shards else [];
    }
restored_when b true true name n e = rw e refl
restored_when b true false name n e =
    rw e (ap {B = NodeInfo} (λ l. record n { shards = l }) (read_shards-in_order name n))
restored_when b false inactive name n e = rw e refl

pub read_back-restored :
    (name : String) (n : NodeInfo)
    → read_back (is_stored name n) name n (clear_node n) ≡ restored name n
unfolding is_stored
read_back-restored name n =
    restored_when (is_stored name n) (n.group_name == name) (nat_beq n.active 0) name n refl
