-- ===== src/Control/ShardManager/Version/Cluster.antt =====
-- shard_manager.go: the manager's maps from the description of a cluster.
use laser_db.Base.{
  ℕ, ◌≡◌, refl, sym, ◌∙◌, String, Bool, true, false, Option, some, List, [], ◌∷◌, ◌++◌, arith,
  some_inj, subst, ◌==◌, if◌then◌else◌, nat_eq, string_eq,
}
use laser_db.Base.Maps.{lookup, insert, lookup-insert, Distinct, insert-Distinct}
use laser_db.Control.ShardManager.{NodeInfo, NodeMap}
use laser_db.Control.ShardManager.Version.{ShardManager, Dc}
use laser_db.Control.ShardManager.Version.Stored.{IsKeyed}
use laser_db.Control.ShardManager.Version.RoundTrip.{IsManager}

-- The fields of a group that the manager reads.
pub record GroupInfo : Type 0 where
  pub name : String
  pub dc_name : String
  pub nodes : List NodeInfo

pub record ClusterInfo : Type 0 where
  pub name : String
  pub shard_total : ℕ
  pub dcs : List Dc
  pub groups : List GroupInfo

-- What the status manager is told of a node.
pub record NodeHostInfo : Type 0 where
  pub group_name : String
  pub node_id : ℕ
  pub host : String
  pub port : ℕ

-- A node of a group; its host and port are not copied.
abbrev pub node_info : String → NodeInfo → NodeInfo
node_info name n = record n { group_name = name; host = ""; port = 0 }

abbrev pub host_info : String → NodeInfo → NodeHostInfo
host_info name n = record { group_name = name; node_id = n.node_id; host = n.host; port = n.port }

unfoldable pub add_nodes : String → List NodeInfo → NodeMap → NodeMap
unfolding insert
add_nodes name [] group = group
add_nodes name (n ∷ nodes) group = add_nodes name nodes (insert n.node_id (node_info name n) group)

unfoldable pub add_hosts : String → List NodeInfo → List NodeHostInfo → List NodeHostInfo
add_hosts name [] hosts = hosts
add_hosts name (n ∷ nodes) hosts = add_hosts name nodes (hosts ++ host_info name n ∷ [])

-- The three results of the loop over the groups.
pub record Loaded : Type 0 where
  pub groups : List (String × NodeMap)
  pub group_to_dc : List (String × String)
  pub hosts : List NodeHostInfo

unfoldable pub add_groups : List GroupInfo → Loaded → Loaded
unfolding add_nodes add_hosts insert
add_groups [] l = l
add_groups (g ∷ gs) l = add_groups gs (record {
  groups = insert g.name (add_nodes g.name g.nodes []) l.groups;
  group_to_dc = insert g.name g.dc_name l.group_to_dc;
  hosts = add_hosts g.name g.nodes l.hosts;
})

-- The manager, and the nodes that its status manager is given.
unfoldable pub update_cluster_info : ShardManager → ClusterInfo → ShardManager × List NodeHostInfo
unfolding add_groups
update_cluster_info m info =
    let l = add_groups info.groups (record { groups = []; group_to_dc = []; hosts = [] }) in
    (
      record m {
        cluster_name = info.name;
        shard_total = info.shard_total;
        groups = l.groups;
        group_to_dc = l.group_to_dc;
        dcs = info.dcs;
      },
      l.hosts,
    )

-- A map of nodes that has each once, under its id.
record IsNodeMap (group : NodeMap) : Type 0 where
  ids : Distinct group
  keyed : IsKeyed group

inserted :
    {A : Type 0} (b : Bool) (v w : A) (o : Option A)
    → (if b then some v else o) ≡ some w
    → (P : A → Type 0) → (b ≡ true → P v)
    → (o ≡ some w → P w)
    → P w
inserted true v w o e P new old = subst P (some_inj v w e) (new refl)
inserted false v w o e P new old = old e

insert-IsNodeMap :
    (n : NodeInfo) (group : NodeMap) → IsNodeMap group → IsNodeMap (insert n.node_id n group)
insert-IsNodeMap n group h = record {
  ids = insert-Distinct n.node_id n group h.ids;
  keyed = λ id k at.
      inserted (n.node_id == id) n k (lookup id group)
        (sym (lookup-insert n.node_id id n group) ∙ at) (λ v. v.node_id ≡ id)
        (λ e. (nat_eq.same_iff n.node_id id).0 e) (h.keyed id k);
}

add_nodes-IsNodeMap :
    (name : String) (nodes : List NodeInfo) (group : NodeMap)
    → IsNodeMap group
    → IsNodeMap (add_nodes name nodes group)
unfolding add_nodes
add_nodes-IsNodeMap name [] group h = h
add_nodes-IsNodeMap name (n ∷ nodes) group h =
    add_nodes-IsNodeMap name nodes (insert n.node_id (node_info name n) group)
      (insert-IsNodeMap (node_info name n) group h)

empty-IsNodeMap : IsNodeMap []
unfolding lookup
empty-IsNodeMap = record { ids = tt; keyed = λ id n e. ground (arith, e) }

insert-IsManager :
    (name : String) (group : NodeMap) (groups : List (String × NodeMap))
    → IsNodeMap group
    → IsManager groups
    → IsManager (insert name group groups)
insert-IsManager name group groups h hs = record {
  names = insert-Distinct name group groups hs.names;
  ids = λ other k at.
      inserted (name == other) group k (lookup other groups)
        (sym (lookup-insert name other group groups) ∙ at) Distinct (λ e. h.ids) (hs.ids other k);
  keyed = λ other k at.
      inserted (name == other) group k (lookup other groups)
        (sym (lookup-insert name other group groups) ∙ at) IsKeyed (λ e. h.keyed)
        (hs.keyed other k);
}

add_groups-IsManager :
    (gs : List GroupInfo) (l : Loaded) → IsManager l.groups → IsManager (add_groups gs l).groups
unfolding add_groups
add_groups-IsManager [] l h = h
add_groups-IsManager (g ∷ gs) l h = add_groups-IsManager gs _ (
    insert-IsManager g.name (add_nodes g.name g.nodes []) l.groups
      (add_nodes-IsNodeMap g.name g.nodes [] empty-IsNodeMap) h)

-- Whatever the cluster, the manager's maps have each key once and each node under its id.
pub update_cluster_info-IsManager :
    (m : ShardManager) (info : ClusterInfo) → IsManager (update_cluster_info m info).0.groups
unfolding update_cluster_info lookup
update_cluster_info-IsManager m info =
    add_groups-IsManager info.groups (record { groups = []; group_to_dc = []; hosts = [] })
      (record {
        names = tt;
        ids = λ name g e. ground (arith, e);
        keyed = λ name g e. ground (arith, e);
      })
