-- ===== src/ServiceRouter/Router/Found.antt =====
-- What a call finds once the database was updated.
use laser_db.Base.{
  ℕ, String, ◌≡◌, refl, sym, ap, subst, ◌∙◌, inl, inr, Bool, true, false, Option, none, some, List,
  [], ◌∷◌, ◌++◌, Memᴰ, arith, nat_beq, if◌then◌else◌, nat_beq_iff, Bool-cases, ◌==◌, nat_eq,
  string_eq,
}
use laser_db.Base.Maps.{or_else}
use laser_db.ServiceRouter.Server.{Server, ServerList, shard_type_leader, default_dc}
use laser_db.ServiceRouter.RouterDb.{
  CityHash, RouterDb, get_service_key, pick_servers, picked_or_all, update_servers, select_servers,
  with_dc, leader_shards,
}
use laser_db.ServiceRouter.RouterDb.Grouping.{
  Pairs, servers_at, pairs_of, role_pairs, shard_pairs, extended,
}
use laser_db.ServiceRouter.RouterDb.Update.{services-picked}
use laser_db.ServiceRouter.Router.{ClientOption, discover_servers, option_dc, route_id}

mem-append_left : {A : Type 0} (a : A) (xs ys : List A) → Memᴰ a xs → Memᴰ a (xs ++ ys)
mem-append_left a [] ys m = elim m [ ]
mem-append_left a (x ∷ xs) ys (Memᴰ.head e) = Memᴰ.head e
mem-append_left a (x ∷ xs) ys (Memᴰ.tail m) = Memᴰ.tail (mem-append_left a xs ys m)

mem-append_right : {A : Type 0} (a : A) (xs ys : List A) → Memᴰ a ys → Memᴰ a (xs ++ ys)
mem-append_right a [] ys m = m
mem-append_right a (x ∷ xs) ys m = Memᴰ.tail (mem-append_right a xs ys m)

mem-else :
    {A : Type 0} (a : A) (b : Bool) (xs : List A)
    → b ≡ false
    → Memᴰ a xs
    → Memᴰ a (if b then [] else xs)
mem-else a b xs e m = subst (λ c. Memᴰ a (if c then [] else xs)) (sym e) m

mem-servers_at : (key : ℕ) (s : Server) (ps : Pairs) → Memᴰ (key, s) ps → Memᴰ s (servers_at key ps)
mem-servers_at key s [] m = elim m [ ]
mem-servers_at key s ((k, t) ∷ ps) (Memᴰ.head e) =
    rw ((nat_beq_iff k key).1 (sym (ap (λ p. p.0) e))) (Memᴰ.head (ap (λ p. p.1) e))
mem-servers_at key s ((k, t) ∷ ps) (Memᴰ.tail m) = elim (Bool-cases (nat_beq k key)) [
  | inl e ↦ rw e (Memᴰ.tail (mem-servers_at key s ps m))
  | inr e ↦ rw e (mem-servers_at key s ps m)
]

mem-pairs_of :
    (f : Server → Pairs) (p : ℕ × Server) (sv : Server) (svs : ServerList)
    → Memᴰ sv svs
    → Memᴰ p (f (with_dc sv))
    → Memᴰ p (pairs_of f svs)
mem-pairs_of f p sv [] m h = elim m [ ]
mem-pairs_of f p sv (t ∷ svs) (Memᴰ.head e) h =
    mem-append_left p (f (with_dc t)) (pairs_of f svs) (subst (λ x. Memᴰ p (f (with_dc x))) e h)
mem-pairs_of f p sv (t ∷ svs) (Memᴰ.tail m) h =
    mem-append_right p (f (with_dc t)) (pairs_of f svs) (mem-pairs_of f p sv svs m h)

extended-some : (s : Server) (l : ServerList) → Memᴰ s l → extended none l ≡ some l
extended-some s [] m = elim m [ ]
extended-some s (x ∷ l) m = refl

module _ (city : CityHash) (name : String) where
  mem-role_pairs :
      (role : String) (sv : Server) (shard : ℕ) (shards : List ℕ)
      → Memᴰ shard shards
      → Memᴰ
          (get_service_key city name sv.protocol shard role sv.dc, sv)
          (role_pairs city name role sv shards)
  mem-role_pairs role sv shard [] m = elim m [ ]
  mem-role_pairs role sv shard (x ∷ shards) (Memᴰ.head e) =
      Memᴰ.head (ap (λ i. (get_service_key city name sv.protocol i role sv.dc, sv)) e)
  mem-role_pairs role sv shard (x ∷ shards) (Memᴰ.tail m) =
      Memᴰ.tail (Memᴰ.tail (mem-role_pairs role sv shard shards m))

  mem-shard_pairs :
      (sv : Server) (shard : ℕ)
      → sv.is_edge_node ≡ false
      → Memᴰ shard (leader_shards sv)
      → Memᴰ
          (get_service_key city name sv.protocol shard shard_type_leader sv.dc, sv)
          (shard_pairs city name sv)
  mem-shard_pairs sv shard e m = mem-else _ sv.is_edge_node _ e (
      mem-append_left _ (role_pairs city name shard_type_leader sv (leader_shards sv)) _
        (mem-role_pairs shard_type_leader sv shard (leader_shards sv) m))

dc_filled :
    (b : Bool) (sv : Server)
    → (sv.dc == "") ≡ b
    → ((if b then record sv { dc = default_dc } else sv).dc == "") ≡ false
dc_filled true sv e = refl
dc_filled false sv e = e

or_else-some : (o rest : Option ServerList) (l : ServerList) → o ≡ some l → or_else o rest ≡ some l
or_else-some o rest l e = ap (λ p. or_else p rest) e

with_dc_same :
    (sv : Server)
    → (leader_shards (with_dc sv) ≡ leader_shards sv)
      × ((with_dc sv).is_edge_node ≡ sv.is_edge_node)
      × ((with_dc sv).protocol ≡ sv.protocol)
      × (((with_dc sv).dc == "") ≡ false)
unfolding with_dc leader_shards
with_dc_same sv = (ground arith, ground arith, ground arith, dc_filled (sv.dc == "") sv refl)

-- A call to the leader of a shard on a server, in the server's data centre.
abbrev pub asks_leader : String → Server → ℕ → ClientOption → ClientOption
asks_leader name sv shard o = record o {
  service_name = name;
  protocol = (with_dc sv).protocol;
  shard_type = shard_type_leader;
  shard_id = shard;
  route_to_edge_node = false;
  dc = (with_dc sv).dc;
}

option_dc-asks_leader :
    (name : String) (sv : Server) (shard : ℕ) (o : ClientOption)
    → option_dc (asks_leader name sv shard o) ≡ (with_dc sv).dc
unfolding option_dc
option_dc-asks_leader name sv shard o = ground (arith, (with_dc_same sv).3)

discover_servers-select :
    (city : CityHash) (rd : RouterDb) (o : ClientOption) (servers : ServerList)
    → select_servers city rd o.service_name o.protocol (route_id o) o.shard_type (option_dc o)
      ≡ some servers
    → discover_servers city rd o ≡ some servers
unfolding discover_servers
discover_servers-select city rd o servers e = ground (arith, e)

-- After an update, every server that the update picked, that is no edge node and that has a shard
-- among its available ones, is among the servers over which a call to the leader of that shard in
-- its data centre is balanced.
pub discover_servers-update_servers :
    (city : CityHash) (rd : RouterDb) (now : ℕ) (name : String) (s : Server) (ss : ServerList)
    (sv : Server) (shard : ℕ) (o : ClientOption)
    → Memᴰ sv (picked_or_all (pick_servers rd now name (s ∷ ss)) (s ∷ ss))
    → sv.is_edge_node ≡ false
    → Memᴰ shard (leader_shards sv)
    → (servers : ServerList) × (discover_servers city
          (update_servers city rd now name (s ∷ ss))
          (asks_leader name sv shard o)
        ≡ some servers)
      × Memᴰ (with_dc sv) servers
unfolding select_servers route_id
discover_servers-update_servers city rd now name s ss sv shard o picked no_edge has_shard = (
  filed,
  discover_servers-select city (update_servers city rd now name (s ∷ ss))
      (asks_leader name sv shard o) filed
      (ap
          (select_servers city (update_servers city rd now name (s ∷ ss)) name (with_dc sv).protocol
            shard shard_type_leader)
          (option_dc-asks_leader name sv shard o)
        ∙ services-picked city rd now name s ss key
        ∙ or_else-some (extended none filed) _ filed (extended-some (with_dc sv) filed there)),
  there,
)
  where
    key : ℕ
    key = get_service_key city name (with_dc sv).protocol shard shard_type_leader (with_dc sv).dc

    filed : ServerList
    filed = servers_at key (
        pairs_of (shard_pairs city name)
          (picked_or_all (pick_servers rd now name (s ∷ ss)) (s ∷ ss)))

    there : Memᴰ (with_dc sv) filed
    there = mem-servers_at key (with_dc sv) _ (
        mem-pairs_of (shard_pairs city name) (key, with_dc sv) sv _ picked
          (mem-shard_pairs city name (with_dc sv) shard ((with_dc_same sv).1 ∙ no_edge)
            (subst (Memᴰ shard) (sym (with_dc_same sv).0) has_shard)))
