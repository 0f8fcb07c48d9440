-- ===== src/ServiceRouter/Registry/Registration/RoundTrip.antt =====
-- A server that is made available is found by the next discovery.
use text.Mathlib.Text.{starts_with}
use text.Mathlib.TextPositions.{starts_with-append}
use laser_db.Base.{
  ℕ, String, ◌≡◌, ap, subst, ◌∙◌, ◌≢◌, Bool, true, false, not, none, some, List, [], ◌∷◌, map, Memᴰ,
  arith, index, if◌then◌else◌, nat_beq_iff, nat_eq, string_eq,
}
use laser_db.Base.Maps.{lookup_or}
use laser_db.ServiceRouter.Server.{Server, ServerList, available}
use laser_db.ServiceRouter.Node.{get_node_path, get_nodes_path, get_node_name}
use laser_db.ServiceRouter.Registry.{
  Consul, Format, KvPair, ConsulRegistry, check_update, process_discover, discover, notify_discover,
}
use laser_db.ServiceRouter.Registry.Notices.{discover_listed}
use laser_db.ServiceRouter.Registry.Registration.{
  invalid_server, register_server, set_available, check_server_valid, finished,
}

-- What Consul documents of a listing: after a put that succeeded, the list of a prefix of the key
-- holds the pair.
abbrev pub IsListing : Consul → Type 0
IsListing consul =
    (store written : consul.Store) (k v prefix : String) (pairs : List KvPair) (index : ℕ)
    → consul.put store k v ≡ (written, true)
    → starts_with k prefix ≡ true
    → consul.list written prefix ≡ some (pairs, index)
    → Memᴰ (k, v) pairs

-- JSON gives back the server that was marshalled.
abbrev pub IsRoundTrip : Format → Server → Type 0
IsRoundTrip format server = format.unmarshal_server (format.marshal_server server) ≡ server

-- The server as `Available` stores it.
abbrev pub stored : ℕ → Server → Server
stored now server = record server { status = available; update_time = now }

starts_with-get_node_path :
    (server : Server)
    → starts_with (get_node_path server) (get_nodes_path server.service_name) ≡ true
unfolding get_node_path
starts_with-get_node_path server =
    starts_with-append (get_nodes_path server.service_name) (get_node_name server)

mem-map : {A B : Type 0} (f : A → B) (a : A) (xs : List A) → Memᴰ a xs → Memᴰ (f a) (map f xs)
mem-map f a [] m = elim m [ ]
mem-map f a (x ∷ xs) (Memᴰ.head e) = Memᴰ.head (ap f e)
mem-map f a (x ∷ xs) (Memᴰ.tail m) = Memᴰ.tail (mem-map f a xs m)

process_discover_notices :
    (format : Format) (cr : ConsulRegistry) (name : String) (p : KvPair) (pairs : List KvPair)
    (index : ℕ)
    → index ≢ lookup_or 0 (get_nodes_path name) cr.last_indexes
    → (process_discover format cr name (p ∷ pairs) index).1
      ≡ map
          (λ u. (u, map (λ q. format.unmarshal_server q.1) (p ∷ pairs)))
          (lookup_or [] name cr.service_subscribers)
unfolding process_discover check_update notify_discover
process_discover_notices format cr name p pairs index changed =
    ground (arith, nat_beq_iff index (lookup_or 0 (get_nodes_path name) cr.last_indexes))

-- Nil is returned for a write that succeeded, and for nothing else.
finished_nil :
    (consul : Consul) (format : Format) (store written : consul.Store) (valid : Bool)
    (r : consul.Store × Bool)
    → (if not valid then (store, some invalid_server) else finished consul format store r)
      ≡ (written, none)
    → r ≡ (written, true)
finished_nil consul format store written false r e = ground (arith, ap (λ x. x.1) e)
finished_nil consul format store written true (s, true) e = ap (λ x. (x.0, true)) e
finished_nil consul format store written true (s, false) e = ground (arith, ap (λ x. x.1) e)

set_available_put :
    (consul : Consul) (format : Format) (store written : consul.Store) (now : ℕ) (server : Server)
    → set_available consul format store now server ≡ (written, none)
    → consul.put store (get_node_path server) (format.marshal_server (stored now server))
      ≡ (written, true)
unfolding set_available register_server get_node_path get_node_name
set_available_put consul format store written now server e =
    finished_nil consul format store written
      (check_server_valid (record server { status = available }))
      (consul.put store (get_node_path server) (format.marshal_server (stored now server))) e

-- After `Available` succeeded, as long as the static list is off and the store lists the service's
-- nodes at a new index: the discovery notifies each subscriber of the service with one list, and
-- the server is in it, available and with its new time.
pub discover-set_available :
    (consul : Consul) (format : Format) (cr : ConsulRegistry) (store written : consul.Store)
    (now : ℕ) (server : Server) (pairs : List KvPair) (index : ℕ)
    → IsListing consul
    → IsRoundTrip format (stored now server)
    → set_available consul format store now server ≡ (written, none)
    → lookup_or false server.service_name cr.static_switches ≡ false
    → consul.list written (get_nodes_path server.service_name) ≡ some (pairs, index)
    → index ≢ lookup_or 0 (get_nodes_path server.service_name) cr.last_indexes
    → (servers : ServerList) × ((discover format consul cr written server.service_name).1
        ≡ map (λ u. (u, servers)) (lookup_or [] server.service_name cr.service_subscribers))
      × Memᴰ (stored now server) servers
discover-set_available consul format cr store written now server [] index listing trip done off e
      changed =
    elim (listing store written _ _ _ [] index
      (set_available_put consul format store written now server done)
      (starts_with-get_node_path server) e) [ ]
discover-set_available consul format cr store written now server (p ∷ pairs) index listing trip done
      off e changed =
    (
      map (λ q. format.unmarshal_server q.1) (p ∷ pairs),
      ap (λ r. r.1)
            (discover_listed format consul cr written server.service_name (p ∷ pairs) index off e)
          ∙ process_discover_notices format cr server.service_name p pairs index changed,
      subst (λ s. Memᴰ s (map (λ q. format.unmarshal_server q.1) (p ∷ pairs))) trip
          (mem-map (λ q. format.unmarshal_server q.1) _ (p ∷ pairs)
            (listing store written _ _ _ (p ∷ pairs) index
              (set_available_put consul format store written now server done)
              (starts_with-get_node_path server) e)),
    )
