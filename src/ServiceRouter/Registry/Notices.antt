-- ===== src/ServiceRouter/Registry/Notices.antt =====
-- When subscribers are notified, and with what.
use laser_db.Base.{
  ℕ, String, ◌≡◌, ap, ◌∙◌, inl, inr, true, false, none, some, List, [], ◌∷◌, map, arith, index,
  nat_beq_iff, Option-cases, nat_eq, string_eq, ==_refl,
}
use laser_db.Base.Maps.{lookup_or, lookup-insert, lookup-delete}
use laser_db.ServiceRouter.Server.{Server, ServerList}
use laser_db.ServiceRouter.Node.{get_nodes_path}
use laser_db.ServiceRouter.Registry.{
  Consul, Format, KvPair, ConsulRegistry, check_update, notify_discover, notify_static,
  process_discover, discover, process_config, unsubscribe_config, enable_static, push_static_nodes,
}

-- The index that is stored under a key is no update any more.
pub check_update_again :
    (cr : ConsulRegistry) (key : String) (index : ℕ)
    → (check_update (check_update cr key index).0 key index).1 ≡ false
unfolding check_update
check_update_again cr key index =
    ground
      (arith, nat_beq_iff index index, lookup-insert key key index cr.last_indexes, ==_refl key)

pub static_switches-check_update :
    (cr : ConsulRegistry) (key : String) (index : ℕ)
    → (check_update cr key index).0.static_switches ≡ cr.static_switches
unfolding check_update
static_switches-check_update cr key index = ground arith

process_discover_state :
    (format : Format) (cr : ConsulRegistry) (name : String) (pairs : List KvPair) (index : ℕ)
    → (process_discover format cr name pairs index).0
      ≡ (check_update cr (get_nodes_path name) index).0
unfolding process_discover
process_discover_state format cr name pairs index = ground arith

process_discover_again :
    (format : Format) (cr : ConsulRegistry) (name : String) (pairs : List KvPair) (index : ℕ)
    → (process_discover format (check_update cr (get_nodes_path name) index).0 name pairs index).1
      ≡ []
unfolding process_discover
process_discover_again format cr name pairs index =
    ground (arith, check_update_again cr (get_nodes_path name) index)

discover_error :
    (format : Format) (consul : Consul) (cr : ConsulRegistry) (store : consul.Store) (name : String)
    → lookup_or false name cr.static_switches ≡ false
    → consul.list store (get_nodes_path name) ≡ none
    → discover format consul cr store name ≡ (cr, [])
unfolding discover
discover_error format consul cr store name off e = ground (arith, off, e)

pub discover_listed :
    (format : Format) (consul : Consul) (cr : ConsulRegistry) (store : consul.Store) (name : String)
    (pairs : List KvPair) (index : ℕ)
    → lookup_or false name cr.static_switches ≡ false
    → consul.list store (get_nodes_path name) ≡ some (pairs, index)
    → discover format consul cr store name ≡ process_discover format cr name pairs index
unfolding discover
discover_listed format consul cr store name pairs index off e = ground (arith, off, e)

-- Where the static list is off, to discover a service a second time while the store answers the
-- same notifies nobody.
pub discover_again :
    (format : Format) (consul : Consul) (cr : ConsulRegistry) (store : consul.Store) (name : String)
    → lookup_or false name cr.static_switches ≡ false
    → (discover format consul (discover format consul cr store name).0 store name).1 ≡ []
discover_again format consul cr store name off =
    elim (Option-cases (consul.list store (get_nodes_path name))) [
      | inl e ↦
          ap (λ r. (discover format consul r.0 store name).1)
            (discover_error format consul cr store name off e)
          ∙ ap (λ r. r.1) (discover_error format consul cr store name off e)
      | inr ((pairs, index), e) ↦
          ap (λ c. (discover format consul c store name).1) (state pairs index e)
          ∙ ap (λ r. r.1)
              (discover_listed format consul (checked index) store name pairs index
                (ap (lookup_or false name)
                    (static_switches-check_update cr (get_nodes_path name) index)
                  ∙ off)
                e)
          ∙ process_discover_again format cr name pairs index
    ]
  where
    checked : ℕ → ConsulRegistry
    checked index = (check_update cr (get_nodes_path name) index).0

    state :
        (pairs : List KvPair) (index : ℕ)
        → consul.list store (get_nodes_path name) ≡ some (pairs, index)
        → (discover format consul cr store name).0 ≡ checked index
    state pairs index e =
        ap (λ r. r.0) (discover_listed format consul cr store name pairs index off e)
        ∙ process_discover_state format cr name pairs index

-- Where the static list is on and has a server, each subscriber of the service gets that list,
-- whatever is in the store, and the registry is unchanged.
pub discover_static :
    (format : Format) (consul : Consul) (cr : ConsulRegistry) (store : consul.Store) (name : String)
    (s : Server) (ss : ServerList)
    → discover format consul (enable_static (push_static_nodes cr name (s ∷ ss)) name) store name
      ≡ (
        enable_static (push_static_nodes cr name (s ∷ ss)) name,
        map (λ u. (u, s ∷ ss)) (lookup_or [] name cr.service_subscribers),
      )
unfolding discover enable_static push_static_nodes notify_static notify_discover
discover_static format consul cr store name s ss = ground (
  arith,
  ==_refl name,
  lookup-insert name name true cr.static_switches,
  lookup-insert name name (s ∷ ss) cr.static_server_nodes,
)

-- `UnsubscribeConfig` leaves the notices of configurations as they are, and no subscriber of the
-- service is notified any more.
pub unsubscribe_config_lem :
    (format : Format) (cr : ConsulRegistry) (name : String) (pairs : List KvPair) (index : ℕ)
    (servers : ServerList)
    → ((process_config format (unsubscribe_config cr name) name pairs index).1
        ≡ (process_config format cr name pairs index).1)
      × (notify_discover (unsubscribe_config cr name) name servers ≡ [])
unfolding unsubscribe_config process_config check_update notify_discover
unsubscribe_config_lem format cr name pairs index servers =
    (ground arith, ground (arith, ==_refl name, lookup-delete name name cr.service_subscribers))
