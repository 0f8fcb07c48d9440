-- ===== src/ServiceRouter/Registry/Registration.antt =====
-- registry.go, the writes to the store: servers and configurations. Marshalling a server or a
-- configuration does not fail. A nil list of a server is not told from an empty one, as
-- `RegisterServer` makes them empty.
pub mod RoundTrip
pub mod Versions
use laser_db.Base.{
  ℕ, ◌+◌, ◌-◌, String, Bool, true, false, not, Option, none, some, List, [], ◌∷◌, ◌++◌, map,
  if◌then◌else◌, Eq, ◌==◌, nat_eq, string_eq,
}
use laser_db.ServiceRouter.Server.{Server, ServiceRouterConfig, available, unavailable}
use laser_db.ServiceRouter.Node.{
  get_node_path, get_config_path, get_config_version_path, get_configs_path, get_router_config_path,
}
use laser_db.ServiceRouter.Registry.{Consul, Format}
use Prim.Native.String.{◌++◌ as ◌⧺◌}

pub data RegistryError : Type 0 where
  invalid_server : RegistryError
  store_failed : RegistryError

-- What a write returns: nil, or an error.
abbrev pub result_of : Bool → Option RegistryError
result_of true = none
result_of false = some store_failed

unfoldable pub check_server_valid : Server → Bool
check_server_valid server = not (server.service_name == "")

module _ (consul : Consul) (format : Format) (store : consul.Store) where
  abbrev pub finished : consul.Store × Bool → consul.Store × Option RegistryError
  finished (s, ok) = (s, result_of ok)

  -- `now` is the clock in milliseconds.
  unfoldable pub register_server : ℕ → Server → consul.Store × Option RegistryError
  unfolding check_server_valid get_node_path
  register_server now server =
      if not (check_server_valid server)
      then (store, some invalid_server)
      else finished (
          consul.put store (get_node_path server)
            (format.marshal_server (record server { update_time = now })))

  unfoldable pub unregister_server : Server → consul.Store × Option RegistryError
  unfolding check_server_valid get_node_path
  unregister_server server =
      if not (check_server_valid server)
      then (store, some invalid_server)
      else finished (consul.delete store (get_node_path server))

  unfoldable pub unregister_config : Server → consul.Store × Option RegistryError
  unfolding check_server_valid get_config_path
  unregister_config server =
      if not (check_server_valid server)
      then (store, some invalid_server)
      else finished (consul.delete_tree store (get_config_path server.service_name))

  -- `Available`: the server is registered with that status.
  unfoldable pub set_available : ℕ → Server → consul.Store × Option RegistryError
  unfolding register_server
  set_available now server = register_server now (record server { status = available })

  -- `Unavailable`
  unfoldable pub set_unavailable : Server → consul.Store × Option RegistryError
  unfolding unregister_server
  set_unavailable server = unregister_server (record server { status = unavailable })

module _ (consul : Consul) (format : Format) where
  unfoldable pub update_config_version : consul.Store → ℕ → Server → consul.Store × Bool
  unfolding get_config_version_path
  update_config_version store now server =
      consul.put store (get_config_version_path server.service_name) (format.decimal_time now)

  -- The version is written where the put failed, as in the code.
  unfoldable pub put_router_config :
      consul.Store → ℕ → Server → ServiceRouterConfig → consul.Store × Option RegistryError
  unfolding update_config_version get_router_config_path
  put_router_config store now server config =
      let (written, ok) =
        consul.put store (get_router_config_path server.service_name)
          (format.marshal_config config) in
      if ok
      then (written, none)
      else ((update_config_version written now server).0, some store_failed)

  -- The loop over the configurations stops at the first write that fails.
  unfoldable pub put_configs : String → consul.Store → List (String × String) → consul.Store × Bool
  put_configs path store [] = (store, true)
  put_configs path store ((k, v) ∷ configs) =
      let (written, ok) = consul.put store (path ⧺ k) (format.marshal_text v) in
      let rest = put_configs path written configs in if ok then rest else (written, false)

  -- `none` is the nil map.
  unfoldable pub put_service_configs :
      consul.Store
      → ℕ
      → Server
      → Option (List (String × String))
      → consul.Store × Option RegistryError
  unfolding put_configs update_config_version get_configs_path
  put_service_configs store now server none =
      finished consul format store (consul.put store (get_configs_path server.service_name) "")
  put_service_configs store now server (some configs) =
      let (written, ok) = put_configs (get_configs_path server.service_name) store configs in
      if ok
      then ((update_config_version written now server).0, none)
      else (written, some store_failed)
